-- ===== src/Kv/Types.antt =====
-- common.go, and the records of server.go.
use major_assignments.Common.{String, ℕ}

-- `Err`, by its four constants.
pub data Err : Type 0 where
  ok err_no_key err_wrong_leader err_time_out : Err

-- The values of the field `Op`; any other text is no operation at all.
pub data Operation : Type 0 where
  put append get other : Operation

pub record PutAppendArgs : Type 0 where
  pub key : String
  pub value : String
  pub op : Operation
  pub msg_id : ℕ
  pub client_id : ℕ

pub record GetArgs : Type 0 where
  pub key : String
  pub msg_id : ℕ
  pub client_id : ℕ

pub record GetReply : Type 0 where
  pub err : Err
  pub value : String

pub record Op : Type 0 where
  pub key : String
  pub value : String
  pub operation : Operation
  pub msg_id : ℕ
  pub req_id : ℕ
  pub client_id : ℕ

pub record NotifyMsg : Type 0 where
  pub err : Err
  pub value : String
