-- ===== src/Examples/Jobs.antt =====
-- A map function, and file calls that do not fail.
use major_assignments.Common.{String, refl, true, none, some, List, [], ◌∷◌}
use major_assignments.Worker.{KeyValue, Calls, Disk}
use major_assignments.Worker.MapTask.{IsGood}

abbrev pub words : String → String → List KeyValue
words _ _ =
    record { key = "a"; value = "1" }
    ∷ record { key = "bb"; value = "1" }
    ∷ record { key = "a"; value = "2" }
    ∷ []

abbrev pub good_calls : Calls
good_calls = record {
  read_file = λ _. some "a bb a";
  creates = λ _. true;
  encodes = λ _. true;
  closes = λ _. true;
  writes = true;
}

abbrev pub empty_disk : Disk
empty_disk _ _ = none

pub good_calls-IsGood : IsGood good_calls
good_calls-IsGood = record {
  all_created = λ _. refl;
  all_encoded = λ _. refl;
  all_closed = λ _. refl;
}
