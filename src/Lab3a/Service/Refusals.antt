-- ===== src/Lab3a/Service/Refusals.antt =====
-- Calls of the service that are answered with an error.
use major_assignments.Common.{nat_eq, string_eq}
use major_assignments.Lab3a.Service.{Service}
use major_assignments.Labgob.{Labgob}
