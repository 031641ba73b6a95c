-- ===== src/Service/History/Filed.antt =====
-- The audit file: what is in it as long as it can be written.
use model_interface_gateway.Base.{◌≡◌, false, some}
use model_interface_gateway.Service.{Service}
use model_interface_gateway.Service.History.{
  Step, History, closed, invoked, finished, start, then_step,
}

-- The step does not close the file, and its writes to the file succeed.
abbrev pub IsWritten : {s s' : Service} → Step s s' → Type 0
IsWritten closed = ⊥
IsWritten (invoked env expired capability req actor p) = env.audit_fails ≡ false
IsWritten (finished env expired t) = env.audit_fails ≡ false
IsWritten _ = Unit

abbrev pub AllWritten : {s s' : Service} → History s s' → Type 0
AllWritten start = Unit
AllWritten (then_step past st) = AllWritten past × IsWritten st

-- The file has the records of the audit log.
abbrev IsFiled : Service → Type 0
IsFiled s = s.audit_log ≡ some s.audit
