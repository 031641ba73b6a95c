-- ===== src/Types/Outside.antt =====
-- What an operation takes from outside: the clock, the random source of `newMessageID`, and whether
-- the file of the audit log can be written.
use model_interface_gateway.Base.{ℕ, String, Bool, List, Option, none, some}
use model_interface_gateway.Text.{hex_encode, digit, decimal, decimal_from, take_chars}
use Prim.Native.String

-- One call of `newMessageID`: the sixteen bytes of `rand.Read`, or its failure, and then the clock.
pub record Sample : Type 0 where
  pub bytes : Option (List ℕ)
  pub unix_nano : ℕ

-- The hexadecimal text of the bytes; "msg-" and the time if there are none.
unfoldable pub new_message_id : Sample → String
unfolding hex_encode digit decimal_from
new_message_id sample = elim sample.bytes [
  | some buf ↦ hex_encode buf
  | none ↦ String.◌++◌ "msg-" (decimal sample.unix_nano)
]

-- `prefix + newMessageID()[:12]`
unfoldable pub short_id : String → Sample → String
unfolding new_message_id take_chars
short_id prefix sample = String.◌++◌ prefix (take_chars 12 (new_message_id sample))

-- `now` is `time.Now().UTC().Format(time.RFC3339)`; `for_header` the identifier that `Normalize`
-- may draw, and `for_entry` the one that the operation itself may draw. `audit_fails`: the write to the
-- audit log ends with an error.
pub record Env : Type 0 where
  pub now : String
  pub for_header : Sample
  pub for_entry : Sample
  pub audit_fails : Bool
