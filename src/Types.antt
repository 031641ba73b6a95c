-- ===== src/Types.antt =====
-- core/pkg/mig/types.go: the error codes, the message header and the data that the operations pass.
-- Decoded JSON is in `Types/Json`, the requests and replies of the protocol in `Types/Messages`,
-- those of the administration in `Types/Admin`, and what the code takes from the clock and from the
-- random source in `Types/Outside`.
pub mod Json
mod Messages
mod Admin
mod Outside
pub use Json.{Value, Payload, items_of, members_of, payload_value, entries}
pub use Messages.*
pub use Admin.*
pub use Outside.{Sample, Env}
unfoldable pub use Outside.{new_message_id, short_id}
