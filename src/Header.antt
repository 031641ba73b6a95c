-- ===== src/Header.antt =====
-- core/pkg/mig/types.go: `Normalize` and `AddIDGMeta` of the message header. Callers pass the address
-- of a header, so the receiver is never nil, and drop the header when `Normalize` fails.
pub mod Laws
use Prim.Native.String
use model_interface_gateway.Base.{
  String, Option, none, some, Result, ok, err, ◌>>=◌, ◌==◌, if◌then◌else◌,
}
use model_interface_gateway.Base.Int.{pos, is_le_zero}
use model_interface_gateway.Base.GoMap.{GoMap, insert}
use model_interface_gateway.Text.{quote}
use model_interface_gateway.Types.{Value, MessageHeader, mig_version, Env, new_message_id, entries}
use model_interface_gateway.Types.Json.{text}

-- `value`, or `fallback` where it is empty.
abbrev pub or_default : String → String → String
or_default value fallback = if value == "" then fallback else value

-- The header with the defaults filled in.
abbrev pub defaulted : Env → MessageHeader → MessageHeader
defaulted env h = record h {
  mig_version = or_default h.mig_version mig_version;
  message_id = or_default h.message_id (new_message_id env.for_header);
  timestamp = or_default h.timestamp env.now;
  deadline_ms = if is_le_zero h.deadline_ms then pos 30000 else h.deadline_ms;
  meta = some (entries h.meta);
}

-- `Normalize`. What it wrote before it fails is lost with the caller's copy of the header.
unfoldable pub normalize : Env → MessageHeader → Result String MessageHeader
normalize env h =
    let version = or_default h.mig_version mig_version in
    if version == mig_version
    then (if h.tenant_id == "" then err "tenant_id is required" else ok (defaulted env h))
    else err (String.◌++◌ "unsupported mig_version " (quote version))

-- The two entries that `AddIDGMeta` writes.
abbrev pub tag_meta : String → GoMap Value → GoMap Value
tag_meta tier m =
    insert "idg.meter_key" (text "invocations_capability_tier")
      (insert "idg.product_tier" (text tier) m)

-- `AddIDGMeta`
unfoldable pub add_idg_meta : String → MessageHeader → MessageHeader
add_idg_meta tier h = record h { meta = some (tag_meta tier (entries h.meta)) }

-- The start of the operations: `Normalize`, then `AddIDGMeta("core")`.
unfoldable pub open_header : Env → MessageHeader → Result String MessageHeader
unfolding normalize add_idg_meta
open_header env h = do head ← normalize env h; ok (add_idg_meta "core" head)

-- The caller's header after an operation that begins so. The header is copied, but its `Meta` map is
-- shared: a map that is not nil has the two entries afterwards, for the caller too.
unfoldable pub caller_header : Env → MessageHeader → MessageHeader
unfolding normalize
caller_header env h = elim (normalize env h) [
  | err _ ↦ h
  | ok _ ↦ elim h.meta [ none ↦ h | some m ↦ record h { meta = some (tag_meta "core" m) } ]
]
