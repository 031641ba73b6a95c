-- ===== src/Mcp/Post.antt =====
-- adapters/mcp/server.go: the adapter, and the requests that it makes to the gateway. net/http and
-- encoding/json are arguments: `Backend` is the HTTP client with the server behind it, `Codec` the
-- decoding and encoding of what passes.
use Prim.Native.String
use model_interface_gateway.Base.{
  ℕ, String, List, Option, none, some, Result, ok, err, ◌==◌, if◌then◌else◌, leb,
}
use model_interface_gateway.Text.{trim_space, trim_right_char}
use model_interface_gateway.Types.{Value, Payload}
use model_interface_gateway.Mcp.Manifest.{Manifest}

-- The fields of `Adapter`, but for the HTTP client.
pub record Adapter : Type 0 where
  pub manifest : Manifest
  pub base_url : String
  pub token : String
  pub tenant_id : String

-- `NewAdapter`
unfoldable pub new_adapter : String → Manifest → Adapter
unfolding trim_right_char
new_adapter base_url manifest = record {
  manifest = manifest;
  base_url = trim_right_char 47 base_url;
  token = "";
  tenant_id = "";
}

-- `SetBearerToken`
unfoldable pub set_bearer_token : String → Adapter → Adapter
unfolding trim_space
set_bearer_token token a = record a { token = trim_space token }

-- `SetTenantID`
unfoldable pub set_tenant_id : String → Adapter → Adapter
unfolding trim_space
set_tenant_id tenant_id a = record a { tenant_id = trim_space tenant_id }

-- `rpcError`; the code is the negative of the number, and the data is a text or nothing.
pub record RpcError : Type 0 where
  pub minus_code : ℕ
  pub message : String
  pub data_ : Option String

-- A request to the gateway, with the two header fields that may be set: none stands for not set.
pub record Outgoing : Type 0 where
  pub url : String
  pub authorization : Option String
  pub tenant_header : Option String
  pub body : Value

pub data Reply : Type 0 where
  unreachable : String → Reply
  answered : (status : ℕ) (body : String) → Reply

-- The HTTP client: the error of `http.NewRequest` for a URL, if it has one, and what comes back.
pub record Backend : Type 0 where
  pub rejects : String → Option String
  pub send : Outgoing → Reply

-- encoding/json: the decoding of an object, of the capabilities that `tools/list` looks at, of the
-- payload of a reply and of the parameters of `tools/call`, and the encoding of a payload.
pub record Codec : Type 0 where
  pub decode_object : String → Result String Payload
  pub decode_capabilities : String → Result String (List String)
  pub decode_payload : String → Result String Payload
  pub decode_params : String → Option (String × Payload)
  pub encode_payload : Payload → String

-- A header field that is set if the value is not empty.
abbrev field_of : String → String → Option String
field_of prefix value = if value == "" then none else some (String.◌++◌ prefix value)

-- The request that `postJSON` makes.
abbrev pub outgoing : Adapter → String → Value → Outgoing
outgoing a path body = record {
  url = String.◌++◌ a.base_url path;
  authorization = field_of "Bearer " a.token;
  tenant_header = field_of "" a.tenant_id;
  body = body;
}

abbrev pub rpc_error : ℕ → String → Option String → RpcError
rpc_error minus_code message data_ = record {
  minus_code = minus_code;
  message = message;
  data_ = data_;
}

-- What `postJSON` makes of the reply.
unfoldable pub read_reply : {A : Type 0} → (String → Result String A) → Reply → Result RpcError A
read_reply decode (unreachable e) = err (rpc_error 32011 "backend unavailable" (some e))
read_reply decode (answered status body) =
    if leb 400 status
    then err (rpc_error 32603 "mig backend error" (some body))
    else elim (decode body) [
      | err e ↦ err (rpc_error 32603 "decode backend response failed" (some e))
      | ok a ↦ ok a
    ]

-- `postJSON`. The bodies that it is given always encode.
unfoldable pub post_json :
    {A : Type 0}
    → Backend
    → Adapter
    → (path : String) → Value
    → (String → Result String A)
    → Result RpcError A
post_json backend a path body decode = elim (backend.rejects (String.◌++◌ a.base_url path)) [
  | some e ↦ err (rpc_error 32603 "create request failed" (some e))
  | none ↦ read_reply decode (backend.send (outgoing a path body))
]
