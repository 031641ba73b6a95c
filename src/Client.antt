-- ===== src/Client.antt =====
-- sdk/go/migclient/client.go: the Go client. net/http and encoding/json are arguments, as for the
-- adapter: the error of making a request, what comes back for a URL and a body, and the decoders.
use Prim.Native.String
use model_interface_gateway.Base.{
  String, List, Option, none, some, Result, ok, err, leb, if◌then◌else◌,
}
use model_interface_gateway.Text.{trim_right_char, decimal, decimal_from}
use model_interface_gateway.Types.{Payload}
use model_interface_gateway.Mcp.Post.{Reply, unreachable, answered}

pub record Client : Type 0 where
  pub base_url : String

-- `New`
unfoldable pub new : String → Client
unfolding trim_right_char
new base_url = record { base_url = trim_right_char 47 base_url }

pub record MessageHeader : Type 0 where
  pub mig_version : String
  pub message_id : String
  pub timestamp : String
  pub tenant_id : String

pub record HelloRequest : Type 0 where
  pub header : MessageHeader
  pub supported_versions : List String
  pub requested_bindings : List String

pub record HelloResponse : Type 0 where
  pub selected_version : String
  pub selected_binding : String

pub record DiscoverRequest : Type 0 where
  pub header : MessageHeader
  pub query : String

pub record Capability : Type 0 where
  pub id : String
  pub version : String
  pub modes : List String

pub record DiscoverResponse : Type 0 where
  pub capabilities : List Capability

pub record InvokeRequest : Type 0 where
  pub header : MessageHeader
  pub capability : String
  pub payload : Payload

pub record InvokeResponse : Type 0 where
  pub capability : String
  pub payload : Payload

-- net/http and encoding/json for one type of request and one of reply: the encoding, the error of
-- `http.NewRequestWithContext` for a URL, what comes back for a URL and a body, and the decoding.
pub record Transport (Req Resp : Type 0) : Type 0 where
  pub encode : Req → Result String String
  pub rejects : String → Option String
  pub send : (url body : String) → Reply
  pub decode : String → Result String Resp

-- What `post` makes of the reply.
unfoldable pub read_response :
    {Resp : Type 0} → (String → Result String Resp) → Reply → Result String Resp
unfolding decimal_from
read_response decode (unreachable e) = err (String.◌++◌ "request failed: " e)
read_response decode (answered status body) =
    if leb 400 status
    then err (
        String.◌++◌ "request failed with status "
          (String.◌++◌ (decimal status) (String.◌++◌ ": " body)))
    else elim (decode body) [ err e ↦ err (String.◌++◌ "decode response: " e) | ok resp ↦ ok resp ]

unfoldable pub post :
    {Req Resp : Type 0} → Transport Req Resp → Client → (path : String) → Req → Result String Resp
post http c path req = elim (http.encode req) [
  | err e ↦ err (String.◌++◌ "marshal request: " e)
  | ok body ↦ elim (http.rejects (String.◌++◌ c.base_url path)) [
    | some e ↦ err (String.◌++◌ "create request: " e)
    | none ↦ read_response http.decode (http.send (String.◌++◌ c.base_url path) body)
  ]
]

unfoldable pub hello :
    Transport HelloRequest HelloResponse → Client → HelloRequest → Result String HelloResponse
hello http c req = post http c "/mig/v0.1/hello" req

unfoldable pub discover :
    Transport DiscoverRequest DiscoverResponse
    → Client
    → DiscoverRequest
    → Result String DiscoverResponse
discover http c req = post http c "/mig/v0.1/discover" req

unfoldable pub invoke :
    Transport InvokeRequest InvokeResponse
    → Client
    → (capability : String) → InvokeRequest
    → Result String InvokeResponse
invoke http c capability req = post http c (String.◌++◌ "/mig/v0.1/invoke/" capability) req
