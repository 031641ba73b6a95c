-- ===== src/Mcp/Server.antt =====
-- adapters/mcp/server.go: the JSON-RPC methods of the adapter.
use Prim.Native.String
use model_interface_gateway.Base.{
  ℕ, String, false, List, [], ◌∷◌, Option, none, some, Result, ok, err, ◌>>=◌, ◌==◌, if◌then◌else◌,
}
use model_interface_gateway.Base.GoMap.{GoMap}
use model_interface_gateway.Types.{Value, Payload, items_of, members_of, payload_value}
use model_interface_gateway.Types.Json.{text, array, object, boolean, null, Items, nil, cons}
use model_interface_gateway.Mcp.Post.{Adapter, RpcError, rpc_error, Backend, Codec, post_json}
use model_interface_gateway.Mcp.Manifest.{ToolMapping, capability_for_tool}

-- An object from its fields.
abbrev pub fields : List (String × Value) → Value
fields entries = object (members_of entries)

-- The header of every request that the adapter makes.
abbrev pub adapter_header : GoMap Value
adapter_header = ("mig_version", text "0.1") ∷ ("tenant_id", text "mcp-adapter") ∷ []

abbrev pub hello_body : Adapter → Value
hello_body a = fields (
    ("header", fields adapter_header)
    ∷ ("supported_versions", array (items_of ("0.1" ∷ [])))
    ∷ ("requested_bindings", array (items_of (a.manifest.default_binding ∷ [])))
    ∷ ("requested_features", array (items_of ("mcp-bridge" ∷ [])))
    ∷ [])

-- `handleInitialize`
unfoldable pub handle_initialize : Backend → Codec → Adapter → Result RpcError Value
handle_initialize backend codec a = do
  reply ← post_json backend a "/mig/v0.1/hello" (hello_body a) codec.decode_object
  ok (
      fields (
        ("protocolVersion", text "2024-11-05")
        ∷ ("capabilities", fields (("tools", fields []) ∷ []))
        ∷ ("serverInfo", fields (("name", text "mcp-mig-adapter") ∷ ("version", text "0.1.0") ∷ []))
        ∷ ("mig", payload_value reply)
        ∷ []))

-- One entry of the list of tools.
abbrev tool_entry : ToolMapping → Value
tool_entry tool = fields (
    ("name", text tool.mcp_name)
    ∷ ("description", text (String.◌++◌ "MIG capability " tool.mig_capability))
    ∷ ("inputSchema", fields (("type", text "object") ∷ []))
    ∷ [])

abbrev tool_items : List ToolMapping → Items
tool_items [] = nil
tool_items (tool ∷ tools) = cons (tool_entry tool) (tool_items tools)

abbrev pub discover_body : Value
discover_body = fields (("header", fields adapter_header) ∷ [])

-- `handleToolsList`
unfoldable pub handle_tools_list : Backend → Codec → Adapter → Result RpcError Value
handle_tools_list backend codec a = do
  known ← post_json backend a "/mig/v0.1/discover" discover_body codec.decode_capabilities
  ok (fields (("tools", array (tool_items a.manifest.mappings.tools)) ∷ []))

abbrev pub invoke_body : String → Payload → Value
invoke_body capability arguments = fields (
    (
      "header",
      fields (
          ("mig_version", text "0.1")
          ∷ ("tenant_id", text "mcp-adapter")
          ∷ (
            "meta",
            fields (
                ("idg.product_tier", text "core")
                ∷ ("idg.meter_key", text "invocations_capability_tier")
                ∷ []),
          )
          ∷ []),
    )
    ∷ ("capability", text capability)
    ∷ ("payload", payload_value arguments)
    ∷ ("stream_preference", text "")
    ∷ [])

-- The end of `handleToolsCall`, for a tool that is mapped.
unfoldable pub call_tool : Backend → Codec → Adapter → ToolMapping → Payload → Result RpcError Value
call_tool backend codec a tool arguments = do
  payload ←
      post_json backend a (String.◌++◌ "/mig/v0.1/invoke/" tool.mig_capability)
        (invoke_body tool.mig_capability arguments) codec.decode_payload
  ok (
      fields (
        (
          "content",
          array (
              cons
                (fields
                  (("type", text "text") ∷ ("text", text (codec.encode_payload payload)) ∷ []))
                nil),
        )
        ∷ ("isError", boolean false)
        ∷ []))

-- `handleToolsCall`
unfoldable pub handle_tools_call : Backend → Codec → Adapter → String → Result RpcError Value
handle_tools_call backend codec a params = elim (codec.decode_params params) [
  | none ↦ err (rpc_error 32602 "invalid params" none)
  | some (name, arguments) ↦ elim (capability_for_tool a.manifest name) [
    | none ↦ err (rpc_error 32601 "tool not mapped" none)
    | some tool ↦ call_tool backend codec a tool arguments
  ]
]

-- `rpcRequest`, without the version that nothing reads.
pub record RpcRequest : Type 0 where
  pub id : Value
  pub method : String
  pub params : String

-- `rpcResponse`, whose version is always "2.0".
pub record RpcResponse : Type 0 where
  pub id : Value
  pub result : Result RpcError Value

-- The `switch` of `ServeHTTP`.
unfoldable pub run_rpc : Backend → Codec → Adapter → RpcRequest → Result RpcError Value
run_rpc backend codec a req =
    if req.method == "initialize"
    then handle_initialize backend codec a
    else if req.method == "tools/list"
    then handle_tools_list backend codec a
    else if req.method == "tools/call"
    then handle_tools_call backend codec a req.params
    else err (rpc_error 32601 "method not found" none)

-- `ServeHTTP`: the status and the response, for a method and a body as it decodes.
unfoldable pub serve_http : Backend → Codec → Adapter → String → Option RpcRequest → ℕ × RpcResponse
serve_http backend codec a method body =
    if method == "POST"
    then (elim body [
      | none ↦ (400, record { id = null; result = err (rpc_error 32700 "parse error" none) })
      | some req ↦ (200, record { id = req.id; result = run_rpc backend codec a req })
    ])
    else (405, record { id = null; result = err (rpc_error 32600 "POST required" none) })
