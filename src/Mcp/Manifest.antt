-- ===== src/Mcp/Manifest.antt =====
-- adapters/mcp/manifest.go: the manifest of the adapter and the look-up of a tool in it.
use Prim.Native.String
use model_interface_gateway.Base.{
  String, Bool, List, [], ◌∷◌, Option, none, some, Result, ok, err, ◌==◌, if◌then◌else◌,
}
use model_interface_gateway.Base.Int.{ℤ}
use model_interface_gateway.Header.{or_default}

pub record ToolMapping : Type 0 where
  pub mcp_name : String
  pub mig_capability : String
  pub mode : String
  pub timeout_ms : ℤ
  pub policy_tags : List String
  pub billing_tier : String

pub record ResourceMapping : Type 0 where
  pub mcp_uri_pattern : String
  pub mig_capability : String
  pub mode : String

pub record PromptMapping : Type 0 where
  pub mcp_name : String
  pub mig_capability : String
  pub mode : String

pub record MappingGroup : Type 0 where
  pub tools : List ToolMapping
  pub resources : List ResourceMapping
  pub prompts : List PromptMapping

pub record ManifestPolicy : Type 0 where
  pub allow_streaming_tools : Bool
  pub emit_event_notifications : Bool
  pub require_traceparent : Bool
  pub tenant_resolution : String

pub record ManifestBilling : Type 0 where
  pub meter : String
  pub usage_scope : String

pub record Manifest : Type 0 where
  pub version : String
  pub schema_version : String
  pub default_binding : String
  pub mappings : MappingGroup
  pub policy : ManifestPolicy
  pub billing : Option ManifestBilling

-- `LoadManifest`, on the content of the file or the error of reading it, and the YAML decoder.
unfoldable pub load_manifest :
    Result String String → (String → Result String Manifest) → Result String Manifest
load_manifest (err e) decode = err (String.◌++◌ "read manifest: " e)
load_manifest (ok content) decode = elim (decode content) [
  | err e ↦ err (String.◌++◌ "decode manifest: " e)
  | ok m ↦ ok (record m {
    version = or_default m.version "0.1";
    schema_version = or_default m.schema_version "0.1";
    default_binding = or_default m.default_binding "http";
  })
]

-- The loop of `CapabilityForTool`.
unfoldable pub tool_named : String → List ToolMapping → Option ToolMapping
tool_named name [] = none
tool_named name (tool ∷ tools) = if tool.mcp_name == name then some tool else tool_named name tools

abbrev pub capability_for_tool : Manifest → String → Option ToolMapping
capability_for_tool m name = tool_named name m.mappings.tools
