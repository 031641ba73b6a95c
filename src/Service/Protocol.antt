-- ===== src/Service/Protocol.antt =====
-- service.go: `Hello`, `Discover`, `Cancel` and `Heartbeat`.
pub mod Laws
use model_interface_gateway.Base.{
  ℕ, String, Bool, true, false, not, ◌&&◌, ◌||◌, List, [], ◌∷◌, Option, none, some, Result, ok, err,
  ◌>>=◌, ◌==◌, if◌then◌else◌, length,
}
use model_interface_gateway.Base.Int.{ℤ, pos, is_le_zero}
use model_interface_gateway.Base.GoMap.{insert, values}
use model_interface_gateway.Base.Sort.{sort_by}
use model_interface_gateway.Text.{trim_space, to_lower, contains, str_lt}
use model_interface_gateway.Types.{
  MigError, mig_version, version_mismatch, HelloRequest, HelloResponse, DiscoverRequest,
  DiscoverResponse, CapabilityDescriptor, CancelRequest, CancelAck, HeartbeatRequest, HeartbeatAck,
  Env,
}
use model_interface_gateway.Header.{or_default, normalize, add_idg_meta, open_header}
use model_interface_gateway.Auth.{Principal, has_any_scope, refusal}
use model_interface_gateway.Service.{Service, Outcome, invalid, fail}

-- The loop of `Hello` over the versions.
unfoldable pub compatible : List String → Bool
unfolding trim_space
compatible [] = false
compatible (v ∷ versions) = trim_space v == mig_version || compatible versions

abbrev pub is_binding : String → Bool
is_binding b = b == "grpc" || (b == "nats" || b == "http")

-- The loop of `Hello` over the bindings: the first that is known.
unfoldable pub select_binding : List String → String
unfolding trim_space to_lower
select_binding [] = "http"
select_binding (b ∷ bindings) =
    let candidate = to_lower (trim_space b) in
    if is_binding candidate then candidate else select_binding bindings

-- No version stands for this one.
abbrev pub offered : List String → List String
offered [] = mig_version ∷ []
offered (v ∷ versions) = v ∷ versions

unfoldable pub hello : Env → HelloRequest → Service → Outcome HelloResponse
hello env req s = elim (normalize env req.header) [
  | err e ↦ (s, err (invalid e))
  | ok head ↦
      if compatible (offered req.supported_versions)
      then (
        s,
        ok (record {
          header = add_idg_meta "core" head;
          selected_version = mig_version;
          selected_binding = select_binding req.requested_bindings;
          enabled_features = req.requested_features;
          server_id = s.server_id;
        }),
      )
      else (s, err (refusal version_mismatch "no compatible MIG version"))
]

-- What `Discover` shows of one capability.
unfoldable pub is_shown : String → Principal → CapabilityDescriptor → Bool
is_shown query principal c =
    (query == "" || contains c.id query) && has_any_scope principal c.auth_scopes

-- The loop of `Discover` over the capabilities.
unfoldable pub shown : String → Principal → List CapabilityDescriptor → List CapabilityDescriptor
shown query principal [] = []
shown query principal (c ∷ cs) =
    let rest = shown query principal cs in if is_shown query principal c then c ∷ rest else rest

-- The order in which capabilities are listed.
abbrev pub by_id : CapabilityDescriptor → CapabilityDescriptor → Bool
by_id a b = str_lt a.id b.id

unfoldable pub discover : Env → DiscoverRequest → Principal → Service → Outcome DiscoverResponse
discover env req principal s = elim (open_header env req.header) [
  | err e ↦ fail "discover" (invalid e) s
  | ok head ↦ (
    s,
    ok (record {
      header = head;
      capabilities = sort_by by_id (shown req.query principal (values s.capabilities));
    }),
  )
]

unfoldable pub cancel : Env → CancelRequest → String → Service → Outcome CancelAck
cancel env req message_id s = elim (open_header env req.header) [
  | err e ↦ fail "cancel" (invalid e) s
  | ok head ↦
      let target = or_default message_id req.target_message_id in
      if target == "" then fail "cancel" (invalid "target message id is required") s else (
        record s { cancelled = insert target req.reason s.cancelled },
        ok (record {
          header = head;
          target_message_id = target;
          accepted = true;
          status = "cancelled";
        }),
      )
]

unfoldable pub heartbeat : Env → HeartbeatRequest → Service → Outcome HeartbeatAck
heartbeat env req s = elim (open_header env req.header) [
  | err e ↦ fail "heartbeat" (invalid e) s
  | ok head ↦ (
    s,
    ok (record {
      header = head;
      suggested_interval_ms = if is_le_zero req.interval_ms then pos 5000 else req.interval_ms;
      load_factor_thousandths = length s.audit;
    }),
  )
]
