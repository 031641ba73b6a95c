-- ===== src/Tests/Views.antt =====
-- What discovery and the view of the connections show.
use model_interface_gateway.Base.{◌≡◌, refl, true, none, some, ok, ◌==◌, if◌then◌else◌}
use model_interface_gateway.Base.GoMap.{lookup, values}
use model_interface_gateway.Base.Sort.{sort_by}
use model_interface_gateway.Types.{DiscoverRequest, DiscoverResponse, ConnectionSnapshot}
use model_interface_gateway.Header.{normalize, add_idg_meta, open_header}
use model_interface_gateway.Service.{Service}
use model_interface_gateway.Service.Protocol.{discover, shown, by_id}
use model_interface_gateway.Service.Protocol.Laws.{IsDiscovered, discover-IsDiscovered}
use model_interface_gateway.Service.Connections.{
  ConnectionFilters, register_connection, unregister, completed, connections,
}
use model_interface_gateway.Service.Connections.Laws.{
  register-unregister, IsView, connections-IsView,
}
use model_interface_gateway.Tests.{env, sent, opened, member, gateway}

abbrev query : DiscoverRequest
query = record {
  header = sent "m-1" "acme" "";
  query = "infer";
  include_schema_refs = true;
  include_qos = true;
}

abbrev found : DiscoverResponse
found = record {
  header = opened "m-1" "acme" "";
  capabilities = sort_by by_id (shown "infer" member (values gateway.capabilities));
}

discovers : discover env query member gateway ≡ (gateway, ok found)
unfolding discover open_header normalize add_idg_meta
discovers = refl

discover-IsDiscovered_example : IsDiscovered query member gateway gateway found
discover-IsDiscovered_example =
    discover-IsDiscovered env query member gateway gateway found discovers

abbrev connection : ConnectionSnapshot
connection = record {
  id = "c-1";
  protocol = "ws";
  kind = "stream";
  tenant_id = "acme";
  actor = "ann";
  remote_addr = "";
  started_at = "";
  meta = none;
}

register-unregister_example :
    (lookup "c-1" (register_connection env connection gateway).0.connections ≡ (
      if (register_connection env connection gateway).1 == "c-1"
      then some (completed env connection)
      else lookup "c-1" gateway.connections))
    × (lookup "c-1"
          (unregister
            (register_connection env connection gateway).1
            (register_connection env connection gateway).0).connections
        ≡ (if (register_connection env connection gateway).1 == "c-1"
            then none
            else lookup "c-1" gateway.connections))
register-unregister_example = register-unregister env connection gateway "c-1"

abbrev any_connection : ConnectionFilters
any_connection = record { tenant_id = ""; kind = ""; protocol = "ws" }

abbrev connected : Service
connected = (register_connection env connection gateway).0

connections-IsView_example :
    IsView any_connection connected (connections env any_connection connected)
connections-IsView_example = connections-IsView env any_connection connected
