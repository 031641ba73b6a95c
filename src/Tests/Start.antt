-- ===== src/Tests/Start.antt =====
-- A server that starts with no environment variables.
use model_interface_gateway.Base.{String, ◌≡◌, refl, none, some, List, [], ◌∷◌, ok}
use model_interface_gateway.Base.GoMap.{GoMap}
use model_interface_gateway.Text.{
  trim_space, trim_left, trim_right, is_space, lower_char, to_lower, of_code,
}
use model_interface_gateway.Types.{Value}
use model_interface_gateway.Config.{config_from_env, env_or_default, env_bool}
use model_interface_gateway.Service.{
  Service, new_service, set_metrics, bootstrap_defaults, new_service_with_options,
}
use model_interface_gateway.Service.History.{IsSound}
use model_interface_gateway.Http.Routes.{usage_call}
use model_interface_gateway.Gateway.{
  Outside, launch, with_nats, Request, over_http, over_nats, handle_all,
}
use model_interface_gateway.Gateway.Laws.{launched-IsSound}
use model_interface_gateway.Tests.{env}
use model_interface_gateway.Tests.Access.{one_token, no_variables, default_config}
use model_interface_gateway.Tests.Messages.{plain}
use model_interface_gateway.Tests.Http.{incoming}
use model_interface_gateway.Tests.Nats.{invocation, is_delivered}

abbrev all_well : Outside
all_well = record { connected = none; opened = none; refused = none }

abbrev started : Service
started = set_metrics (some []) new_service

launches : launch all_well no_variables ≡ ok (default_config, started)
unfolding launch config_from_env env_or_default env_bool trim_space to_lower trim_left trim_right
    is_space lower_char of_code with_nats new_service_with_options new_service set_metrics
    bootstrap_defaults
launches = refl

abbrev requests : List (Request (GoMap Value) String)
requests =
    over_http env (incoming "GET" "/cloud/v0.1/usage") usage_call ∷ over_nats env invocation ∷ []

launched-IsSound_example :
    (s' : Service) × (handle_all plain one_token default_config.auth requests started ≡ some s')
    × IsSound s'
launched-IsSound_example =
    launched-IsSound plain one_token all_well no_variables default_config started requests launches
      (tt, (is_delivered, tt))
