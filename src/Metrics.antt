-- ===== src/Metrics.antt =====
-- core/pkg/mig/metrics.go: what the gateway counts. The prometheus library is not modelled: its
-- counters are the calls that were made on them, oldest first.
use model_interface_gateway.Base.{ℕ, String, List, [], ◌∷◌, ◌++◌, ◌==◌, if◌then◌else◌}
use model_interface_gateway.Text.{has_prefix, decimal, decimal_from}
use model_interface_gateway.Types.{internal}

-- One call on a metric, with its labels.
pub data Call : Type 0 where
  request : (method path status : String) → Call
  error : (code operation : String) → Call
  stream_up : (kind : String) → Call
  stream_down : (kind : String) → Call

abbrev pub Metrics : Type 0
Metrics = List Call

-- `RecordError`
unfoldable pub record_error : String → String → Metrics → Metrics
record_error code operation m =
    m
    ++ error (if code == "" then internal else code)
        (if operation == "" then "unknown" else operation)
      ∷ []

-- `IncActiveStream`
unfoldable pub inc_active_stream : String → Metrics → Metrics
inc_active_stream kind m = m ++ stream_up kind ∷ []

-- `DecActiveStream`
unfoldable pub dec_active_stream : String → Metrics → Metrics
dec_active_stream kind m = m ++ stream_down kind ∷ []

-- `normalizeMetricPath`: the label of a path, one for all the names that may follow these prefixes.
unfoldable pub normalize_metric_path : String → String
unfolding has_prefix
normalize_metric_path path =
    if has_prefix path "/mig/v0.1/invoke/"
    then "/mig/v0.1/invoke/{capability}"
    else if has_prefix path "/mig/v0.1/publish/"
    then "/mig/v0.1/publish/{topic}"
    else if has_prefix path "/mig/v0.1/subscribe/"
    then "/mig/v0.1/subscribe/{topic}"
    else if has_prefix path "/mig/v0.1/cancel/"
    then "/mig/v0.1/cancel/{message_id}"
    else path

-- What `Middleware` counts of a request that was answered with the status. The histogram of the times
-- is not kept.
unfoldable pub count_request : (method path : String) → (status : ℕ) → Metrics → Metrics
unfolding normalize_metric_path decimal_from
count_request method path status m =
    m ++ request method (normalize_metric_path path) (decimal status) ∷ []
