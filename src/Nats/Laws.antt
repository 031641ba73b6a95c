-- ===== src/Nats/Laws.antt =====
-- What becomes of an event that the gateway publishes on NATS, when its own subscription delivers it.
use model_interface_gateway.Base.{
  String, ◌≡◌, ◌≢◌, refl, ap, ◌∙◌, true, none, some, ok, arith, eq_iff, eq-false_of_ne,
}
use model_interface_gateway.Text.Laws.{Lacks}
use model_interface_gateway.Types.{MessageHeader, PublishRequest, PublishAck, EventMessage, Env}
use model_interface_gateway.Header.{or_default, caller_header, add_idg_meta, open_header}
use model_interface_gateway.Header.Laws.{IsNormal, normalize_of_IsNormal}
use model_interface_gateway.Service.{Service, Outcome}
use model_interface_gateway.Http.{Content, publish_content}
use model_interface_gateway.Service.Events.{
  sanitize_nats_segment, event_subject, topic_error, new_event, append_event, publish_to, publish,
}
use model_interface_gateway.Nats.{Msg, respond, content, with_subject_tenant, handle, publish_named}

-- An event decoded as a request to publish: it keeps the fields that the two have in common, and
-- encoding/json ignores the others.
abbrev pub own_request : EventMessage → PublishRequest
own_request event = record {
  header = event.header;
  topic = event.topic;
  key = "";
  payload = event.payload;
}

-- The event as `publishEventToNATS` sends it: without a reply subject.
abbrev pub own_message : EventMessage → Msg PublishRequest
own_message event = record {
  subject = event_subject event;
  reply = "";
  decoded = some (own_request event);
}

-- The event that is published for it.
abbrev pub echo : Env → EventMessage → Service → EventMessage
echo env event s =
    new_event env (add_idg_meta "core" event.header) event.topic (own_request event) s

-- The header and the topic of an event are accepted, as those of every published event are, and the
-- tenant has no dot left in the subject.
pub record IsRepublished (event : EventMessage) : Type 0 where
  pub header : IsNormal event.header
  pub topic : topic_error event.topic ≡ none
  pub tenant : Lacks 46 (sanitize_nats_segment event.header.tenant_id)

topic-named : (topic : String) → topic_error topic ≡ none → topic ≢ ""
unfolding topic_error
topic-named topic h = ground (arith, eq_iff topic "")

opens_again :
    (env : Env) (head : MessageHeader)
    → IsNormal head
    → open_header env head ≡ ok (add_idg_meta "core" head)
unfolding open_header
opens_again env head n = rw (normalize_of_IsNormal env head n) refl

subject_tenant-kept :
    (subject : String) (head : MessageHeader)
    → head.tenant_id ≢ ""
    → with_subject_tenant subject head ≡ head
subject_tenant-kept subject head named = rw (eq-false_of_ne head.tenant_id "" named) refl

default-kept : (value fallback : String) → value ≢ "" → or_default value fallback ≡ value
default-kept value fallback named = rw (eq-false_of_ne value "" named) refl

-- The acknowledgement of an event.
abbrev ack_of : EventMessage → PublishAck
ack_of event = record {
  header = event.header;
  topic = event.topic;
  event_id = event.event_id;
  sequence = event.sequence;
  accepted = true;
}

publish-opened :
    (env : Env) (topic : String) (req : PublishRequest) (s : Service)
    → IsNormal req.header
    → publish env topic req s
      ≡ publish_to env (add_idg_meta "core" req.header) (or_default topic req.topic) req s
unfolding publish
publish-opened env topic req s n = rw (opens_again env req.header n, publish) refl

publish_to-known :
    (env : Env) (head : MessageHeader) (topic : String) (req : PublishRequest) (s : Service)
    → topic_error topic ≡ none
    → publish_to env head topic req s ≡ (
      append_event (new_event env head topic req s) s,
      ok (ack_of (new_event env head topic req s)),
    )
unfolding publish_to
publish_to-known env head topic req s known = rw (known, publish_to) refl

publish-accepted :
    (env : Env) (req : PublishRequest) (s : Service)
    → IsNormal req.header
    → topic_error req.topic ≡ none
    → publish env req.topic req s ≡ (
      append_event (new_event env (add_idg_meta "core" req.header) req.topic req s) s,
      ok (ack_of (new_event env (add_idg_meta "core" req.header) req.topic req s)),
    )
publish-accepted env req s n known =
    publish-opened env req.topic req s n
    ∙ ap (λ (t : String). publish_to env (add_idg_meta "core" req.header) t req s)
        (default-kept req.topic req.topic (topic-named req.topic known))
    ∙ publish_to-known env (add_idg_meta "core" req.header) req.topic req s known

handle-ok :
    {A B : Type 0} (env : Env) (complaint : String) (encode : B → Content)
    (header_of : A → MessageHeader) (back : MessageHeader → MessageHeader)
    (operation : A → MessageHeader → Service → Outcome B) (msg : Msg A) (s s' : Service) (req : A)
    (b : B)
    → msg.decoded ≡ some req
    → operation req (with_subject_tenant msg.subject (header_of req)) s ≡ (s', ok b)
    → handle env complaint encode header_of back operation msg s
      ≡ (s', respond msg.reply (content (encode b)))
unfolding handle
handle-ok {B = B} env complaint encode header_of back operation msg s s' req b decoded ran =
    rw (decoded, handle, ran)
      (ap (λ (o : Outcome B). (o.0, respond msg.reply (content (encode b)))) ran)

pub publish-echo :
    (env : Env) (event : EventMessage) (s : Service) (name : String)
    → IsRepublished event
    → publish_named env name (own_message event) s ≡ (append_event (echo env event s) s, none)
unfolding publish_named
publish-echo env event s name h =
    let req = own_request event in
    handle-ok env _ publish_content _ (caller_header env) _ (own_message event) s
      (append_event (echo env event s) s) req (ack_of (echo env event s)) refl
      (ap
          (λ (head : MessageHeader).
            publish env (or_default event.topic name)
              (record req { header = head; topic = or_default event.topic name }) s)
          (subject_tenant-kept (event_subject event) event.header h.header.tenant)
        ∙ ap (λ (t : String). publish env t (record req { topic = t }) s)
            (default-kept event.topic name (topic-named event.topic h.topic))
        ∙ publish-accepted env req s h.header h.topic)
