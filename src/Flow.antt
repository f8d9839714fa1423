-- ===== src/Flow.antt =====
-- From the API to the worker: the row that `createAcceptedPublEventRequest` stores is the row that
-- `processMessage` of apps/worker/src/index.ts reads, with what the rows hold that it refers to.
mod Tests
use noti.Common.{
  ◌≡◌, ◌↔◌, refl, sym, true, false, ℕ, List, [], ◌∷◌, Option, none, some, arith, Outcome, ok, err,
  All, is_empty, if◌then◌else◌,
}
use noti.Text.{Text}
use noti.Json.{Json, as_string}
use noti.Template.{
  Value, Variables, scan, extract_required_variables, missing_required_variables, is_absent,
  render_template,
}
use noti.Template.Render.{Has, Has-missing, IsBlank, validated-render}
use noti.Worker.{WorkerError, Runtime, is_terminal, MessageRequestStatus, MessageChannel}
use noti.Worker.Provider.{Payload}
use noti.Worker.Row.{ProviderTemplate, MessageRequest, Store}
use noti.Worker.Compose.{is_template_approved, template_code_of, config_at}
use noti.Worker.Dispatch.{process_message}
use noti.Worker.Posting
use noti.Worker.Posting.{post_of, process_message-posts}
use noti.Requests.{AlimtalkSenderProfile}
use noti.Requests.Rows.{Row, Requests}
use noti.Requests.Accept.{PublTemplate, Found, Input, create_accepted_publ_event_request}
use noti.Requests.Backing.{IsBacked, required_by, create_accepted_publ_event_request-IsBacked}

-- The rows that a request refers to, by their ids: the template's body, the provider template, the
-- sender profile's key, and the sender number's phone.
pub record Joins : Type 0 where
  pub body_of : Text → Option Text
  pub provider_template_of : Text → Option ProviderTemplate
  pub sender_key_of : Text → Option Text

abbrev pub at : {A : Type 0} → (Text → Option A) → Option Text → Option A
at find none = none
at find (some id) = find id

-- `findUnique` of the request with its templates and sender profile; an event's request has no sender
-- number
unfoldable pub load : Joins → Row → MessageRequest
load j r = record {
  status = r.status;
  attempt_count = 0;
  resolved_channel = r.resolved_channel;
  recipient_phone = r.recipient_phone;
  manual_body = r.manual_body;
  metadata = r.metadata;
  variables = r.variables;
  scheduled_at = r.scheduled_at;
  resolved_template = at j.body_of r.resolved_template_id;
  resolved_sender_number = none;
  resolved_sender_profile = at j.sender_key_of r.resolved_sender_profile_id;
  resolved_provider_template = at j.provider_template_of r.resolved_provider_template_id;
  nhn_message_id = none;
  last_error_code = none;
  last_error_message = none;
}

-- The store of the worker for a new request.
abbrev pub fresh_store : MessageRequest → Store
fresh_store r = record { request = some r; attempts = []; dead_letters = []; posted = [] }

-- What the template and the profile of a request have beside the checks of the API, for the worker to
-- find: the rows are there, the template has a code, and its required variables are all that its body
-- asks for, with no blank placeholder.
pub record IsComplete (j : Joins) (required : PublTemplate → List Text) (t : PublTemplate)
    (p : AlimtalkSenderProfile) (codes : ProviderTemplate) (key template_code : Text) : Type 0 where
  pub body_there : j.body_of t.template_id ≡ some t.body
  pub provider_template_there : j.provider_template_of t.id ≡ some codes
  pub codes_approved : codes.is_approved ≡ true
  pub key_there : j.sender_key_of p.id ≡ some key
  pub key_filled : is_empty key ≡ false
  pub code_there : (codes.template_code ≡ some template_code) × (is_empty template_code ≡ false)
  pub requires_all : All (λ k. Has k (required t)) (extract_required_variables t.body)
  pub none_blank : All (λ q. ¬ IsBlank q) (scan t.body)

-- Where none of a list's variables is missing, none of those that are all in it is.
missing_none :
    (inherited : Text → Option Value) (vs : Variables) (required ks : List Text)
    → missing_required_variables inherited required vs ≡ []
    → All (λ k. Has k required) ks
    → missing_required_variables inherited ks vs ≡ []
unfolding missing_required_variables
missing_none inherited vs required [] h all_in = refl
missing_none inherited vs required (k ∷ ks) h (is_in, all_in) = ground (
  arith,
  Has-missing inherited vs k required h is_in,
  missing_none inherited vs required ks h all_in,
)

module _ (rt : Runtime) (required : PublTemplate → List Text) (input : Input) (f : Found) (r : Row)
    (t : PublTemplate) (p : AlimtalkSenderProfile) (j : Joins) (codes : ProviderTemplate)
    (key template_code : Text) (backed : IsBacked rt.inherited required input f r t p)
    (complete : IsComplete j required t p codes key template_code) where
  loaded_renders :
      (text : Text) × (render_template rt.inherited t.body (load j r).variables ≡ ok text)
  unfolding load
  loaded_renders =
      let none_missing =
        missing_none rt.inherited input.variables (required t) (extract_required_variables t.body)
          backed.none_missing complete.requires_all in
      let (text, e, _) =
        validated-render rt.inherited input.variables t.body none_missing complete.none_blank in
      (text, ground (arith, e, backed.variables))

  loaded-IsReady :
      r.status ≡ MessageRequestStatus.accepted
      → as_string (config_at (load j r) "smsFailover" "senderNo") ≡ none
      → rt.is_alimtalk_mock_mode ≡ false
      → Posting.IsReady rt (load j r) t.body key template_code
  unfolding load is_terminal is_template_approved template_code_of
  loaded-IsReady accepted no_failover configured = record {
    is_live = ground (arith, accepted);
    channel = backed.channel;
    no_manual_body = backed.no_manual_body;
    template = ground (arith, backed.template, complete.body_there);
    no_failover = no_failover;
    is_approved = ground (
      arith, backed.provider_template, complete.provider_template_there, complete.codes_approved,
    );
    is_configured = configured;
    sender = ground (arith, backed.sender, complete.key_there);
    key_filled = complete.key_filled;
    by_code =
        ground
          (arith, backed.provider_template, complete.provider_template_there, complete.code_there);
    code_filled = complete.code_there.1;
  }

module _ (parse_date : Text → Option ℕ) (now : ℕ) (rt : Runtime) where
  -- An event request that the API stored as ACCEPTED is posted by the first run of the worker, once, to
  -- the recipient and with the variables of the request, whatever the provider answers. The template and
  -- the profile that stand behind it must be complete, the metadata must set no failover SMS, and
  -- AlimTalk must be configured.
  pub accepted-posted :
      (input : Input) (f : Found) (key new_id : Text) (s s' : Requests) (r : Row) (j : Joins)
      (codes : ProviderTemplate) (sender_key template_code : Text)
      (provider : Payload → Outcome WorkerError Json)
      → create_accepted_publ_event_request parse_date rt.text_of rt.inherited now input f key new_id
          s
        ≡ ok (s', r, false)
      → r.status ≡ MessageRequestStatus.accepted
      → ((t : PublTemplate) (p : AlimtalkSenderProfile)
          → IsBacked rt.inherited (required_by parse_date rt.text_of rt.inherited now) input f r t p
          → IsComplete j
              (required_by parse_date rt.text_of rt.inherited now)
              t
              p
              codes
              sender_key
              template_code)
      → as_string (config_at (load j r) "smsFailover" "senderNo") ≡ none
      → rt.is_alimtalk_mock_mode ≡ false
      → (process_message rt provider (fresh_store (load j r))).0.posted
        ≡ post_of (load j r) sender_key template_code ∷ []
  accepted-posted input f key new_id s s' r j codes sender_key template_code provider h accepted
        complete no_failover configured =
      let (t, p, backed) =
        create_accepted_publ_event_request-IsBacked parse_date rt.text_of rt.inherited now input f
          key new_id s s' r h accepted in
      let required = required_by parse_date rt.text_of rt.inherited now in
      let full = complete t p backed in
      let (text, rendered) =
        loaded_renders rt required input f r t p j codes sender_key template_code backed full in
      let ready =
        loaded-IsReady rt required input f r t p j codes sender_key template_code backed full
          accepted no_failover configured in
      process_message-posts rt (load j r) t.body sender_key template_code text ready rendered
        provider (fresh_store (load j r)) refl
