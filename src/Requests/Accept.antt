-- ===== src/Requests/Accept.antt =====
-- `createAcceptedPublEventRequest` of apps/api/src/message-requests/message-requests.service.ts, with
-- its helpers: a request for an event is checked, stored and put in the queue, once for each
-- idempotency key. What the other tables hold and what the upsert of the default template returns
-- are given.
use noti.Common.{
  ℕ, Bool, true, false, not, ◌||◌, List, [], Option, none, some, if◌then◌else◌, is_empty, leb,
  Outcome, ok, err, ◌>>=◌, ◌>>◌, require, keep, map,
}
use noti.Text.{Text, units, text_eq, trim}
use noti.Json.{Json, array, truthy, item_list}
use noti.Template.{Value, Variables, extract_required_variables, missing_required_variables}
use noti.Worker.{MessageChannel, MessageRequestStatus}
use noti.Requests.{
  AlimtalkTemplateBindingMode, default_binding, custom_binding, ProviderTemplateStatus, apr,
  AlimtalkSenderProfile, is_active,
}
use noti.Requests.Rows.{Row, Requests, find_by_key, add_row, enqueue}

-- a provider template with its template
pub record PublTemplate : Type 0 where
  pub id : Text
  pub provider_status : ProviderTemplateStatus
  pub template_id : Text
  pub body : Text
  pub required_variables : Json

pub record PublRule : Type 0 where
  pub alimtalk_template_binding_mode : AlimtalkTemplateBindingMode
  pub alimtalk_template : Option PublTemplate
  pub alimtalk_sender_profile : Option AlimtalkSenderProfile

-- An error of the upsert: a conflict with a code, or any other.
pub data UpsertError : Type 0 where
  conflict : (code : Text) (message : Option Text) → UpsertError
  other_error : UpsertError

-- What the other tables hold: the owner's rule for the event, the owner's first active sender
-- profile, and the default provider template that the upsert leaves.
pub record Found : Type 0 where
  pub rule : Option PublRule
  pub first_active_profile : Option AlimtalkSenderProfile
  pub upserted : Outcome UpsertError PublTemplate

pub record Input : Type 0 where
  pub owner_user_id : Text
  pub event_key : Text
  pub recipient_phone : Text
  pub recipient_user_id : Option Text
  pub variables : Variables
  pub metadata : Json
  pub scheduled_at : Option Text
  pub retry_of_request_id : Option Text

pub record Failure : Type 0 where
  pub code : Text
  pub message : Text

pub data CreateError : Type 0 where
  schedule_not_a_date schedule_not_in_future : CreateError
  missing_variables : List Text → CreateError
  upsert_failed : UpsertError → CreateError

abbrev pub not_approved : Failure
not_approved = record {
  code = units "ALIMTALK_TEMPLATE_NOT_APPROVED";
  message = units "승인된 알림톡 템플릿이 아니라 발송할 수 없습니다.";
}

abbrev pub no_profile : Failure
no_profile = record {
  code = units "KAKAO_SENDER_PROFILE_REQUIRED";
  message = units "카카오 채널이 연결되지 않아 발송하지 못했습니다.";
}

unfoldable pub map_publ_default_template_failure : UpsertError → Option Failure
unfolding text_eq
map_publ_default_template_failure other_error = none
map_publ_default_template_failure (conflict code message) =
    if text_eq code (units "PUBL_EVENT_DEFAULT_TEMPLATE_REQUIRED")
      || text_eq code (units "PUBL_EVENT_DEFAULT_TEMPLATE_NOT_APPROVED")
    then some (record {
      code = code;
      message = elim message [ none ↦ units "기본 템플릿 설정 때문에 발송하지 못했습니다." | some t ↦ t ];
    })
    else none

-- the preferred profile if it is active, or else the owner's first active one
unfoldable pub resolve_publ_alimtalk_sender_profile :
    Option AlimtalkSenderProfile → Option AlimtalkSenderProfile → Option AlimtalkSenderProfile
resolve_publ_alimtalk_sender_profile preferred first =
    if is_active preferred then preferred else first

abbrev pub preferred_profile : Option PublRule → Option AlimtalkSenderProfile
preferred_profile none = none
preferred_profile (some rule) = rule.alimtalk_sender_profile

-- the rule's own template, where its binding is custom and it has one
abbrev pub custom_template : Option PublRule → Option PublTemplate
custom_template none = none
custom_template (some rule) = elim rule.alimtalk_template_binding_mode [
  | custom_binding ↦ rule.alimtalk_template
  | default_binding ↦ none
]

-- the template, or the failure that is recorded in its place
unfoldable pub choose_template : Found → Outcome CreateError (Option PublTemplate × Option Failure)
unfolding map_publ_default_template_failure
choose_template f = elim (custom_template f.rule) [
  | some t ↦ ok (some t, none)
  | none ↦ elim f.upserted [
    | ok t ↦ ok (some t, none)
    | err e ↦ elim (map_publ_default_template_failure e) [
      | some failure ↦ ok (none, some failure)
      | none ↦ err (upsert_failed e)
    ]
  ]
]

abbrev pub is_apr : Option PublTemplate → Bool
is_apr none = false
is_apr (some t) = elim t.provider_status [ apr ↦ true | _ ↦ false ]

-- the failure of the template, or of its status, or of the profile
unfoldable pub failure_of :
    Option Failure → Option PublTemplate → Option AlimtalkSenderProfile → Option Failure
failure_of (some failure) t p = some failure
failure_of none t p =
    if not (is_apr t) then some not_approved else elim p [ none ↦ some no_profile | some q ↦ none ]

abbrev pub status_for : Option Failure → MessageRequestStatus
status_for none = MessageRequestStatus.accepted
status_for (some failure) = MessageRequestStatus.send_failed

-- the row that is created
unfoldable pub row_of :
    Input
    → (idempotency_key new_id : Text) (scheduled_at : Option ℕ) → Option PublTemplate
    → Option AlimtalkSenderProfile
    → Option Failure
    → Row
row_of input key new_id scheduled_at t p failure = record {
  id = new_id;
  owner_user_id = input.owner_user_id;
  event_key = input.event_key;
  idempotency_key = key;
  recipient_phone = input.recipient_phone;
  recipient_user_id = input.recipient_user_id;
  variables = input.variables;
  metadata = input.metadata;
  manual_body = none;
  scheduled_at = scheduled_at;
  status = status_for failure;
  resolved_channel = some MessageChannel.alimtalk;
  resolved_sender_number_id = none;
  resolved_sender_profile_id = elim p [ none ↦ none | some q ↦ some q.id ];
  resolved_template_id = elim t [ none ↦ none | some q ↦ some q.template_id ];
  resolved_provider_template_id = elim t [ none ↦ none | some q ↦ some q.id ];
  last_error_code = elim failure [ none ↦ none | some f ↦ some f.code ];
  last_error_message = elim failure [ none ↦ none | some f ↦ some f.message ];
  retry_of_request_id = input.retry_of_request_id;
}

-- the row is stored, and put in the queue if there is no failure
unfoldable pub store_row : Row → Option Failure → Requests → Requests
unfolding add_row enqueue
store_row r none s = enqueue r.id (add_row r s)
store_row r (some failure) s = add_row r s

-- `parse_date` is `new Date(value).getTime()`, where it is a number; `text_of` is `String(value)`.
module _ (parse_date : Text → Option ℕ) (text_of : Json → Text) (inherited : Text → Option Value)
    (now : ℕ) where
  unfoldable pub normalize_scheduled_at : Option Text → Outcome CreateError (Option ℕ)
  normalize_scheduled_at none = ok none
  normalize_scheduled_at (some value) =
      if is_empty value then ok none else elim (parse_date value) [
        | none ↦ err schedule_not_a_date
        | some t ↦ if leb t now then err schedule_not_in_future else ok (some t)
      ]

  -- the stored list, trimmed and without empty names, or else what the body asks for
  unfoldable pub stored_variables : Json → List Text
  unfolding truthy item_list trim
  stored_variables (array items) =
      keep (λ k. not (is_empty k))
        (map (λ v. trim (if truthy v then text_of v else [])) (item_list items))
  stored_variables _ = []

  unfoldable pub get_template_required_variables : PublTemplate → List Text
  get_template_required_variables t =
      if is_empty (stored_variables t.required_variables)
      then extract_required_variables t.body
      else stored_variables t.required_variables

  abbrev pub missing_of : Option PublTemplate → Variables → List Text
  missing_of none vs = []
  missing_of (some t) vs =
      missing_required_variables inherited (get_template_required_variables t) vs

  -- the part after the look for an existing request
  unfoldable pub create_new :
      Input
      → Found
      → Text
      → Text
      → Option ℕ
      → Requests
      → Outcome CreateError (Requests × Row × Bool)
  create_new input f key new_id scheduled_at s = do
    (t, failed) ← choose_template f
    let missing = missing_of t input.variables
    require (is_empty missing) (missing_variables missing)
    let p = resolve_publ_alimtalk_sender_profile (preferred_profile f.rule) f.first_active_profile
    let failure = failure_of failed t p
    let r = row_of input key new_id scheduled_at t p failure
    ok (store_row r failure s, r, false)

  -- The new state, the request, and whether it was there before. `new_id` is the id that the database
  -- gives a new row.
  unfoldable pub create_accepted_publ_event_request :
      Input → Found → Text → Text → Requests → Outcome CreateError (Requests × Row × Bool)
  unfolding normalize_scheduled_at
  create_accepted_publ_event_request input f key new_id s = do
    scheduled_at ← normalize_scheduled_at input.scheduled_at
    elim (find_by_key input.owner_user_id key s) [
      | some r ↦ ok (s, r, true)
      | none ↦ create_new input f key new_id scheduled_at s
    ]
