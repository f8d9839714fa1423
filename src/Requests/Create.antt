-- ===== src/Requests/Create.antt =====
-- `create` of apps/api/src/message-requests/message-requests.service.ts: a request by the owner's rule
-- for an event, with its entry of the SMS ledger. The default template of the event, which the
-- provider has, and the result of its upsert are given.
use noti.Common.{
  ℕ, Bool, true, false, ◌&&◌, List, [], ◌∷◌, Option, none, some, is_empty, find?, Outcome, ok, err,
  ◌>>=◌, ◌>>◌, require,
}
use noti.Text.{Text, text_eq}
use noti.Json.{Json}
use noti.Template.{Value, Variables, missing_required_variables}
use noti.Quota.{Db, QuotaError, reserve_manual}
use noti.Worker.{MessageChannel, MessageRequestStatus}
use noti.Requests.{
  ChannelStrategy, Rule, Conflict, AlimtalkTemplate, ResolutionResult, sms, alimtalk, is_default,
  resolve_channel,
}
use noti.Requests.Rows.{Row, Requests, find_by_key, add_row, enqueue}
use noti.Requests.Accept.{CreateError, missing_variables, normalize_scheduled_at}

-- A row of `eventRule`, with the rows that it refers to.
pub record EventRule : Type 0 where
  pub owner_user_id : Text
  pub event_key : Text
  pub enabled : Bool
  pub channel_strategy : ChannelStrategy
  pub required_variables : Option (List Text)
  pub bindings : Rule

pub record CreateMessageRequestDto : Type 0 where
  pub owner_user_id : Text
  pub event_key : Text
  pub recipient_phone : Text
  pub recipient_user_id : Option Text
  pub variables : Variables
  pub metadata : Json
  pub scheduled_at : Option Text

pub data RequestError : Type 0 where
  rule_not_found : RequestError
  not_accepted : CreateError → RequestError
  no_channel : Conflict → RequestError
  no_quota : QuotaError → RequestError

-- The requests and the ledger.
pub record RequestDb : Type 0 where
  pub requests : Requests
  pub ledger : Db

unfoldable pub find_rule : Text → Text → List EventRule → Option EventRule
unfolding text_eq
find_rule owner key rules =
    find? (λ r. text_eq r.owner_user_id owner && text_eq r.event_key key) rules

abbrev pub enabled_rule : Option EventRule → Outcome RequestError EventRule
enabled_rule none = err rule_not_found
enabled_rule (some r) = elim r.enabled [ true ↦ ok r | false ↦ err rule_not_found ]

abbrev pub list_or_empty : Option (List Text) → List Text
list_or_empty none = []
list_or_empty (some ks) = ks

-- The default template's variables, or the rule's. `snapshot` is what `getDefaultTemplateSnapshot`
-- gives or throws.
unfoldable pub resolve_required_variables :
    EventRule → Outcome Conflict (List Text) → Outcome RequestError (List Text)
resolve_required_variables rule snapshot =
    elim (is_default rule.bindings.alimtalk_template_binding_mode) [
      | true ↦ elim snapshot [ ok ks ↦ ok ks | err e ↦ err (no_channel e) ]
      | false ↦ ok (list_or_empty rule.required_variables)
    ]

-- the row that is created
unfoldable pub created_row :
    CreateMessageRequestDto
    → EventRule
    → (idempotency_key new_id : Text) (scheduled_at : Option ℕ) → ResolutionResult
    → Row
created_row dto rule key new_id scheduled_at resolution = record {
  id = new_id;
  owner_user_id = rule.owner_user_id;
  event_key = dto.event_key;
  idempotency_key = key;
  recipient_phone = dto.recipient_phone;
  recipient_user_id = dto.recipient_user_id;
  variables = dto.variables;
  metadata = dto.metadata;
  manual_body = none;
  scheduled_at = scheduled_at;
  status = MessageRequestStatus.accepted;
  resolved_channel = elim resolution [
    | sms n t ↦ some MessageChannel.sms
    | alimtalk p t q ↦ some MessageChannel.alimtalk
  ];
  resolved_sender_number_id = elim resolution [ sms n t ↦ some n | alimtalk p t q ↦ none ];
  resolved_sender_profile_id = elim resolution [ sms n t ↦ none | alimtalk p t q ↦ some p ];
  resolved_template_id = elim resolution [ sms n t ↦ some t | alimtalk p t q ↦ some t ];
  resolved_provider_template_id = elim resolution [ sms n t ↦ none | alimtalk p t q ↦ some q ];
  last_error_code = none;
  last_error_message = none;
  retry_of_request_id = none;
}

-- `kst_parts` and `utc` are the calendar of the quota.
module _ (kst_parts : ℕ → ℕ × ℕ) (utc : ℕ → ℕ → ℕ) (parse_date : Text → Option ℕ)
    (text_of : Json → Text) (inherited : Text → Option Value) (now : ℕ) where
  -- The ledger's part of the transaction: an SMS takes one of the month's quota.
  unfoldable pub reserve_for :
      ResolutionResult
      → (owner : Text) (scheduled_at : Option ℕ) (id : Text) → Db
      → Outcome QuotaError Db
  unfolding reserve_manual
  reserve_for (alimtalk p t q) owner scheduled_at id db = ok db
  reserve_for (sms n t) owner scheduled_at id db =
      reserve_manual kst_parts utc db owner (some n)
        (elim scheduled_at [ none ↦ now | some at ↦ at ]) (id ∷ [])

  -- The transaction, and the job.
  unfoldable pub store_created : Row → ResolutionResult → RequestDb → Outcome RequestError RequestDb
  unfolding reserve_for add_row enqueue
  store_created r resolution s =
      elim (reserve_for resolution r.owner_user_id r.scheduled_at r.id s.ledger) [
        | err e ↦ err (no_quota e)
        | ok ledger ↦
            ok (record { requests = enqueue r.id (add_row r s.requests); ledger = ledger })
      ]

  abbrev pub channel_or_error :
      EventRule → Outcome Conflict AlimtalkTemplate → Outcome RequestError ResolutionResult
  channel_or_error rule upserted =
      elim (resolve_channel rule.channel_strategy rule.bindings upserted) [
        | ok r ↦ ok r
        | err e ↦ err (no_channel e)
      ]

  -- The part after the look for an existing request.
  unfoldable pub create_by_rule :
      CreateMessageRequestDto
      → List EventRule
      → Outcome Conflict (List Text)
      → Outcome Conflict AlimtalkTemplate
      → (key new_id : Text) → Option ℕ
      → RequestDb
      → Outcome RequestError (RequestDb × Row × Bool)
  unfolding find_rule resolve_required_variables missing_required_variables resolve_channel
      created_row store_created
  create_by_rule dto rules snapshot upserted key new_id scheduled_at s = do
    rule ← enabled_rule (find_rule dto.owner_user_id dto.event_key rules)
    required ← resolve_required_variables rule snapshot
    let missing = missing_required_variables inherited required dto.variables
    require (is_empty missing) (not_accepted (missing_variables missing))
    resolution ← channel_or_error rule upserted
    let r = created_row dto rule key new_id scheduled_at resolution
    s' ← store_created r resolution s
    ok (s', r, false)

  abbrev pub schedule_or_error : Option Text → Outcome RequestError (Option ℕ)
  schedule_or_error scheduled_at =
      elim (normalize_scheduled_at parse_date text_of inherited now scheduled_at) [
        | ok at ↦ ok at
        | err e ↦ err (not_accepted e)
      ]

  -- The new state, the request, and whether it was there before.
  unfoldable pub create :
      CreateMessageRequestDto
      → List EventRule
      → Outcome Conflict (List Text)
      → Outcome Conflict AlimtalkTemplate
      → (key new_id : Text) → RequestDb
      → Outcome RequestError (RequestDb × Row × Bool)
  unfolding normalize_scheduled_at find_by_key
  create dto rules snapshot upserted key new_id s = do
    scheduled_at ← schedule_or_error dto.scheduled_at
    elim (find_by_key dto.owner_user_id key s.requests) [
      | some r ↦ ok (s, r, true)
      | none ↦ create_by_rule dto rules snapshot upserted key new_id scheduled_at s
    ]
