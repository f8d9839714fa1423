-- ===== src/Delivery/Message.antt =====
-- `resolveMessageRequest` and its helpers in
-- apps/api/src/provider-results/provider-results.service.ts: what is shown of a single message. The
-- provider's lookup is a parameter.
use noti.Common.{
  ℕ, Bool, true, false, List, [], ◌∷◌, Option, none, some, if◌then◌else◌, is_empty, Outcome, ok,
  err,
}
use noti.Text.{Text, units}
use noti.Json.{Json, at_key, as_object, is_text}
use noti.Worker.{MessageChannel, MessageRequestStatus}
use noti.Delivery.{
  ResolvedStatus, waiting, in_progress, lookup_failed, Lookup, is_future, is_failure_status,
  map_lookup_to_status,
}

pub record Request : Type 0 where
  pub status : MessageRequestStatus
  pub nhn_message_id : Option Text
  pub resolved_channel : Option MessageChannel
  pub metadata : Json
  pub scheduled_at : Option ℕ
  pub last_error_code : Option Text
  pub last_error_message : Option Text
  pub updated_at : Text

pub record DeliveryResult : Type 0 where
  pub provider_status : Text
  pub provider_code : Option Text
  pub provider_message : Option Text
  pub created_at : Text

pub record ResolvedMessage : Type 0 where
  pub status : ResolvedStatus
  pub last_error_code : Option Text
  pub last_error_message : Option Text
  pub latest_delivery_result : Option DeliveryResult
  pub delivery_results : List DeliveryResult

-- the lookup that is asked for, by the message id
pub data LookupQuery : Type 0 where
  alimtalk_query brand_message_query : Text → LookupQuery
  sms_query : Text → (is_mms : Bool) → LookupQuery

unfoldable pub normalize_known_status : MessageRequestStatus → ResolvedStatus
normalize_known_status MessageRequestStatus.sent_to_provider = ResolvedStatus.sent_to_provider
normalize_known_status MessageRequestStatus.delivered = ResolvedStatus.delivered
normalize_known_status MessageRequestStatus.delivery_failed = ResolvedStatus.delivery_failed
normalize_known_status MessageRequestStatus.send_failed = ResolvedStatus.send_failed
normalize_known_status MessageRequestStatus.canceled = ResolvedStatus.canceled
normalize_known_status MessageRequestStatus.dead = ResolvedStatus.dead
normalize_known_status MessageRequestStatus.accepted = waiting
normalize_known_status MessageRequestStatus.processing = in_progress

abbrev pub is_begun : MessageRequestStatus → Bool
is_begun MessageRequestStatus.accepted = true
is_begun MessageRequestStatus.processing = true
is_begun _ = false

unfoldable pub normalize_local_message_status : MessageRequestStatus → Option ℕ → ℕ → ResolvedStatus
unfolding is_future normalize_known_status
normalize_local_message_status status scheduled_at now =
    if is_begun status
    then (if is_future scheduled_at now then waiting else in_progress)
    else normalize_known_status status

abbrev pub is_kept : MessageRequestStatus → Bool
is_kept MessageRequestStatus.delivered = true
is_kept MessageRequestStatus.delivery_failed = true
is_kept MessageRequestStatus.send_failed = true
is_kept MessageRequestStatus.dead = true
is_kept MessageRequestStatus.canceled = true
is_kept _ = false

unfoldable pub normalize_lookup_failure_status :
    MessageRequestStatus → Option ℕ → ℕ → ResolvedStatus
unfolding is_future normalize_known_status
normalize_lookup_failure_status status scheduled_at now =
    if is_kept status
    then normalize_known_status status
    else if is_future scheduled_at now
    then waiting
    else lookup_failed

-- `a || b`
abbrev pub text_or_else : Option Text → Text → Text
text_or_else none d = d
text_or_else (some t) d = if is_empty t then d else t

unfoldable pub to_delivery_result : Lookup → Text → DeliveryResult
to_delivery_result l fallback_date = record {
  provider_status = text_or_else l.provider_status (units "PENDING");
  provider_code = l.provider_code;
  provider_message = l.provider_message;
  created_at = text_or_else l.result_at (text_or_else l.requested_at fallback_date);
}

unfoldable pub lookup_query : MessageChannel → Text → Json → LookupQuery
unfolding as_object at_key is_text
lookup_query MessageChannel.alimtalk id metadata = alimtalk_query id
lookup_query MessageChannel.brand_message id metadata = brand_message_query id
lookup_query MessageChannel.sms id metadata =
    sms_query id (is_text (units "MMS") (at_key (units "smsMessageType") metadata))

-- what is shown of a failed lookup; an error that is not an `Error` has no message
unfoldable pub lookup_error : Option Text → Text → DeliveryResult
lookup_error message updated_at = record {
  provider_status = units "LOOKUP_ERROR";
  provider_code = some (units "NHN_LOOKUP_ERROR");
  provider_message = some (elim message [ none ↦ units "NHN 조회에 실패했습니다." | some t ↦ t ]);
  created_at = updated_at;
}

abbrev pub if_failure : ResolvedStatus → Option Text → Option Text
if_failure status t = if is_failure_status status then t else none

-- The message's query: it has one if it has a non-empty id and a channel.
abbrev pub query_of : Request → Option LookupQuery
query_of r = elim r.nhn_message_id [
  | none ↦ none
  | some id ↦ elim r.resolved_channel [
    | none ↦ none
    | some channel ↦ if is_empty id then none else some (lookup_query channel id r.metadata)
  ]
]

module _ (to_upper_case : Text → Text) (now : ℕ) where
  unfoldable pub shown_by_lookup : Request → Lookup → ResolvedMessage
  unfolding to_delivery_result
  shown_by_lookup r l =
      let status = map_lookup_to_status to_upper_case l r.scheduled_at now in
      let latest = to_delivery_result l r.updated_at in
      record {
        status = status;
        last_error_code = if_failure status latest.provider_code;
        last_error_message = if_failure status latest.provider_message;
        latest_delivery_result = some latest;
        delivery_results = latest ∷ [];
      }

  unfoldable pub resolve_message_request :
      Request → (LookupQuery → Outcome (Option Text) Lookup) → ResolvedMessage
  resolve_message_request r fetch = elim (query_of r) [
    | none ↦ record {
      status = normalize_local_message_status r.status r.scheduled_at now;
      last_error_code = r.last_error_code;
      last_error_message = r.last_error_message;
      latest_delivery_result = none;
      delivery_results = [];
    }
    | some q ↦ elim (fetch q) [
      | ok l ↦ shown_by_lookup r l
      | err message ↦
          let failed = lookup_error message r.updated_at in
          record {
            status = normalize_lookup_failure_status r.status r.scheduled_at now;
            last_error_code = r.last_error_code;
            last_error_message = r.last_error_message;
            latest_delivery_result = some failed;
            delivery_results = failed ∷ [];
          }
    ]
  ]
