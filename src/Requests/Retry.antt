-- ===== src/Requests/Retry.antt =====
-- `retryForUser` of apps/api/src/message-requests/message-requests.service.ts: a failed AlimTalk is
-- sent again as a new request that refers to the first of its kind.
use noti.Common.{
  ℕ, Bool, true, false, [], ◌∷◌, Option, none, some, if◌then◌else◌, find?, Outcome, ok, err, ◌>>=◌,
  ◌>>◌, require,
}
use noti.Text.{Text, units, text_eq}
use noti.Json.{Json, Fields, object, field, end, string}
use noti.Template.{Value, Variables}
use noti.Worker.{MessageChannel, alimtalk, MessageRequestStatus}
use noti.Requests.Rows.{Row, Requests, find_by_id, add_row, enqueue}
use noti.Requests.Accept.{Found, Input, CreateError, create_accepted_publ_event_request}

pub data RetryError : Type 0 where
  request_not_found not_failed not_alimtalk original_not_found already_retried event_inactive :
      RetryError
  create_failed : CreateError → RetryError

-- `RETRYABLE_MESSAGE_STATUSES`
unfoldable pub is_failed : MessageRequestStatus → Bool
is_failed MessageRequestStatus.send_failed = true
is_failed MessageRequestStatus.delivery_failed = true
is_failed MessageRequestStatus.dead = true
is_failed _ = false

abbrev pub is_alimtalk : Option MessageChannel → Bool
is_alimtalk (some alimtalk) = true
is_alimtalk _ = false

-- `retryOfRequestId ?? id`
abbrev pub root_of : Row → Text
root_of r = elim r.retry_of_request_id [ none ↦ r.id | some root ↦ root ]

unfoldable pub is_retry_of : Text → Row → Bool
unfolding text_eq
is_retry_of root r = elim r.retry_of_request_id [ none ↦ false | some id ↦ text_eq id root ]

-- the newest row of the relation `retryRequests`
unfoldable pub latest_retry : Text → Requests → Option Row
unfolding is_retry_of
latest_retry root s = find? (is_retry_of root) s.rows

-- `toPrimitiveRecord` on values that are texts or numbers, or missing
unfoldable pub to_primitive_record : Variables → Variables
to_primitive_record [] = []
to_primitive_record ((k, Value.null) ∷ vs) = to_primitive_record vs
to_primitive_record ((k, Value.undefined) ∷ vs) = to_primitive_record vs
to_primitive_record ((k, v) ∷ vs) = (k, v) ∷ to_primitive_record vs

abbrev pub fields_of : Json → Fields
fields_of (object fs) = fs
fields_of _ = end

-- `{ ...base, retryOfRequestId, retryRequestedAt }`; of two fields with one name the first counts
abbrev pub retry_metadata : Json → Text → Text → Json
retry_metadata base root requested_at = object (
    field (units "retryRequestedAt") (string requested_at)
      (field (units "retryOfRequestId") (string root) (fields_of base)))

-- the input for a request whose event is defined
abbrev pub retry_input : Text → Row → Text → Text → Input
retry_input owner r root requested_at = record {
  owner_user_id = owner;
  event_key = r.event_key;
  recipient_phone = r.recipient_phone;
  recipient_user_id = r.recipient_user_id;
  variables = to_primitive_record r.variables;
  metadata = retry_metadata r.metadata root requested_at;
  scheduled_at = none;
  retry_of_request_id = some root;
}

-- the copy of a request whose event is not defined
unfoldable pub retry_copy : Text → Row → Text → Text → Text → Text → Row
unfolding to_primitive_record
retry_copy owner r root requested_at key new_id = record {
  id = new_id;
  owner_user_id = owner;
  event_key = r.event_key;
  idempotency_key = key;
  recipient_phone = r.recipient_phone;
  recipient_user_id = r.recipient_user_id;
  variables = to_primitive_record r.variables;
  metadata = retry_metadata r.metadata root requested_at;
  manual_body = r.manual_body;
  scheduled_at = none;
  status = MessageRequestStatus.accepted;
  resolved_channel = r.resolved_channel;
  resolved_sender_number_id = none;
  resolved_sender_profile_id = r.resolved_sender_profile_id;
  resolved_template_id = r.resolved_template_id;
  resolved_provider_template_id = r.resolved_provider_template_id;
  last_error_code = none;
  last_error_message = none;
  retry_of_request_id = some root;
}

abbrev pub found_or : Option Row → RetryError → Outcome RetryError Row
found_or none e = err e
found_or (some r) e = ok r

-- no retry yet, or the latest one failed
abbrev pub may_retry : Option Row → Bool
may_retry none = true
may_retry (some r) = is_failed r.status

module _ (parse_date : Text → Option ℕ) (text_of : Json → Text) (inherited : Text → Option Value)
    (now : ℕ) where
  -- The last part: `definition` is the event's definition, where there is one, and says whether it is
  -- ACTIVE; `key` is the new idempotency key.
  unfoldable pub create_retry :
      Option Bool
      → Found
      → Text
      → Row
      → Text
      → (key requested_at new_id : Text) → Requests
      → Outcome RetryError (Requests × Row)
  create_retry none f owner r root key requested_at new_id s =
      let copy = retry_copy owner r root requested_at key new_id in
      ok (enqueue copy.id (add_row copy s), copy)
  create_retry (some is_active) f owner r root key requested_at new_id s = do
    require is_active event_inactive
    elim (create_accepted_publ_event_request parse_date text_of inherited now
        (retry_input owner r root requested_at) f key new_id s) [
          | err e ↦ err (create_failed e)
          | ok (s', created, again) ↦ ok (s', created)
        ]

  unfoldable pub retry_for_user :
      Option Bool
      → Found
      → (owner request_id key requested_at new_id : Text) → Requests
      → Outcome RetryError (Requests × Row)
  unfolding find_by_id
  retry_for_user definition f owner request_id key requested_at new_id s = do
    requested ← found_or (find_by_id owner request_id s) request_not_found
    require (is_failed requested.status) not_failed
    require (is_alimtalk requested.resolved_channel) not_alimtalk
    let root = root_of requested
    original ←
        if text_eq root requested.id
        then ok requested
        else found_or (find_by_id owner root s) original_not_found
    require (may_retry (latest_retry original.id s)) already_retried
    create_retry definition f owner requested root key requested_at new_id s
