-- ===== src/Requests/Tests.antt =====
-- A rule and phones for the requests.
use noti.Common.{
  ◌≡◌, ◌≢◌, ◌⊎◌, ◌≤◌, ◌<◌, ◌*◌, ℕ, arith, refl, List, [], ◌∷◌, Option, none, some, Outcome, ok, err,
  All, length, true, false, map,
}
use noti.Text.{Text, units, trim, digits_only, text_eq}
use noti.Requests.{
  alimtalk_then_sms, TemplateStatus, SenderNumberStatus, AlimtalkTemplateBindingMode,
  AlimtalkTemplate, Rule, sms, Conflict, alimtalk_template_not_approved, upsert_failed,
  resolve_channel, raw_phones, resolve_manual_recipient_phones, distinct_phones,
  manual_message_recipient_limit, ready_sms, ready_alimtalk, by_strategy,
}
use noti.Template.{extract_required_variables, missing_required_variables, is_absent, get, own}
use noti.Worker.{MessageRequestStatus, is_terminal}
use noti.Requests.Rows.{Row, Requests, find_by_key, find_by_id}
use noti.Requests.Accept.{
  create_accepted_publ_event_request, create_new, choose_template, failure_of, row_of, store_row,
  resolve_publ_alimtalk_sender_profile, get_template_required_variables, stored_variables,
}
use noti.Requests.Once.{table_of, put, create_accepted_publ_event_request-refines}
use noti.Requests.Retry.{
  to_primitive_record, RetryError, retry_for_user, create_retry, latest_retry, is_failed,
}
use noti.Requests.Retries.{live_retries, progress}
use noti.Requests.Resending.{Reach, here, next, accepted, progressed, retried, live_retries-reached}
use noti.Json.{Json}
use noti.Template.{Value}
use noti.Worker.{MessageChannel}
use noti.Quota.{
  Db, message_request, ensure_user, used_in, get_kst_month_window, assert_can_reserve_usage,
  reserve_each,
}
use noti.Requests.Create.{EventRule, CreateMessageRequestDto, RequestDb, create, create_by_rule}
use noti.Requests.Created.{create-within}
use noti.Requests.Samples.{
  no_date, no_text, nothing_inherited, default_found, event_input, event_row, no_requests,
  one_request,
}
use noti.Requests.Channel.{IsReady, resolve_channel-IsReady}
use noti.Requests.Phones.{IsEntered, AreDistinct, IsKept, resolve_manual_recipient_phones_complete}

-- a rule with an approved SMS and no AlimTalk
abbrev sms_rule : Rule
sms_rule = record {
  sms_template = some (record { id = units "t1"; status = TemplateStatus.published });
  sms_sender_number = some (record { id = units "n1"; status = SenderNumberStatus.approved });
  alimtalk_template_binding_mode = AlimtalkTemplateBindingMode.custom_binding;
  alimtalk_template = none;
  alimtalk_sender_profile = none;
}

abbrev no_upsert : Outcome Conflict AlimtalkTemplate
no_upsert = err upsert_failed

differs : no_upsert ≢ err alimtalk_template_not_approved
differs e = cc

resolve_channel-IsReady_example : IsReady sms_rule no_upsert (sms (units "n1") (units "t1"))
unfolding resolve_channel ready_alimtalk ready_sms by_strategy
resolve_channel-IsReady_example =
    resolve_channel-IsReady alimtalk_then_sms sms_rule no_upsert (sms (units "n1") (units "t1"))
      refl

abbrev entered : Option (List Text)
entered = some (units "010-1234" ∷ units " 0101234 " ∷ units "none" ∷ units "02-1" ∷ [])

abbrev resolved : List Text
resolved = units "010-1234" ∷ units "02-1" ∷ []

resolve_manual_recipient_phones_complete_example :
    All (IsEntered (raw_phones none entered)) resolved
    × AreDistinct [] resolved
    × All (IsKept [] resolved) (raw_phones none entered)
    × (0 < length resolved)
    × (length resolved ≤ manual_message_recipient_limit)
unfolding resolve_manual_recipient_phones distinct_phones trim digits_only text_eq
resolve_manual_recipient_phones_complete_example =
    resolve_manual_recipient_phones_complete none entered resolved refl

is_created :
    create_accepted_publ_event_request no_date no_text nothing_inherited 0 event_input default_found
      (units "k")
      (units "m1")
      no_requests
    ≡ ok (one_request, event_row, false)
unfolding create_accepted_publ_event_request create_new choose_template failure_of row_of store_row
    resolve_publ_alimtalk_sender_profile find_by_key get_template_required_variables
    stored_variables extract_required_variables missing_required_variables is_absent get own text_eq
is_created = refl

create_accepted_publ_event_request-refines_example :
    (table_of one_request (units "u") (units "k") ≡ some event_row)
    × (((false ≡ true) × (one_request ≡ no_requests))
        ⊎ ((false ≡ false)
            × (table_of no_requests (units "u") (units "k") ≡ none)
            × (table_of one_request (units "u") (units "z")
                ≡ put
                    (units "u")
                    (units "k")
                    event_row
                    (table_of no_requests)
                    (units "u")
                    (units "z"))
            × (((event_row.status ≡ MessageRequestStatus.accepted)
                  × (one_request.queued ≡ event_row.id ∷ no_requests.queued))
                ⊎ ((event_row.status ≡ MessageRequestStatus.send_failed)
                    × (one_request.queued ≡ no_requests.queued)))))
create_accepted_publ_event_request-refines_example =
    create_accepted_publ_event_request-refines no_date no_text nothing_inherited 0 event_input
      default_found (units "k") (units "m1") no_requests one_request event_row false (units "u")
      (units "z") is_created

abbrev failed_request : Requests
failed_request = record {
  rows = map (progress (units "m1") MessageRequestStatus.delivery_failed) one_request.rows;
  queued = one_request.queued;
}

abbrev state_of : Outcome RetryError (Requests × Row) → Requests
state_of (ok (s, r)) = s
state_of (err e) = no_requests

abbrev retried_result : Outcome RetryError (Requests × Row)
retried_result =
    retry_for_user no_date no_text nothing_inherited 0 (some true) default_found (units "u")
      (units "m1") (units "k2") (units "now") (units "m2") failed_request

abbrev row_in : Outcome RetryError (Requests × Row) → Row
row_in (ok (s, r)) = r
row_in (err e) = event_row

is_retried : retried_result ≡ ok (state_of retried_result, row_in retried_result)
unfolding retry_for_user create_retry latest_retry is_failed find_by_id
    create_accepted_publ_event_request create_new choose_template failure_of row_of store_row
    resolve_publ_alimtalk_sender_profile find_by_key get_template_required_variables
    stored_variables extract_required_variables missing_required_variables is_absent get own text_eq
    is_terminal to_primitive_record
is_retried = refl

failed_reach : Reach no_date no_text nothing_inherited 0 no_requests failed_request
failed_reach =
    next
      (next here (
        accepted event_input default_found (units "k") (units "m1") event_row false refl
          is_created))
      (progressed (units "m1") MessageRequestStatus.delivery_failed refl)

one_retry : Reach no_date no_text nothing_inherited 0 no_requests (state_of retried_result)
one_retry = next failed_reach (
    retried (some true) default_found (units "u") (units "m1") (units "k2") (units "now")
      (units "m2") (row_in retried_result) is_retried)

live_retries-reached_example : live_retries (units "m1") (state_of retried_result).rows ≤ 1
live_retries-reached_example =
    live_retries-reached no_date no_text nothing_inherited 0 (units "m1") (state_of retried_result)
      one_retry

abbrev kst : ℕ → ℕ × ℕ
kst t = (2000, 1)

abbrev start_of : ℕ → ℕ → ℕ
start_of year month = month * 10

abbrev event_rule : EventRule
event_rule = record {
  owner_user_id = units "u";
  event_key = units "e";
  enabled = true;
  channel_strategy = alimtalk_then_sms;
  required_variables = some (units "a" ∷ []);
  bindings = sms_rule;
}

abbrev dto : CreateMessageRequestDto
dto = record {
  owner_user_id = units "u";
  event_key = units "e";
  recipient_phone = units "010";
  recipient_user_id = none;
  variables = (units "a", Value.str (units "x")) ∷ [];
  metadata = Json.null;
  scheduled_at = none;
}

abbrev one_user : Db
one_user = record {
  users = record { id = units "u"; monthly_sms_limit = some 1 } ∷ [];
  ledger = [];
}

abbrev before : RequestDb
before = record { requests = no_requests; ledger = one_user }

abbrev by_rule_row : Row
by_rule_row = record event_row {
  resolved_channel = some MessageChannel.sms;
  resolved_sender_number_id = some (units "n1");
  resolved_sender_profile_id = none;
  resolved_template_id = some (units "t1");
  resolved_provider_template_id = none;
}

abbrev after : RequestDb
after = record {
  requests = record { rows = by_rule_row ∷ []; queued = units "m1" ∷ [] };
  ledger = record one_user {
    ledger =
        record {
          owner_user_id = units "u";
          sender_number_id = some (units "n1");
          quantity = 1;
          usage_at = 0;
          subject = message_request (units "m1");
        }
        ∷ [];
  };
}

is_created_by_rule :
    create kst start_of no_date no_text nothing_inherited 0 dto
      (event_rule ∷ [])
      (ok [])
      (err upsert_failed)
      (units "k")
      (units "m1")
      before
    ≡ ok (after, by_rule_row, false)
unfolding create create_by_rule by_strategy ready_alimtalk ready_sms assert_can_reserve_usage
    used_in reserve_each
is_created_by_rule = refl

create-within_example :
    (used_in (units "u") (0, 10) after.ledger.ledger ≤ 1)
    × (ensure_user after.ledger (units "u") ≡ ok (units "u", 1))
unfolding ensure_user used_in get_kst_month_window
create-within_example =
    create-within kst start_of no_date no_text nothing_inherited 0 dto (event_rule ∷ []) (ok [])
      (err upsert_failed) (units "k") (units "m1") before after by_rule_row false (units "u")
      (0, 10) (units "u") 1 refl (omega arith) (λ t l h. refl) is_created_by_rule
