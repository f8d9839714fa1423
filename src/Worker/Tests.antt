-- ===== src/Worker/Tests.antt =====
-- A message, a provider and campaigns for the worker.
use noti.Common.{
  ℕ, ◌≡◌, ◌≢◌, ◌++◌, refl, Bool, true, false, [], ◌∷◌, none, some, Outcome, ok, err, All,
}
use noti.Text.{Text, units, text_eq, trim}
use noti.Json.{Json, Items, object, field, end, at_key, truthy, first_item, as_object, as_string}
use noti.Sms.{normalize_sms_text}
use noti.Sms.Format.{
  format_sms_body, sms_advertisement_opt_out_text, sanitize_advertising_service_name, opt_out_line,
  advertisement_content,
}
use noti.Worker.{
  MessageChannel, sms, alimtalk, MessageRequestStatus, accepted, sent_to_provider, send_failed,
  code, is_terminal, WorkerError, axios, unrecoverable, said, Runtime,
}
use noti.Worker.Provider.{Payload, sms_message}
use noti.Worker.Row.{MessageRequest, Store}
use noti.Worker.Compose.{Composed, is_template_approved, source_body, rendered_body}
use noti.Worker.Dispatch.{process_message}
use noti.Worker.Job.{run_job, message_attempts}
use noti.Worker.Settled.{is_settled, row_passes, run_job-settled}
use noti.Worker.Attempts.{IsCounted, run_job-IsCounted}
use noti.Worker.Sending.{Fits, process_message-Fits}
use noti.Worker.Approval.{process_message-unapproved, rendered_body-opt_out}
use noti.Worker.Bulk.{
  CampaignStatus, RecipientStatus, TemplateParameters, Campaign, SendResultItem, SendResult,
  bulk_sms, bulk_alimtalk, is_concluded, checked, is_accepted, mark, mark_all, status_of, submitted,
  process_bulk_campaign, last_bulk_run,
}
use noti.Worker.Answers.{posted_answer}
use noti.Worker.Refusals.{last_bulk_run-first_refused}
use noti.Worker.Campaigns.{process_bulk_campaign-once, last_bulk_run-is_concluded}

abbrev runtime : Runtime
runtime = record {
  is_alimtalk_mock_mode = false;
  is_sms_api_mock_mode = false;
  positive_integer = λ v. none;
  is_zero = λ v. true;
  text_of = λ v. units "id";
  number_text = λ v. units "0";
  now_text = units "0";
  inherited = λ k. none;
}

-- a provider that is always busy
abbrev busy : Outcome WorkerError Json
busy = err (
    axios (record {
      status = some 503;
      result_message = none;
      data_message = none;
      message = said "busy";
    }))

abbrev busy_always : ℕ → Payload → Outcome WorkerError Json
busy_always k p = busy

abbrev message_of : MessageRequestStatus → MessageChannel → Json → MessageRequest
message_of status channel metadata = record {
  status = status;
  attempt_count = 0;
  resolved_channel = some channel;
  recipient_phone = units "010";
  manual_body = some (units "hi");
  metadata = metadata;
  variables = [];
  scheduled_at = none;
  resolved_template = none;
  resolved_sender_number = some (units "02");
  resolved_sender_profile = none;
  resolved_provider_template = none;
  nhn_message_id = none;
  last_error_code = none;
  last_error_message = none;
}

abbrev store_of : MessageRequest → Store
store_of r = record { request = some r; attempts = []; dead_letters = []; posted = [] }

abbrev fresh : MessageRequest
fresh = message_of accepted sms Json.null

abbrev advertisement : Json
advertisement = object (
    field (units "smsAdvertisement") (object (field (units "enabled") (Json.boolean true) end)) end)

run_job-settled_example :
    row_passes
      (λ q. is_settled q.status)
      (run_job runtime busy_always message_attempts 0 (store_of fresh))
    ≡ true
run_job-settled_example = run_job-settled runtime busy_always (store_of fresh) refl

run_job-IsCounted_example : IsCounted (run_job runtime busy_always 8 0 (store_of fresh))
run_job-IsCounted_example =
    run_job-IsCounted runtime busy_always 8 0 (store_of fresh)
      (record { counted = refl; numbered = tt })

sms_is_there : fresh.resolved_channel ≢ none
sms_is_there e = cc

process_message-Fits_example :
    All Fits (process_message runtime (busy_always 0) (store_of fresh)).0.posted
process_message-Fits_example =
    process_message-Fits runtime (busy_always 0) (store_of fresh) fresh refl sms_is_there tt

abbrev unapproved : MessageRequest
unapproved = message_of accepted alimtalk Json.null

process_message-unapproved_example :
    ((process_message runtime (busy_always 0) (store_of unapproved)).0.posted ≡ [])
    × ((q : MessageRequest) × ((process_message runtime
            (busy_always 0)
            (store_of unapproved)).0.request
          ≡ some q)
        × (q.status ≡ send_failed)
        × (q.last_error_code ≡ some (code "UNRECOVERABLE")))
unfolding is_template_approved is_terminal
process_message-unapproved_example =
    process_message-unapproved runtime (busy_always 0) (store_of unapproved) unapproved refl refl
      refl refl

abbrev handed_over : MessageRequest
handed_over = message_of sent_to_provider sms Json.null

abbrev composed : Composed
composed = record { body = units "hi"; is_mms = false; file_ids = []; failover = none }

abbrev posted : Payload
posted = sms_message (units "hi") (units "02") none (units "010")

abbrev promoted : MessageRequest
promoted = message_of accepted sms advertisement

abbrev promoted_body : Text
promoted_body = units "(광고)\nhi\n무료수신거부 080-500-4233"

rendered_body-opt_out_example :
    (front : Text) × (promoted_body ≡ front ++ 10 ∷ sms_advertisement_opt_out_text)
unfolding source_body rendered_body format_sms_body truthy at_key as_object as_string
    sanitize_advertising_service_name opt_out_line advertisement_content normalize_sms_text trim
rendered_body-opt_out_example = rendered_body-opt_out runtime promoted promoted_body refl refl refl

abbrev campaign : Campaign
campaign = record {
  status = CampaignStatus.processing;
  nhn_request_id = none;
  sender = some (units "02");
  template_code = none;
  recipients =
      record {
        id = units "r";
        recipient_phone = units "010";
        recipient_grouping_key = some (units "g");
        template_parameters = TemplateParameters.no_object;
        recipient_seq = none;
        status = RecipientStatus.requested;
      }
      ∷ [];
  error = none;
}

abbrev item : SendResultItem
item = record {
  recipient_seq = some (units "1");
  result_code = some (units "0");
  recipient_grouping_key = some (units "g");
}

abbrev answered : Outcome WorkerError SendResult
answered = ok (record { request_id = units "R"; send_result_list = item ∷ [] })

abbrev after : Campaign
after = record campaign {
  status = CampaignStatus.sent_to_provider;
  nhn_request_id = some (units "R");
  recipients =
      record {
        id = units "r";
        recipient_phone = units "010";
        recipient_grouping_key = some (units "g");
        template_parameters = TemplateParameters.no_object;
        recipient_seq = some (units "1");
        status = RecipientStatus.requested;
      }
      ∷ [];
}

process_bulk_campaign-once_example :
    process_bulk_campaign bulk_sms answered after ≡ (after, ok tt, false)
unfolding process_bulk_campaign checked is_concluded submitted status_of mark_all is_accepted
    text_eq mark
process_bulk_campaign-once_example =
    process_bulk_campaign-once bulk_sms answered answered campaign after refl

last_bulk_run-is_concluded_example :
    is_concluded (last_bulk_run bulk_sms (err (unrecoverable (said "no"))) 5 campaign).status ≡ true
last_bulk_run-is_concluded_example =
    last_bulk_run-is_concluded bulk_sms (err (unrecoverable (said "no"))) campaign 5 refl

abbrev refused_item : SendResultItem
refused_item = record item { result_code = some (units "-1") }

abbrev zero_text : Json → Bool
zero_text (Json.number t) = text_eq t (units "0")
zero_text _ = false

abbrev counting : Runtime
counting = record runtime { is_zero = zero_text }

abbrev result_of : Text → Json
result_of result_code = Json.object (
    field (units "resultCode") (Json.number result_code)
      (field (units "recipientSeq") (Json.number (units "1")) end))

-- the first recipient is refused, and the second is not
abbrev half_refused : Json
half_refused = Json.object (
    field (units "message")
      (Json.object (
        field (units "requestId") (Json.string (units "R")) (
          field (units "sendResults")
            (Json.array
              (Items.item (result_of (units "7")) (Items.item (result_of (units "0")) Items.nil)))
            end)))
      end)

abbrev kakao_campaign : Campaign
kakao_campaign = record campaign {
  sender = some (units "key");
  template_code = some (units "T");
  recipients =
      record {
        id = units "r";
        recipient_phone = units "010";
        recipient_grouping_key = some (units "g");
        template_parameters = TemplateParameters.parameters [];
        recipient_seq = none;
        status = RecipientStatus.requested;
      }
      ∷ [];
}

last_bulk_run-first_refused_example :
    ((last_bulk_run bulk_alimtalk
        (posted_answer counting bulk_alimtalk (ok half_refused))
        5
        kakao_campaign).status
      ≡ CampaignStatus.failed)
    × ((last_bulk_run bulk_alimtalk
          (posted_answer counting bulk_alimtalk (ok half_refused))
          5
          kakao_campaign).nhn_request_id
        ≡ none)
    × ((last_bulk_run bulk_alimtalk
          (posted_answer counting bulk_alimtalk (ok half_refused))
          5
          kakao_campaign).recipients
        ≡ kakao_campaign.recipients)
unfolding checked first_item truthy at_key text_eq
last_bulk_run-first_refused_example =
    last_bulk_run-first_refused counting bulk_alimtalk half_refused 5 kakao_campaign (λ e. cc) refl
      refl refl refl refl
