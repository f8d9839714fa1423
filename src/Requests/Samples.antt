-- ===== src/Requests/Samples.antt =====
-- An event request, with an approved template and an active profile behind it.
use noti.Common.{ℕ, [], ◌∷◌, Option, none, some, ok}
use noti.Text.{Text, units}
use noti.Json.{Json}
use noti.Template.{Value}
use noti.Worker.{MessageRequestStatus, MessageChannel}
use noti.Requests.{ProviderTemplateStatus, AlimtalkSenderProfile, SenderProfileStatus}
use noti.Requests.Rows.{Row, Requests}
use noti.Requests.Accept.{PublTemplate, Found, Input}

abbrev pub no_date : Text → Option ℕ
no_date t = none

abbrev pub no_text : Json → Text
no_text v = []

abbrev pub nothing_inherited : Text → Option Value
nothing_inherited k = none

abbrev pub approved_template : PublTemplate
approved_template = record {
  id = units "pt";
  provider_status = ProviderTemplateStatus.apr;
  template_id = units "t";
  body = units "hi #{a}";
  required_variables = Json.null;
}

abbrev pub active_profile : AlimtalkSenderProfile
active_profile = record { id = units "p"; status = SenderProfileStatus.active }

abbrev pub default_found : Found
default_found = record {
  rule = none;
  first_active_profile = some active_profile;
  upserted = ok approved_template;
}

abbrev pub event_input : Input
event_input = record {
  owner_user_id = units "u";
  event_key = units "e";
  recipient_phone = units "010";
  recipient_user_id = none;
  variables = (units "a", Value.str (units "x")) ∷ [];
  metadata = Json.null;
  scheduled_at = none;
  retry_of_request_id = none;
}

-- the row that is stored for it
abbrev pub event_row : Row
event_row = record {
  id = units "m1";
  owner_user_id = units "u";
  event_key = units "e";
  idempotency_key = units "k";
  recipient_phone = units "010";
  recipient_user_id = none;
  variables = (units "a", Value.str (units "x")) ∷ [];
  metadata = Json.null;
  manual_body = none;
  scheduled_at = none;
  status = MessageRequestStatus.accepted;
  resolved_channel = some MessageChannel.alimtalk;
  resolved_sender_number_id = none;
  resolved_sender_profile_id = some (units "p");
  resolved_template_id = some (units "t");
  resolved_provider_template_id = some (units "pt");
  last_error_code = none;
  last_error_message = none;
  retry_of_request_id = none;
}

abbrev pub no_requests : Requests
no_requests = record { rows = []; queued = [] }

abbrev pub one_request : Requests
one_request = record { rows = event_row ∷ []; queued = units "m1" ∷ [] }
