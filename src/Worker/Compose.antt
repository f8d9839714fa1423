-- ===== src/Worker/Compose.antt =====
-- The first half of `processMessage` in apps/worker/src/index.ts: what is to be sent, from the row's
-- body or template, its metadata and its channel.
use noti.Common.{
  ℕ, String, Bool, true, false, not, ◌||◌, ◌&&◌, List, [], ◌∷◌, ◌++◌, Option, none, some,
  if◌then◌else◌, is_empty, any, Outcome, ok, err, ◌>>=◌, ◌>>◌, require, ◌==◌,
}
use noti.Text.{Text, units}
use noti.Json.{
  Json, array, at_key, truthy, is_false, is_true, is_text, as_string, as_object, as_array,
  item_list,
}
use noti.Template.{Variables, render_template, missing_template_variable}
use noti.Sms.{DomesticSmsMessageType, mms, over_limit, classify_domestic_sms_body}
use noti.Sms.Format.{format_sms_body}
use noti.Worker.{
  MessageChannel, sms, alimtalk, brand_message, WorkerError, unrecoverable, said, reported, Runtime,
}
use noti.Worker.Provider.{Targeting, i, m, n, BrandMessage, SmsFailover, SendRequest}
use noti.Worker.Row.{MessageRequest}

-- a falsy string is none
abbrev pub filled : Option Text → Option Text
filled none = none
filled (some t) = if is_empty t then none else some t

-- `a || b` on optional strings
abbrev pub first_filled : Option Text → Option Text → Option Text
first_filled a b = elim (filled a) [ none ↦ b | some t ↦ some t ]

-- `resolvedChannel === channel`
abbrev pub is_channel : MessageChannel → Option MessageChannel → Bool
is_channel sms (some sms) = true
is_channel alimtalk (some alimtalk) = true
is_channel brand_message (some brand_message) = true
is_channel _ _ = false

module _ (r : MessageRequest) where
  abbrev pub metadata_object : String → Option Json
  metadata_object k = as_object (at_key (units k) r.metadata)

  -- `config?.key`
  abbrev pub config_at : String → String → Json
  config_at k j = elim (metadata_object k) [ none ↦ Json.undefined | some c ↦ at_key (units j) c ]

  unfoldable pub is_brand_template_mode : Bool
  unfolding as_object at_key is_text
  is_brand_template_mode =
      is_channel brand_message r.resolved_channel
      && is_text (units "TEMPLATE") (config_at "brandMessage" "mode")

-- What `processMessage` computes before it looks at the template's approval.
pub record Composed : Type 0 where
  pub body : Text
  pub is_mms : Bool
  pub file_ids : List ℕ
  pub failover : Option SmsFailover

abbrev pub is_over_limit : DomesticSmsMessageType → Bool
is_over_limit over_limit = true
is_over_limit _ = false

abbrev pub is_mms_type : DomesticSmsMessageType → Bool
is_mms_type mms = true
is_mms_type _ = false

abbrev pub is_sms_type : DomesticSmsMessageType → Bool
is_sms_type DomesticSmsMessageType.sms = true
is_sms_type _ = false

module _ (rt : Runtime) where
  -- `parseStoredSmsAttachmentFileIds`: each positive integer once, in the order of the array
  unfoldable pub file_ids_from : List ℕ → List Json → List ℕ
  file_ids_from seen [] = []
  file_ids_from seen (v ∷ vs) = elim (rt.positive_integer v) [
    | none ↦ file_ids_from seen vs
    | some id ↦
        let again = file_ids_from seen vs in
        let fresh = id ∷ file_ids_from (id ∷ seen) vs in
        if any (λ other. other == id) seen then again else fresh
  ]

  unfoldable pub parse_stored_sms_attachment_file_ids : Json → List ℕ
  unfolding file_ids_from item_list
  parse_stored_sms_attachment_file_ids (array vs) = file_ids_from [] (item_list vs)
  parse_stored_sms_attachment_file_ids _ = []

  -- `renderTemplate`, with a missing variable turned into an error that is not retried
  unfoldable pub render_or_throw : Text → Variables → Outcome WorkerError Text
  render_or_throw body vs = elim (render_template rt.inherited body vs) [
    | ok t ↦ ok t
    | err (missing_template_variable k) ↦
        err (unrecoverable (reported (units "Missing template variable: " ++ k)))
  ]

  -- the stored body of a brand template, which may be empty
  unfoldable pub brand_template_body : MessageRequest → Outcome WorkerError Text
  unfolding render_or_throw as_string as_object at_key
  brand_template_body r = elim (filled (as_string (config_at r "brandMessage" "templateBody"))) [
    | none ↦ ok []
    | some body ↦ render_or_throw body r.variables
  ]

  -- The body before the marks of an advertisement: the manual one, or else the rendered template,
  -- or else, if both are empty, that of a brand template.
  unfoldable pub source_body : MessageRequest → Outcome WorkerError Text
  source_body r = elim (filled r.manual_body) [
    | some body ↦ ok body
    | none ↦ elim r.resolved_template [
      | some template ↦ do
        t ← render_or_throw template r.variables
        if is_empty t && is_brand_template_mode r then brand_template_body r else ok t
      | none ↦
          if is_brand_template_mode r
          then brand_template_body r
          else err (unrecoverable (said "Resolved template is missing"))
    ]
  ]

  unfoldable pub rendered_body : MessageRequest → Outcome WorkerError Text
  unfolding as_string as_object at_key truthy
  rendered_body r = do
    body ← source_body r
    ok (
        if is_channel sms r.resolved_channel
        then format_sms_body body (record {
          is_advertisement = truthy (config_at r "smsAdvertisement" "enabled");
          advertising_service_name =
              as_string (config_at r "smsAdvertisement" "advertisingServiceName");
          opt_out_text = none;
        })
        else body)

  -- the SMS that the provider sends if an AlimTalk fails; its body has the LMS limit
  unfoldable pub failover_of : MessageRequest → Text → Outcome WorkerError (Option SmsFailover)
  unfolding as_string as_object at_key
  failover_of r body = elim (as_string (config_at r "smsFailover" "senderNo")) [
    | none ↦ ok none
    | some sender_no ↦
        let type = classify_domestic_sms_body body false in
        if is_over_limit type
        then err (unrecoverable (said "SMS failover body exceeds LMS standard limit"))
        else ok (some (record { sender_no = sender_no; msg_sms = body; is_sms = is_sms_type type }))
  ]

  unfoldable pub compose : MessageRequest → Outcome WorkerError Composed
  compose r = do
    body ← rendered_body r
    let file_ids =
        parse_stored_sms_attachment_file_ids
          (at_key (units "smsTemplateAttachmentFileIds") r.metadata)
    let type = classify_domestic_sms_body body (not (is_empty file_ids))
    require (not (is_channel sms r.resolved_channel && is_over_limit type))
        (unrecoverable (said "SMS/LMS/MMS standard limit exceeded"))
    failover ← failover_of r body
    ok (record {
      body = body;
      is_mms = is_channel sms r.resolved_channel && is_mms_type type;
      file_ids = file_ids;
      failover = failover;
    })

-- `providerStatus === 'APR'` of the local template, or of the one in the metadata
unfoldable pub is_template_approved : MessageRequest → Bool
unfolding as_object at_key is_text
is_template_approved r =
    elim r.resolved_provider_template [ none ↦ false | some t ↦ t.is_approved ]
    || is_text (units "APR") (config_at r "manualAlimtalkTemplate" "providerStatus")

abbrev pub targeting_of : Json → Targeting
targeting_of value =
    if is_text (units "M") value then m else if is_text (units "N") value then n else i

-- the configuration of a brand message, from the metadata
unfoldable pub brand_message_of : MessageRequest → Option BrandMessage
unfolding as_object at_key is_text as_string is_false is_true
brand_message_of r = elim (metadata_object r "brandMessage") [
  | none ↦ none
  | some c ↦ some (record {
    is_template_mode = is_text (units "TEMPLATE") (at_key (units "mode") c);
    targeting = targeting_of (at_key (units "targeting") c);
    message_type = as_string (at_key (units "messageType") c);
    push_alarm = not (is_false (at_key (units "pushAlarm") c));
    adult = is_true (at_key (units "adult") c);
    stats_id = as_string (at_key (units "statsId") c);
    reseller_code = as_string (at_key (units "resellerCode") c);
    template_code = as_string (at_key (units "templateCode") c);
    buttons = as_array (at_key (units "buttons") c);
    image_url = as_string (at_key (units "imageUrl") (at_key (units "image") c));
    image_link = as_string (at_key (units "imageLink") (at_key (units "image") c));
  })
]

-- `templateCode || kakaoTemplateCode || nhnTemplateId || manual`
unfoldable pub template_code_of : MessageRequest → Option Text
unfolding as_object at_key as_string
template_code_of r =
    let manual = as_string (config_at r "manualAlimtalkTemplate" "templateCode") in
    elim r.resolved_provider_template [
      | none ↦ manual
      | some t ↦
          first_filled t.template_code
            (first_filled t.kakao_template_code (first_filled t.nhn_template_id manual))
    ]

-- the argument of `sendToNhn`
unfoldable pub send_request_of : MessageRequest → Composed → SendRequest
unfolding brand_message_of template_code_of as_string at_key
send_request_of r c = record {
  channel = r.resolved_channel;
  recipient_phone = r.recipient_phone;
  sender_phone_number = r.resolved_sender_number;
  sender_key = r.resolved_sender_profile;
  template_code = template_code_of r;
  rendered_body = c.body;
  variables = r.variables;
  scheduled_at = r.scheduled_at;
  is_mms = c.is_mms;
  mms_title = as_string (at_key (units "mmsTitle") r.metadata);
  sms_attachment_file_ids = c.file_ids;
  sms_failover = c.failover;
  brand = if is_channel brand_message r.resolved_channel then brand_message_of r else none;
}
