-- ===== src/Worker/Provider.antt =====
-- `sendToNhn` of apps/worker/src/index.ts: the request that a message becomes for each channel, and
-- how the provider's answer is read. The provider, behind `axios.post`, is a parameter.
use noti.Common.{
  ℕ, String, Bool, false, not, ◌||◌, ◌&&◌, List, [], ◌∷◌, ◌++◌, Option, none, some, if◌then◌else◌,
  is_empty, Outcome, ok, err, ◌>>=◌, ◌>>◌, require,
}
use noti.Text.{Text, units, text_eq, digits_only}
use noti.Json.{Json, array, nil, at_key, first_item, truthy, or_else, is_false}
use noti.Template.{Value, Variables, shown}
use noti.Sms.{or_text, build_domestic_mms_title}
use noti.Worker.{
  MessageChannel, alimtalk, brand_message, WorkerError, unrecoverable, Message, said, reported,
  Runtime,
}

pub data Targeting : Type 0 where
  i m n : Targeting

pub record BrandMessage : Type 0 where
  pub is_template_mode : Bool
  pub targeting : Targeting
  pub message_type : Option Text
  pub push_alarm : Bool
  pub adult : Bool
  pub stats_id : Option Text
  pub reseller_code : Option Text
  pub template_code : Option Text
  pub buttons : Option Json
  pub image_url : Option Text
  pub image_link : Option Text

pub record SmsFailover : Type 0 where
  pub sender_no : Text
  pub msg_sms : Text
  pub is_sms : Bool

pub record SendRequest : Type 0 where
  pub channel : Option MessageChannel
  pub recipient_phone : Text
  pub sender_phone_number : Option Text
  pub sender_key : Option Text
  pub template_code : Option Text
  pub rendered_body : Text
  pub variables : Variables
  pub scheduled_at : Option ℕ
  pub is_mms : Bool
  pub mms_title : Option Text
  pub sms_attachment_file_ids : List ℕ
  pub sms_failover : Option SmsFailover
  pub brand : Option BrandMessage

-- The bodies that are posted, one constructor for each endpoint. The date of a scheduled message is
-- given as the time itself.
pub data Payload : Type 0 where
  basic_message :
      (sender_key template_code : Text) (request_date : Option ℕ) (push_alarm adult : Bool)
      (stats_id reseller_code : Option Text) (recipient_no : Text) (targeting : Targeting)
      (template_parameter : List (Text × Text))
      → Payload
  freestyle_message :
      (sender_key : Text) (request_date : Option ℕ) (chat_bubble_type : Option Text)
      (content : Text) (push_alarm adult : Bool) (stats_id reseller_code : Option Text)
      (buttons : Option Json) (image : Option (Text × Option Text)) (recipient_no : Text)
      (targeting : Targeting)
      → Payload
  alimtalk_message :
      (sender_key template_code : Text) (request_date : Option ℕ) (failover : Option SmsFailover)
      (recipient_no : Text) (template_parameter : List (Text × Text))
      → Payload
  mms_message :
      (title body send_no : Text) (request_date : Option ℕ) (attach_file_ids : List ℕ)
      (recipient_no : Text)
      → Payload
  sms_message : (body send_no : Text) (request_date : Option ℕ) (recipient_no : Text) → Payload

-- `value == null ? '' : String(value)`
abbrev pub parameter_text : Value → Text
parameter_text Value.null = []
parameter_text Value.undefined = []
parameter_text v = shown v

unfoldable pub parameters : Variables → List (Text × Text)
parameters [] = []
parameters ((k, v) ∷ vs) = (k, parameter_text v) ∷ parameters vs

-- a field that the payload leaves out when it is falsy
abbrev pub non_empty : Option Text → Option Text
non_empty none = none
non_empty (some t) = if is_empty t then none else some t

-- an optional string that must be there: `!value` throws
abbrev pub present : Option Text → WorkerError → Outcome WorkerError Text
present none e = err e
present (some t) e = if is_empty t then err e else ok t

-- `buttons?.length ? { buttons } : {}`
unfoldable pub non_empty_list : Option Json → Option Json
non_empty_list (some (array nil)) = none
non_empty_list b = b

unfoldable pub brand_payload : SendRequest → Text → BrandMessage → Outcome WorkerError Payload
unfolding parameters non_empty_list
brand_payload r key b =
    if b.is_template_mode
    then (do
      template_code ←
          present b.template_code
            (unrecoverable (said "templateCode is required for brand template sending"))
      ok (
          basic_message key template_code r.scheduled_at b.push_alarm b.adult (non_empty b.stats_id)
            (non_empty b.reseller_code) r.recipient_phone b.targeting (parameters r.variables)))
    else ok (
        freestyle_message key r.scheduled_at b.message_type r.rendered_body b.push_alarm b.adult
          (non_empty b.stats_id) (non_empty b.reseller_code) (non_empty_list b.buttons)
          (elim (non_empty b.image_url) [ none ↦ none | some url ↦ some (url, b.image_link) ])
          r.recipient_phone b.targeting)

-- `normalizePhoneNumber(value) || value`
unfoldable pub send_number : Text → Text
unfolding digits_only
send_number phone = or_text (digits_only phone) phone

module _ (rt : Runtime) where
  -- the checks before the post, and the body that is posted
  unfoldable pub brand_request : SendRequest → Outcome WorkerError Payload
  brand_request r = do
    require (not rt.is_alimtalk_mock_mode)
        (unrecoverable (said "NHN_ALIMTALK_APP_KEY and NHN_ALIMTALK_SECRET_KEY must be configured"))
    key ← present r.sender_key (
        unrecoverable
          (said "senderKey and brandMessage config are required for brand message sending"))
    elim r.brand [
      | none ↦ err (
          unrecoverable
            (said "senderKey and brandMessage config are required for brand message sending"))
      | some b ↦ brand_payload r key b
    ]

  unfoldable pub alimtalk_request : SendRequest → Outcome WorkerError Payload
  unfolding parameters
  alimtalk_request r = do
    require (not rt.is_alimtalk_mock_mode)
        (unrecoverable (said "NHN_ALIMTALK_APP_KEY and NHN_ALIMTALK_SECRET_KEY must be configured"))
    key ←
        present r.sender_key
          (unrecoverable (said "senderKey and templateCode are required for ALIMTALK sending"))
    template_code ←
        present r.template_code
          (unrecoverable (said "senderKey and templateCode are required for ALIMTALK sending"))
    ok (
        alimtalk_message key template_code r.scheduled_at r.sms_failover r.recipient_phone
          (parameters r.variables))

  unfoldable pub sms_request : SendRequest → Outcome WorkerError Payload
  unfolding send_number
  sms_request r = do
    require (not rt.is_sms_api_mock_mode)
        (unrecoverable (said "NHN_SMS_APP_KEY and NHN_SMS_SECRET_KEY must be configured"))
    phone ←
        present r.sender_phone_number
          (unrecoverable (said "senderPhoneNumber is required for SMS sending"))
    ok (
        if not (is_empty r.sms_attachment_file_ids) || r.is_mms
        then mms_message (build_domestic_mms_title r.rendered_body r.mms_title) r.rendered_body
            (send_number phone) r.scheduled_at r.sms_attachment_file_ids r.recipient_phone
        else sms_message r.rendered_body (send_number phone) r.scheduled_at r.recipient_phone)

  unfoldable pub request_of : Option MessageChannel → SendRequest → Outcome WorkerError Payload
  request_of (some brand_message) r = brand_request r
  request_of (some alimtalk) r = alimtalk_request r
  request_of _ r = sms_request r

  -- `typeof value === 'number' && value !== 0`
  unfoldable pub is_nonzero_number : Json → Bool
  unfolding text_eq
  is_nonzero_number (Json.number t) = not (text_eq t (units "0"))
  is_nonzero_number _ = false

  -- `String(value || fallback)`
  abbrev pub text_or : Json → Text → Text
  text_or value fallback = if truthy value then rt.text_of value else fallback

  -- `value ?? fallback`, as a message
  abbrev pub message_or : Json → String → Message
  message_or Json.undefined fallback = said fallback
  message_or Json.null fallback = said fallback
  message_or value fallback = reported (rt.text_of value)

  -- none for success, the message of a failure otherwise
  unfoldable pub normalize_bizmessage_send_failure : Json → Option Text
  unfolding at_key first_item truthy is_nonzero_number
  normalize_bizmessage_send_failure response =
      let header = at_key (units "header") response in
      let header_code = at_key (units "resultCode") header in
      let send_result =
        first_item (at_key (units "sendResults") (at_key (units "message") response)) in
      let send_code = at_key (units "resultCode") send_result in
      if is_nonzero_number header_code
      then some (
          text_or (at_key (units "resultMessage") header)
            (units "NHN header resultCode=" ++ rt.text_of header_code))
      else if truthy send_result && not (rt.is_zero send_code)
      then some (
          text_or (at_key (units "resultMessage") send_result)
            (units "NHN send resultCode=" ++ rt.text_of send_code))
      else none

  -- The answer to an AlimTalk or a brand message: the message id, or the failure that it reports.
  unfoldable pub read_bizmessage_response : Json → Outcome WorkerError Text
  unfolding normalize_bizmessage_send_failure at_key first_item truthy
  read_bizmessage_response response =
      let message = at_key (units "message") response in
      let seq = at_key (units "recipientSeq") (first_item (at_key (units "sendResults") message)) in
      elim (normalize_bizmessage_send_failure response) [
        | some failure ↦ err (unrecoverable (reported failure))
        | none ↦ ok (
            text_or (at_key (units "requestId") message) (units "nhn_" ++ rt.now_text)
            ++ (units ":" ++ (if truthy seq then rt.number_text seq else units "1")))
      ]

  -- The answer to an SMS or an MMS; `label` is the name in the source's messages.
  unfoldable pub read_sms_response : String → String → Json → Outcome WorkerError Text
  unfolding at_key first_item truthy or_else is_false
  read_sms_response failed_message no_id_message response =
      let header = at_key (units "header") response in
      let outer = at_key (units "body") response in
      let body = or_else (at_key (units "data") outer) (or_else outer response) in
      let request_id =
        or_else (at_key (units "requestId") body) (at_key (units "requestId") response) in
      let list = units "sendResultList" in
      let send_result =
        or_else (first_item (at_key list body)) (first_item (at_key list response)) in
      let seq = at_key (units "recipientSeq") send_result in
      if is_false (at_key (units "isSuccessful") header)
      then err (unrecoverable (message_or (at_key (units "resultMessage") header) failed_message))
      else if truthy request_id
      then ok (
          rt.text_of request_id
          ++ (units ":" ++ (if truthy seq then rt.text_of seq else units "1")))
      else err (unrecoverable (said no_id_message))

  unfoldable pub read_response : Payload → Json → Outcome WorkerError Text
  unfolding read_bizmessage_response read_sms_response
  read_response (mms_message _ _ _ _ _ _) =
      read_sms_response "NHN MMS send failed" "NHN MMS response did not include requestId"
  read_response (sms_message _ _ _ _) =
      read_sms_response "NHN SMS send failed" "NHN SMS response did not include requestId"
  read_response (alimtalk_message _ _ _ _ _ _) = read_bizmessage_response
  read_response (basic_message _ _ _ _ _ _ _ _ _ _) = read_bizmessage_response
  read_response (freestyle_message _ _ _ _ _ _ _ _ _ _ _ _) = read_bizmessage_response
