-- ===== src/Worker/Posting.antt =====
-- A run on an AlimTalk that lacks nothing posts it.
use noti.Common.{◌≡◌, refl, true, false, ◌∷◌, none, some, arith, Outcome, ok, is_empty}
use noti.Text.{Text, units}
use noti.Json.{at_key, Json, as_string}
use noti.Template.{render_template}
use noti.Worker.{alimtalk, is_terminal, WorkerError, Runtime}
use noti.Worker.Provider.{Payload, alimtalk_message, parameters, request_of, alimtalk_request}
use noti.Worker.Row.{MessageRequest, Store}
use noti.Worker.Compose.{
  parse_stored_sms_attachment_file_ids, Composed, compose, rendered_body, source_body, failover_of,
  is_template_approved, send_request_of, config_at, render_or_throw, is_brand_template_mode,
  template_code_of,
}
use noti.Worker.Dispatch.{update, process_message, attempt, send_to_nhn, begun}
use noti.Worker.Settled.{process_message_row}
use noti.Worker.Sending.{posted-conclude}

-- An AlimTalk that has all that a post needs: an approved template with a code and a body, a sender
-- key, and no failover SMS.
pub record IsReady (rt : Runtime) (r : MessageRequest) (body key template_code : Text)
    : Type 0 where
  pub is_live : is_terminal r.status ≡ false
  pub channel : r.resolved_channel ≡ some alimtalk
  pub no_manual_body : r.manual_body ≡ none
  pub template : r.resolved_template ≡ some body
  pub no_failover : as_string (config_at r "smsFailover" "senderNo") ≡ none
  pub is_approved : is_template_approved r ≡ true
  pub is_configured : rt.is_alimtalk_mock_mode ≡ false
  pub sender : r.resolved_sender_profile ≡ some key
  pub key_filled : is_empty key ≡ false
  pub by_code : template_code_of r ≡ some template_code
  pub code_filled : is_empty template_code ≡ false

-- the body that is posted
abbrev pub post_of : MessageRequest → Text → Text → Payload
post_of r key template_code =
    alimtalk_message key template_code r.scheduled_at none r.recipient_phone
      (parameters r.variables)

module _ (rt : Runtime) (r : MessageRequest) (body key template_code t : Text)
    (ready : IsReady rt r body key template_code)
    (rendered : render_template rt.inherited body r.variables ≡ ok t) where
  source_body-ready : source_body rt r ≡ ok t
  unfolding source_body render_or_throw is_brand_template_mode
  source_body-ready = ground (arith, rendered, ready.no_manual_body, ready.template, ready.channel)

  rendered_body-ready : rendered_body rt r ≡ ok t
  unfolding rendered_body
  rendered_body-ready = ground (arith, source_body-ready, ready.channel)

  failover_of-ready : failover_of rt r t ≡ ok none
  unfolding failover_of
  failover_of-ready = ground (arith, ready.no_failover)

  abbrev composed : Composed
  composed = record {
    body = t;
    is_mms = false;
    file_ids =
        parse_stored_sms_attachment_file_ids rt
          (at_key (units "smsTemplateAttachmentFileIds") r.metadata);
    failover = none;
  }

  compose-ready : compose rt r ≡ ok composed
  unfolding compose
  compose-ready = ground (arith, rendered_body-ready, failover_of-ready, ready.channel)

  request_of-ready :
      request_of rt r.resolved_channel (send_request_of r composed)
      ≡ ok (post_of r key template_code)
  unfolding request_of alimtalk_request send_request_of
  request_of-ready = ground (
    arith, ready.channel, ready.is_configured, ready.sender, ready.key_filled, ready.by_code,
    ready.code_filled,
  )

  -- Such an AlimTalk whose body renders is posted by the next run, once, to its recipient with its
  -- variables, whatever the provider answers.
  pub process_message-posts :
      (provider : Payload → Outcome WorkerError Json) (s : Store)
      → s.request ≡ some r
      → (process_message rt provider s).0.posted ≡ post_of r key template_code ∷ s.posted
  process_message-posts provider s e =
      let s₀ = update begun s in
      let a = attempt rt provider r s₀ in
      let same : s₀.posted ≡ s.posted = unfold update in refl in
      let posted : a.0.posted ≡ post_of r key template_code ∷ s₀.posted =
        unfold attempt send_to_nhn in
        ground (arith, compose-ready, request_of-ready, ready.channel, ready.is_approved) in
      ground (
        arith,
        process_message_row rt provider s r e,
        posted-conclude r a.0 a.1,
        posted,
        same,
        ready.is_live,
      )
