-- ===== src/Worker/Sending.antt =====
-- What a run posts to the provider, and what it does not.
use noti.Common.{
  ◌≤◌, ◌≡◌, ◌≢◌, refl, Bool, true, false, not, Option, none, some, Outcome, ok, err, arith, inl,
  inr, Bool-cases, Outcome-cases, Option-cases, is_empty, All,
}
use noti.Text.{Text, units}
use noti.Json.{Json, at_key}
use noti.Sms.{get_domestic_sms_byte_length, classify_domestic_sms_body}
use noti.Sms.Bounds.{classify_domestic_sms_body_iff, build_domestic_mms_title_bounds}
use noti.Worker.{MessageChannel, sms, alimtalk, brand_message, is_terminal, WorkerError, Runtime}
use noti.Worker.Provider.{
  Payload, alimtalk_message, mms_message, sms_message, SmsFailover, SendRequest, BrandMessage,
  request_of, sms_request, alimtalk_request, brand_request, brand_payload,
}
use noti.Worker.Row.{MessageRequest, Store}
use noti.Worker.Compose.{
  Composed, compose, rendered_body, failover_of, is_channel, is_over_limit, send_request_of,
  parse_stored_sms_attachment_file_ids,
}
use noti.Worker.Dispatch.{update, process_message, attempt, conclude, send_to_nhn, begun}
use noti.Worker.Settled.{process_message_row}

-- The carrier's limits on what is posted: a text body of an SMS, MMS or failover SMS has at most
-- 2000 bytes, an MMS title at most 40 and at least a character.
abbrev pub FitsFailover : Option SmsFailover → Type 0
FitsFailover none = Unit
FitsFailover (some f) = get_domestic_sms_byte_length f.msg_sms ≤ 2000

abbrev pub Fits : Payload → Type 0
Fits (sms_message body _ _ _) = get_domestic_sms_byte_length body ≤ 2000
Fits (mms_message title body _ _ _ _) =
    (get_domestic_sms_byte_length body ≤ 2000)
    × (get_domestic_sms_byte_length title ≤ 40)
    × (is_empty title ≡ false)
Fits (alimtalk_message _ _ _ failover _ _) = FitsFailover failover
Fits _ = Unit

not_over_limit :
    (body : Text) (attached : Bool)
    → is_over_limit (classify_domestic_sms_body body attached) ≡ false
    → get_domestic_sms_byte_length body ≤ 2000
not_over_limit body attached h =
    (classify_domestic_sms_body_iff body attached).0.0 (λ e. ground (arith, h, e))

failover_of-Fits :
    (rt : Runtime) (r : MessageRequest) (body : Text) (f : Option SmsFailover)
    → failover_of rt r body ≡ ok f
    → FitsFailover f
unfolding failover_of
failover_of-Fits rt r body f h = ground (arith, not_over_limit body false)

compose-Fits :
    (rt : Runtime) (r : MessageRequest) (c : Composed)
    → compose rt r ≡ ok c
    → (is_channel sms r.resolved_channel ≡ true → get_domestic_sms_byte_length c.body ≤ 2000)
      × FitsFailover c.failover
unfolding compose
compose-Fits rt r c h = elim (Outcome-cases (rendered_body rt r)) [
  | inr (x, e) ↦ ground (arith, e, h)
  | inl (body, e) ↦
      let stored = at_key (units "smsTemplateAttachmentFileIds") r.metadata in
      let attached = not (is_empty (parse_stored_sms_attachment_file_ids rt stored)) in
      elim (Outcome-cases (failover_of rt r body)) [
        | inr (x, g) ↦ ground (arith, e, g, h)
        | inl (f, g) ↦
            ground (arith, e, g, h, not_over_limit body attached, failover_of-Fits rt r body f g)
      ]
]

sms_request-Fits :
    (rt : Runtime) (q : SendRequest) (p : Payload)
    → get_domestic_sms_byte_length q.rendered_body ≤ 2000
    → sms_request rt q ≡ ok p
    → Fits p
unfolding sms_request
sms_request-Fits rt q p b h =
    ground (arith, build_domestic_mms_title_bounds q.rendered_body q.mms_title)

brand_payload-Fits :
    (q : SendRequest) (key : Text) (b : BrandMessage) (p : Payload)
    → brand_payload q key b ≡ ok p
    → Fits p
unfolding brand_payload
brand_payload-Fits q key b p h = ground arith

brand_request-Fits :
    (rt : Runtime) (q : SendRequest) (p : Payload) → brand_request rt q ≡ ok p → Fits p
unfolding brand_request
brand_request-Fits rt q p h = elim (Option-cases q.brand) [
  | inl e ↦ ground (arith, e)
  | inr (b, e) ↦ elim (Option-cases q.sender_key) [
    | inl g ↦ ground (arith, e, g)
    | inr (key, g) ↦ ground (arith, e, g, brand_payload-Fits q key b p)
  ]
]

alimtalk_request-Fits :
    (rt : Runtime) (q : SendRequest) (p : Payload)
    → FitsFailover q.sms_failover
    → alimtalk_request rt q ≡ ok p
    → Fits p
unfolding alimtalk_request
alimtalk_request-Fits rt q p f h = ground arith

request-Fits :
    (rt : Runtime) (channel : Option MessageChannel) (q : SendRequest) (p : Payload)
    → channel ≢ none
    → (is_channel sms channel ≡ true → get_domestic_sms_byte_length q.rendered_body ≤ 2000)
    → FitsFailover q.sms_failover
    → request_of rt channel q ≡ ok p
    → Fits p
unfolding request_of
request-Fits rt none q p there b f h = absurd (there refl)
request-Fits rt (some sms) q p there b f h = sms_request-Fits rt q p (b refl) h
request-Fits rt (some alimtalk) q p there b f h = alimtalk_request-Fits rt q p f h
request-Fits rt (some brand_message) q p there b f h = brand_request-Fits rt q p h

send_request-Fits :
    (rt : Runtime) (r : MessageRequest) (c : Composed) (p : Payload)
    → r.resolved_channel ≢ none
    → compose rt r ≡ ok c
    → request_of rt r.resolved_channel (send_request_of r c) ≡ ok p
    → Fits p
unfolding send_request_of
send_request-Fits rt r c p there composed h =
    let (b, f) = compose-Fits rt r c composed in
    request-Fits rt r.resolved_channel (send_request_of r c) p there b f h

attempt-Fits :
    (rt : Runtime) (provider : Payload → Outcome WorkerError Json) (r : MessageRequest) (s : Store)
    → r.resolved_channel ≢ none
    → All Fits s.posted
    → All Fits (attempt rt provider r s).0.posted
unfolding attempt send_to_nhn
attempt-Fits rt provider r s there h = elim (Outcome-cases (compose rt r)) [
  | inr (x, e) ↦ ground (arith, e)
  | inl (c, e) ↦ elim (Outcome-cases (request_of rt r.resolved_channel (send_request_of r c))) [
    | inr (x, g) ↦ ground (arith, e, g)
    | inl (p, g) ↦ let fits = send_request-Fits rt r c p there e g in ground (arith, e, g, fits)
  ]
]

pub posted-conclude :
    (r : MessageRequest) (s : Store) (o : Outcome WorkerError Text)
    → (conclude r (s, o)).0.posted ≡ s.posted
unfolding conclude
posted-conclude r s (ok id) = refl
posted-conclude r s (err e) = ground arith

-- Whatever a run posts keeps the carrier's limits: the body of an SMS or MMS and the text of a
-- failover SMS have at most 2000 bytes, an MMS title has at most 40 and is not empty. The row must
-- have a channel.
pub process_message-Fits :
    (rt : Runtime) (provider : Payload → Outcome WorkerError Json) (s : Store) (r : MessageRequest)
    → s.request ≡ some r
    → r.resolved_channel ≢ none
    → All Fits s.posted
    → All Fits (process_message rt provider s).0.posted
process_message-Fits rt provider s r e there h = elim (Bool-cases (is_terminal r.status)) [
  | inl t ↦ rw (process_message_row rt provider s r e) (rw t h)
  | inr t ↦
      let a = attempt rt provider r (update begun s) in
      rw (process_message_row rt provider s r e) (
        rw t (
          rw (posted-conclude r a.0 a.1)
            (attempt-Fits rt provider r (update begun s) there (unfold update in h))))
]
