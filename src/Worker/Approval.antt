-- ===== src/Worker/Approval.antt =====
-- Three facts about single runs: templates that are not approved, messages that were already sent,
-- and the opt-out line of advertisements.
use mathlib.Core.List.{append_assoc}
use noti.Common.{
  ◌≡◌, refl, true, false, none, some, ◌∷◌, ◌++◌, Outcome, ok, err, arith, inl, inr, Outcome-cases,
  Option-cases,
}
use noti.Text.{Text, trim}
use noti.Json.{Json, truthy, as_string}
use noti.Sms.{normalize_sms_text}
use noti.Sms.Format.{
  sms_advertisement_prefix, sms_advertisement_opt_out_text, sanitize_advertising_service_name,
  opt_out_line, advertisement_content,
}
use noti.Sms.Advertisement.{on_a_line, format_sms_body_advertisement}
use noti.Worker.{
  accepted, sms, alimtalk, is_terminal, send_failed, WorkerError, unrecoverable, said, Runtime,
  code, is_retryable, final_code, recorded_message,
}
use noti.Worker.Provider.{Payload}
use noti.Worker.Row.{MessageRequest, Store}
use noti.Worker.Compose.{
  compose, rendered_body, source_body, failover_of, is_template_approved, config_at,
  render_or_throw, brand_template_body, filled,
}
use noti.Worker.Dispatch.{
  update, process_message, attempt, conclude, begun, failed, is_unrecoverable,
}
use noti.Worker.Settled.{process_message_row}

render_or_throw_err :
    (rt : Runtime) (body : Text) (r : MessageRequest) (e : WorkerError)
    → render_or_throw rt body r.variables ≡ err e
    → is_unrecoverable e ≡ true
unfolding render_or_throw
render_or_throw_err rt body r e h = ground arith

brand_template_body_err :
    (rt : Runtime) (r : MessageRequest) (e : WorkerError)
    → brand_template_body rt r ≡ err e
    → is_unrecoverable e ≡ true
unfolding brand_template_body
brand_template_body_err rt r e h =
    elim (Option-cases (filled (as_string (config_at r "brandMessage" "templateBody")))) [
      | inl e' ↦ ground (arith, e', h)
      | inr (body, e') ↦ ground (arith, e', h, render_or_throw_err rt body r e)
    ]

source_body_err :
    (rt : Runtime) (r : MessageRequest) (e : WorkerError)
    → source_body rt r ≡ err e
    → is_unrecoverable e ≡ true
unfolding source_body
source_body_err rt r e h = elim (Option-cases r.resolved_template) [
  | inl g ↦ ground (arith, g, h, brand_template_body_err rt r e)
  | inr (template, g) ↦
      ground (arith, g, h, brand_template_body_err rt r e, render_or_throw_err rt template r e)
]

-- Composing a message throws only errors that are not retried.
compose_err :
    (rt : Runtime) (r : MessageRequest) (e : WorkerError)
    → compose rt r ≡ err e
    → is_unrecoverable e ≡ true
unfolding compose rendered_body failover_of
compose_err rt r e h = elim (Outcome-cases (source_body rt r)) [
  | inr (x, g) ↦ ground (arith, g, h, source_body_err rt r x)
  | inl (body, g) ↦ ground (arith, g, h)
]

module _ (rt : Runtime) (provider : Payload → Outcome WorkerError Json) where
  attempt_unapproved :
      (r q : MessageRequest) (s : Store)
      → s.request ≡ some q
      → r.resolved_channel ≡ some alimtalk
      → is_template_approved r ≡ false
      → ((attempt rt provider r s).0.posted ≡ s.posted)
        × ((q' : MessageRequest) × ((attempt rt provider r s).0.request ≡ some q'))
        × ((e : WorkerError) × ((attempt rt provider r s).1 ≡ err e) × (is_unrecoverable e ≡ true))
  unfolding attempt
  attempt_unapproved r q s e ch un = elim (Outcome-cases (compose rt r)) [
    | inr (x, g) ↦
        (ground (arith, g), (q, ground (arith, g, e)), (x, ground (arith, g), compose_err rt r x g))
    | inl (c, g) ↦ (
      ground (arith, g),
      (
        failed (code "ALIMTALK_TEMPLATE_NOT_APPROVED") (said "APR template is required") q,
        ground (arith, g, e),
      ),
      (unrecoverable (said "ALIMTALK template is not approved"), ground (arith, g), refl),
    )
  ]

conclude_unrecoverable :
    (r q : MessageRequest) (s : Store) (e : WorkerError)
    → s.request ≡ some q
    → is_unrecoverable e ≡ true
    → ((conclude r (s, err e)).0.posted ≡ s.posted)
      × ((q' : MessageRequest) × ((conclude r (s, err e)).0.request ≡ some q')
          × (q'.status ≡ send_failed)
          × (q'.last_error_code ≡ some (code "UNRECOVERABLE")))
unfolding conclude is_retryable final_code recorded_message
conclude_unrecoverable r q s (unrecoverable m) e u =
    (refl, (failed (code "UNRECOVERABLE") m q, ground arith, refl, refl))
conclude_unrecoverable r q s _ e u = cc

-- A run on an AlimTalk whose template is not approved posts nothing and leaves the message SEND_FAILED
-- with the code UNRECOVERABLE, if the message is there and not in a status at which a run stops.
pub process_message-unapproved :
    (rt : Runtime) (provider : Payload → Outcome WorkerError Json) (s : Store) (r : MessageRequest)
    → s.request ≡ some r
    → is_terminal r.status ≡ false
    → r.resolved_channel ≡ some alimtalk
    → is_template_approved r ≡ false
    → ((process_message rt provider s).0.posted ≡ s.posted)
      × ((q : MessageRequest) × ((process_message rt provider s).0.request ≡ some q)
          × (q.status ≡ send_failed)
          × (q.last_error_code ≡ some (code "UNRECOVERABLE")))
process_message-unapproved rt provider s r e t ch un =
    let s₀ = update begun s in
    let there : s₀.request ≡ some (begun r) = unfold update in ground (arith, e) in
    let same : s₀.posted ≡ s.posted = unfold update in refl in
    let a = attempt rt provider r s₀ in
    let (posted, (q, row), (x, thrown, u)) =
      attempt_unapproved rt provider r (begun r) s₀ there ch un in
    let (posted', (q', row', status, last)) = conclude_unrecoverable r q a.0 x row u in
    let run : process_message rt provider s ≡ conclude r (a.0, err x) =
      ground (arith, process_message_row rt provider s r e, thrown) in
    (ground (arith, run, posted, posted', same), (q', ground (arith, run, row'), status, last))

-- the message as one that waits for its first run
abbrev pub as_accepted : MessageRequest → MessageRequest
as_accepted r = record r { status = accepted }

opt_out_line_default : opt_out_line none ≡ sms_advertisement_opt_out_text
unfolding opt_out_line
opt_out_line_default = refl

-- An advertisement SMS always ends with the default opt-out line, whatever its manual body or
-- template says, so a body that was formatted with the owner's own 080 number loses it here.
pub rendered_body-opt_out :
    (rt : Runtime) (r : MessageRequest) (body : Text)
    → r.resolved_channel ≡ some sms
    → truthy (config_at r "smsAdvertisement" "enabled") ≡ true
    → rendered_body rt r ≡ ok body
    → (front : Text) × (body ≡ front ++ 10 ∷ sms_advertisement_opt_out_text)
unfolding rendered_body
rendered_body-opt_out rt r body ch ad h = elim (Outcome-cases (source_body rt r)) [
  | inr (x, e) ↦ absurd (ground (arith, e, h))
  | inl (raw, e) ↦
      let name = as_string (config_at r "smsAdvertisement" "advertisingServiceName") in
      let head = sms_advertisement_prefix ++ sanitize_advertising_service_name name in
      let middle = on_a_line (
        advertisement_content (trim (normalize_sms_text raw))
          (sanitize_advertising_service_name name)) in
      (
        head ++ middle,
        ground (
          arith,
          e,
          h,
          format_sms_body_advertisement raw name none,
          append_assoc head middle (10 ∷ sms_advertisement_opt_out_text),
          opt_out_line_default,
        ),
      )
]
