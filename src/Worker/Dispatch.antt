-- ===== src/Worker/Dispatch.antt =====
-- `processMessage` of apps/worker/src/index.ts: one run of a message's job, from the guards on its
-- row to the last update. Reads and writes of the database succeed; the provider, a parameter,
-- answers or throws.
use noti.Common.{
  ℕ, ◌+◌, Bool, true, false, not, ◌||◌, ◌&&◌, leb, ◌∷◌, Option, none, some, if◌then◌else◌, Outcome,
  ok, err, ◌>>=◌,
}
use noti.Text.{Text}
use noti.Json.{Json}
use noti.Worker.{
  alimtalk, brand_message, processing, sent_to_provider, send_failed, dead, is_terminal,
  WorkerError, unrecoverable, said, code, is_retryable, recorded_message, attempt_code, final_code,
  own_message, Runtime, ErrorCode, Message,
}
use noti.Worker.Provider.{Payload, request_of, read_response}
use noti.Worker.Row.{MessageRequest, Store}
use noti.Worker.Compose.{
  Composed, compose, is_template_approved, brand_message_of, send_request_of, is_channel,
}

-- `messageRequest.update`; the row is there
unfoldable pub update : (MessageRequest → MessageRequest) → Store → Store
update f s = record s { request = elim s.request [ none ↦ none | some r ↦ some (f r) ] }

-- `messageAttempt.create`
unfoldable pub add_attempt : ℕ → Option (ErrorCode × Message) → Store → Store
add_attempt number error s = record s {
  attempts = record { attempt_number = number; error = error } ∷ s.attempts;
}

-- `status: 'PROCESSING', attemptCount: { increment: 1 }`
abbrev pub begun : MessageRequest → MessageRequest
begun r = record r { status = processing; attempt_count = r.attempt_count + 1 }

abbrev pub sent : Text → MessageRequest → MessageRequest
sent id r = record r {
  status = sent_to_provider;
  nhn_message_id = some id;
  last_error_code = none;
  last_error_message = none;
}

abbrev pub failed : ErrorCode → Message → MessageRequest → MessageRequest
failed c m r = record r {
  status = send_failed;
  last_error_code = some c;
  last_error_message = some m;
}

abbrev pub is_unrecoverable : WorkerError → Bool
is_unrecoverable (unrecoverable m) = true
is_unrecoverable _ = false

-- the failure handler's update, but for the statuses that its `where` leaves out
abbrev pub kill : Message → MessageRequest → MessageRequest
kill m r = if is_terminal r.status then r else record r {
  status = dead;
  last_error_code = some (code "DEAD");
  last_error_message = some m;
}

abbrev is_none : {A : Type 0} → Option A → Bool
is_none none = true
is_none (some a) = false

-- what follows the `try` block's last call, and the `catch` block
unfoldable pub conclude :
    MessageRequest → Store × Outcome WorkerError Text → Store × Outcome WorkerError Unit
unfolding update add_attempt
conclude r (s, ok id) = (update (sent id) (add_attempt (r.attempt_count + 1) none s), ok tt)
conclude r (s, err e) =
    let noted = add_attempt (r.attempt_count + 1) (some (attempt_code e, recorded_message e)) s in
    if is_retryable e then (noted, err e) else (
      update (failed (final_code e) (recorded_message e)) noted,
      err (unrecoverable (own_message e)),
    )

module _ (rt : Runtime) (provider : Payload → Outcome WorkerError Json) where
  -- `sendToNhn`: the checks, the post, and the answer
  unfoldable pub send_to_nhn : MessageRequest → Composed → Store → Store × Outcome WorkerError Text
  send_to_nhn r c s = elim (request_of rt r.resolved_channel (send_request_of r c)) [
    | err e ↦ (s, err e)
    | ok p ↦ (
      record s { posted = p ∷ s.posted },
      (do response ← provider p; read_response rt p response),
    )
  ]

  -- the `try` block, up to the message id
  unfoldable pub attempt : MessageRequest → Store → Store × Outcome WorkerError Text
  unfolding update
  attempt r s = elim (compose rt r) [
    | err e ↦ (s, err e)
    | ok c ↦
        if is_channel alimtalk r.resolved_channel && not (is_template_approved r)
        then (
          update (failed (code "ALIMTALK_TEMPLATE_NOT_APPROVED") (said "APR template is required"))
              s,
          err (unrecoverable (said "ALIMTALK template is not approved")),
        )
        else if is_channel brand_message r.resolved_channel && is_none (brand_message_of r)
        then (s, err (unrecoverable (said "Brand message metadata is missing")))
        else send_to_nhn r c s
  ]

  unfoldable pub process_message : Store → Store × Outcome WorkerError Unit
  process_message s = elim s.request [
    | none ↦ (s, ok tt)
    | some r ↦ if is_terminal r.status then (s, ok tt) else conclude r (attempt r (update begun s))
  ]

-- The listener of `failed` for a message's job, after `made` of `attempts` runs.
unfoldable pub on_failed : ℕ → ℕ → WorkerError → Store → Store
unfolding update
on_failed made attempts e s =
    if leb attempts made || is_unrecoverable e
    then record (update (kill (own_message e)) s) {
      dead_letters = record { error_message = own_message e } ∷ s.dead_letters;
    }
    else s
