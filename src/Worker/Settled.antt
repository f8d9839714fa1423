-- ===== src/Worker/Settled.antt =====
-- How a message's job ends.
use noti.Common.{
  ℕ, zero, suc, ◌+◌, ◌≡◌, refl, Bool, true, false, ◌||◌, none, some, Outcome, ok, err, arith, inl,
  inr, if◌then◌else◌, Outcome-cases, Option-cases, leb,
}
use noti.Text.{Text}
use noti.Json.{Json}
use noti.Worker.{MessageRequestStatus, sent_to_provider, is_terminal, WorkerError, Runtime}
use noti.Worker.Provider.{Payload}
use noti.Worker.Row.{MessageRequest, Store}
use noti.Worker.Dispatch.{
  update, process_message, attempt, conclude, send_to_nhn, on_failed, is_unrecoverable, begun,
}
use noti.Worker.Job.{run_job, message_attempts}

-- The message was handed to the provider, or will not be.
unfoldable pub is_settled : MessageRequestStatus → Bool
unfolding is_terminal
is_settled sent_to_provider = true
is_settled s = is_terminal s

settled_of_terminal : (s : MessageRequestStatus) → is_terminal s ≡ true → is_settled s ≡ true
unfolding is_settled
settled_of_terminal sent_to_provider h = refl
settled_of_terminal _ h = h

abbrev pub row_passes : (MessageRequest → Bool) → Store → Bool
row_passes test s = elim s.request [ none ↦ false | some r ↦ test r ]

abbrev pub has_row : Store → Bool
has_row = row_passes (λ r. true)

has_row-conclude :
    (r : MessageRequest) (s : Store) (o : Outcome WorkerError Text)
    → has_row s ≡ true
    → has_row (conclude r (s, o)).0 ≡ true
unfolding conclude
has_row-conclude r s (ok id) h = ground arith
has_row-conclude r s (err e) h = ground arith

conclude_ok :
    (r : MessageRequest) (s : Store) (o : Outcome WorkerError Text)
    → has_row s ≡ true
    → (conclude r (s, o)).1 ≡ ok tt
    → row_passes (λ q. is_settled q.status) (conclude r (s, o)).0 ≡ true
unfolding conclude is_settled
conclude_ok r s (ok id) h e = ground arith
conclude_ok r s (err x) h e = ground arith

module _ (rt : Runtime) (provider : Payload → Outcome WorkerError Json) where
  has_row-attempt :
      (r : MessageRequest) (s : Store)
      → has_row s ≡ true
      → has_row (attempt rt provider r s).0 ≡ true
  unfolding attempt send_to_nhn
  has_row-attempt r s h = ground arith

  -- a run on a row that is there
  pub process_message_row :
      (s : Store) (r : MessageRequest)
      → s.request ≡ some r
      → process_message rt provider s ≡ (
          if is_terminal r.status
          then (s, ok tt)
          else conclude r (attempt rt provider r (update begun s)))
  unfolding process_message
  process_message_row s r e = ground arith

  has_row-process_message :
      (s : Store) → has_row s ≡ true → has_row (process_message rt provider s).0 ≡ true
  has_row-process_message s h = elim (Option-cases s.request) [
    | inl e ↦ ground arith
    | inr (r, e) ↦
        let a = attempt rt provider r (update begun s) in
        let kept : has_row (update begun s) ≡ true = unfold update in ground arith in
        ground (
          arith,
          process_message_row s r e,
          has_row-attempt r (update begun s) kept,
          has_row-conclude r a.0 a.1,
        )
  ]

  process_message_ok :
      (s : Store)
      → has_row s ≡ true
      → (process_message rt provider s).1 ≡ ok tt
      → row_passes (λ q. is_settled q.status) (process_message rt provider s).0 ≡ true
  process_message_ok s h done = elim (Option-cases s.request) [
    | inl e ↦ ground arith
    | inr (r, e) ↦
        let a = attempt rt provider r (update begun s) in
        let kept : has_row (update begun s) ≡ true = unfold update in ground arith in
        ground (
          arith,
          process_message_row s r e,
          settled_of_terminal r.status,
          has_row-attempt r (update begun s) kept,
          conclude_ok r a.0 a.1,
        )
  ]

has_row-on_failed :
    (made attempts : ℕ) (e : WorkerError) (s : Store)
    → has_row s ≡ true
    → has_row (on_failed made attempts e s) ≡ true
unfolding on_failed
has_row-on_failed made attempts e s h = ground arith

on_failed_final :
    (made attempts : ℕ) (e : WorkerError) (s : Store)
    → has_row s ≡ true
    → (leb attempts made || is_unrecoverable e) ≡ true
    → row_passes (λ q. is_settled q.status) (on_failed made attempts e s) ≡ true
unfolding on_failed is_settled
on_failed_final made attempts e s h f = ground arith

module _ (rt : Runtime) (provider : ℕ → Payload → Outcome WorkerError Json) where
  run_job_settles :
      (left made : ℕ) (s : Store)
      → has_row s ≡ true
      → row_passes (λ q. is_settled q.status) (run_job rt provider (suc left) made s) ≡ true
  unfolding run_job
  run_job_settles zero made s h = elim (Outcome-cases (process_message rt (provider made) s).1) [
    | inl (done, p) ↦ rw (p, run_job) (process_message_ok rt (provider made) s h p)
    | inr (e, p) ↦
        let s' = (process_message rt (provider made) s).0 in
        ground (
          arith,
          p,
          on_failed_final (suc made) (suc made + 0) e s'
              (has_row-process_message rt (provider made) s h),
        )
  ]
  run_job_settles (suc left) made s h =
      elim (Outcome-cases (process_message rt (provider made) s).1) [
        | inl (done, p) ↦ ground (arith, process_message_ok rt (provider made) s h, p)
        | inr (e, p) ↦
            let s' = (process_message rt (provider made) s).0 in
            let total = suc made + suc left in
            let here = has_row-process_message rt (provider made) s h in
            let next = on_failed (suc made) total e s' in
            ground (
              arith,
              p,
              on_failed_final (suc made) total e s' here,
              run_job_settles left (suc made) next (has_row-on_failed (suc made) total e s' here),
            )
      ]

  -- When the job of a message ends, whatever the provider answered in each of its up to eight runs,
  -- the message is settled: it was handed to the provider or has a terminal status, so none is left
  -- ACCEPTED or PROCESSING.
  pub run_job-settled :
      (s : Store)
      → has_row s ≡ true
      → row_passes (λ q. is_settled q.status) (run_job rt provider message_attempts 0 s) ≡ true
  run_job-settled s h = run_job_settles 7 0 s h
