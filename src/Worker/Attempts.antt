-- ===== src/Worker/Attempts.antt =====
-- What runs leave alone, and the numbering of attempts.
use noti.Common.{
  ℕ, zero, suc, ◌+◌, ◌≡◌, refl, ◌∙◌, true, Option, none, some, List, [], ◌∷◌, Outcome, ok, err,
  arith, inl, inr, length, Bool-cases, Outcome-cases, Option-cases,
}
use noti.Text.{Text}
use noti.Json.{Json}
use noti.Worker.{is_terminal, WorkerError, Runtime}
use noti.Worker.Provider.{Payload}
use noti.Worker.Row.{MessageRequest, MessageAttempt, Store}
use noti.Worker.Dispatch.{
  update, process_message, attempt, conclude, send_to_nhn, on_failed, begun, is_unrecoverable,
}
use noti.Worker.Settled.{process_message_row}
use noti.Worker.Job.{run_job}

-- A message whose status is terminal is left as it is by its job, whatever is left of the job:
-- nothing is posted, no attempt is added and the row does not change.
pub run_job-terminal :
    (rt : Runtime) (provider : ℕ → Payload → Outcome WorkerError Json) (left made : ℕ) (s : Store)
    (r : MessageRequest)
    → s.request ≡ some r
    → is_terminal r.status ≡ true
    → run_job rt provider left made s ≡ s
unfolding run_job
run_job-terminal rt provider zero made s r e h = refl
run_job-terminal rt provider (suc left) made s r e h =
    ground (arith, process_message_row rt (provider made) s r e)

-- The attempts, the latest first, are numbered from one.
abbrev pub IsNumbered : List MessageAttempt → Type 0
IsNumbered [] = Unit
IsNumbered (a ∷ rest) = (a.attempt_number ≡ suc (length rest)) × IsNumbered rest

abbrev pub count_of : Option MessageRequest → ℕ → ℕ
count_of none n = n
count_of (some r) n = r.attempt_count

-- The row counts its attempts, and they are numbered without a gap.
pub record IsCounted (s : Store) : Type 0 where
  pub counted : count_of s.request (length s.attempts) ≡ length s.attempts
  pub numbered : IsNumbered s.attempts

attempt_keeps :
    (rt : Runtime) (provider : Payload → Outcome WorkerError Json) (r : MessageRequest) (s : Store)
    → ((attempt rt provider r s).0.attempts ≡ s.attempts)
      × (count_of (attempt rt provider r s).0.request 0 ≡ count_of s.request 0)
unfolding attempt send_to_nhn
attempt_keeps rt provider r s = ground arith

conclude-IsCounted :
    (r : MessageRequest) (s : Store) (o : Outcome WorkerError Text)
    → length s.attempts ≡ r.attempt_count
    → IsNumbered s.attempts
    → count_of s.request 0 ≡ r.attempt_count + 1
    → IsCounted (conclude r (s, o)).0
unfolding conclude
conclude-IsCounted r s (ok id) h k c = ground arith
conclude-IsCounted r s (err e) h k c = ground arith

absent :
    (rt : Runtime) (provider : Payload → Outcome WorkerError Json) (s : Store)
    → s.request ≡ none
    → (process_message rt provider s).0 ≡ s
unfolding process_message
absent rt provider s e = ground arith

process_message-IsCounted :
    (rt : Runtime) (provider : Payload → Outcome WorkerError Json) (s : Store)
    → IsCounted s
    → IsCounted (process_message rt provider s).0
process_message-IsCounted rt provider s h = elim (Option-cases s.request) [
  | inl e ↦ rw (absent rt provider s e) h
  | inr (r, e) ↦ elim (Bool-cases (is_terminal r.status)) [
    | inl t ↦ rw (process_message_row rt provider s r e) (rw t h)
    | inr t ↦
        let s₀ = update begun s in
        let a = attempt rt provider r s₀ in
        let kept = attempt_keeps rt provider r s₀ in
        let old : length s.attempts ≡ r.attempt_count = ground (arith, h.counted, e) in
        let row : count_of s₀.request 0 ≡ r.attempt_count + 1 = unfold update in ground arith in
        let same : s₀.attempts ≡ s.attempts = unfold update in refl in
        rw (process_message_row rt provider s r e) (
          rw t (
            conclude-IsCounted r a.0 a.1 (rw kept.0 (rw same old)) (rw kept.0 (rw same h.numbered))
              (kept.1 ∙ row)))
  ]
]

on_failed-IsCounted :
    (made attempts : ℕ) (e : WorkerError) (s : Store)
    → IsCounted s
    → IsCounted (on_failed made attempts e s)
unfolding on_failed
on_failed-IsCounted made attempts e s h = ground arith

-- Through a whole job, whatever the provider answers, the row's attempt count stays the number of
-- recorded attempts, and these stay numbered from one without a gap.
pub run_job-IsCounted :
    (rt : Runtime) (provider : ℕ → Payload → Outcome WorkerError Json) (left made : ℕ) (s : Store)
    → IsCounted s
    → IsCounted (run_job rt provider left made s)
unfolding run_job
run_job-IsCounted rt provider zero made s h = h
run_job-IsCounted rt provider (suc left) made s h =
    let after = process_message-IsCounted rt (provider made) s h in
    elim (Outcome-cases (process_message rt (provider made) s).1) [
      | inl (done, p) ↦ rw (p, run_job) after
      | inr (e, p) ↦
          let next =
            on_failed (suc made) (suc made + left) e (process_message rt (provider made) s).0 in
          let noted =
            on_failed-IsCounted (suc made) (suc made + left) e
              (process_message rt (provider made) s).0 after in
          let rest = run_job-IsCounted rt provider left (suc made) next noted in
          elim (Bool-cases (is_unrecoverable e)) [
            | inl u ↦ rw (p, run_job) (rw u noted)
            | inr u ↦ rw (p, run_job) (rw u rest)
          ]
    ]
