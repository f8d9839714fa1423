-- ===== src/Worker/Job.antt =====
-- The life of a message's job. The queue (BullMQ) is outside: it runs the processor, tells the
-- `failed` listener of an error, fails a job at once on an UnrecoverableError, and otherwise runs it
-- again until the attempts of the job are used up. `enqueueSendMessage` gives it eight.
use noti.Common.{ℕ, zero, suc, ◌+◌, Outcome, ok, err, if◌then◌else◌}
use noti.Json.{Json}
use noti.Worker.{WorkerError, Runtime}
use noti.Worker.Provider.{Payload}
use noti.Worker.Row.{Store}
use noti.Worker.Dispatch.{process_message, on_failed, is_unrecoverable}

-- `attempts = 8`
abbrev pub message_attempts : ℕ
message_attempts = 8

module _ (rt : Runtime) (provider : ℕ → Payload → Outcome WorkerError Json) where
  -- The rest of a job with `left` runs to go after `made`; the provider may answer each run
  -- differently.
  unfoldable pub run_job : ℕ → ℕ → Store → Store
  run_job zero made s = s
  run_job (suc left) made s =
      let (s', result) = process_message rt (provider made) s in
      elim result [
        | ok done ↦ s'
        | err e ↦
            let next = on_failed (suc made) (suc made + left) e s' in
            let again = run_job left (suc made) next in if is_unrecoverable e then next else again
      ]
