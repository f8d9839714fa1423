-- ===== src/Worker.antt =====
-- apps/worker/src/index.ts: the queue worker. This file holds the data that its parts share: the
-- channels and statuses of the database, and the errors that processing throws.
pub mod Provider
pub mod Row
pub mod Compose
pub mod Dispatch
pub mod Job
pub mod Settled
pub mod Attempts
pub mod Sending
pub mod Approval
pub mod Bulk
pub mod Campaigns
pub mod Marks
pub mod Posting
pub mod Answers
pub mod Refusals
mod Tests
use noti.Common.{
  ℕ, String, Bool, true, false, ◌||◌, Option, none, some, List, ◌==◌, leb, if◌then◌else◌,
}
use noti.Text.{Text}
use noti.Json.{Json}
use noti.Template.{Variables, Value}

pub data MessageChannel : Type 0 where
  sms alimtalk brand_message : MessageChannel

pub data MessageRequestStatus : Type 0 where
  accepted processing sent_to_provider delivered delivery_failed send_failed canceled dead :
      MessageRequestStatus

-- The statuses that neither the worker nor its failure handler changes.
unfoldable pub is_terminal : MessageRequestStatus → Bool
is_terminal accepted = false
is_terminal processing = false
is_terminal sent_to_provider = false
is_terminal delivered = true
is_terminal delivery_failed = true
is_terminal send_failed = true
is_terminal canceled = true
is_terminal dead = true

-- A message: a constant of the source, or a text that was reported or composed.
pub data Message : Type 0 where
  said : String → Message
  reported : Text → Message

-- What an AxiosError carries: the response's status, its `data.header.resultMessage` and
-- `data.message` where they are truthy, and the error's own message.
pub record AxiosFailure : Type 0 where
  pub status : Option ℕ
  pub result_message : Option Message
  pub data_message : Option Message
  pub message : Message

pub data WorkerError : Type 0 where
  unrecoverable : Message → WorkerError
  axios : AxiosFailure → WorkerError
  other : Message → WorkerError

unfoldable pub is_retryable_status : Option ℕ → Bool
is_retryable_status none = true
is_retryable_status (some s) = if s == 0 then true else s == 429 || leb 500 s

unfoldable pub is_retryable : WorkerError → Bool
unfolding is_retryable_status
is_retryable (unrecoverable m) = false
is_retryable (axios f) = is_retryable_status f.status
is_retryable (other m) = true

-- `error.message`
unfoldable pub own_message : WorkerError → Message
own_message (unrecoverable m) = m
own_message (axios f) = f.message
own_message (other m) = m

-- `a || b`, where none is what is falsy
abbrev pub or_message : Option Message → Message → Message
or_message none m = m
or_message (some t) m = t

-- the message that the database keeps
unfoldable pub recorded_message : WorkerError → Message
recorded_message (axios f) = or_message f.result_message (or_message f.data_message f.message)
recorded_message (unrecoverable m) = m
recorded_message (other m) = m

-- An error code column: a constant, or the digits of an HTTP status.
pub data ErrorCode : Type 0 where
  code : String → ErrorCode
  http : ℕ → ErrorCode

-- `String(status || fallback)`
abbrev pub status_code : Option ℕ → String → ErrorCode
status_code none fallback = code fallback
status_code (some s) fallback = if s == 0 then code fallback else http s

-- the code of a `messageAttempt`
unfoldable pub attempt_code : WorkerError → ErrorCode
attempt_code (axios f) = status_code f.status "NETWORK"
attempt_code _ = code "WORKER_ERROR"

-- the code of a request that will not be retried
unfoldable pub final_code : WorkerError → ErrorCode
final_code (axios f) = status_code f.status "4XX"
final_code _ = code "UNRECOVERABLE"

-- What the environment configures, and what the JavaScript runtime computes: texts of numbers,
-- dates, the properties of `Object.prototype`.
pub record Runtime : Type 0 where
  pub is_alimtalk_mock_mode : Bool
  pub is_sms_api_mock_mode : Bool
  -- `Number(value)` of an item, if it is a positive integer
  pub positive_integer : Json → Option ℕ
  -- `Number(value) === 0`
  pub is_zero : Json → Bool
  -- `String(value)`
  pub text_of : Json → Text
  -- `String(Number(value))`
  pub number_text : Json → Text
  -- `Date.now()` as text
  pub now_text : Text
  pub inherited : Text → Option Value
