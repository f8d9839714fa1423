-- ===== src/Worker/Row.antt =====
-- The rows that the worker reads and writes, and what the provider was sent.
use noti.Common.{ℕ, Bool, Option, List}
use noti.Text.{Text}
use noti.Json.{Json}
use noti.Template.{Variables}
use noti.Worker.{MessageChannel, MessageRequestStatus, Message, ErrorCode}
use noti.Worker.Provider.{Payload}

pub record ProviderTemplate : Type 0 where
  pub is_approved : Bool
  pub template_code : Option Text
  pub kakao_template_code : Option Text
  pub nhn_template_id : Option Text

-- The columns of `messageRequest`, and of the rows that it includes, that the worker reads or writes.
pub record MessageRequest : Type 0 where
  pub status : MessageRequestStatus
  pub attempt_count : ℕ
  pub resolved_channel : Option MessageChannel
  pub recipient_phone : Text
  pub manual_body : Option Text
  pub metadata : Json
  pub variables : Variables
  pub scheduled_at : Option ℕ
  pub resolved_template : Option Text
  pub resolved_sender_number : Option Text
  pub resolved_sender_profile : Option Text
  pub resolved_provider_template : Option ProviderTemplate
  pub nhn_message_id : Option Text
  pub last_error_code : Option ErrorCode
  pub last_error_message : Option Message

pub record MessageAttempt : Type 0 where
  pub attempt_number : ℕ
  pub error : Option (ErrorCode × Message)

pub record DeadLetter : Type 0 where
  pub error_message : Message

-- What the database and the provider hold of one message: its row, the rows that refer to it, the
-- latest first, and the bodies that were posted.
pub record Store : Type 0 where
  pub request : Option MessageRequest
  pub attempts : List MessageAttempt
  pub dead_letters : List DeadLetter
  pub posted : List Payload
