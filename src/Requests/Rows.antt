-- ===== src/Requests/Rows.antt =====
-- The rows of `messageRequest` as apps/api/src/message-requests/message-requests.service.ts keeps
-- them, the newest first, and the jobs of apps/api/src/queue/queue.service.ts that send them.
use noti.Common.{ℕ, Bool, ◌&&◌, List, ◌∷◌, Option, find?}
use noti.Text.{Text, text_eq}
use noti.Json.{Json}
use noti.Template.{Variables}
use noti.Worker.{MessageChannel, MessageRequestStatus}

pub record Row : Type 0 where
  pub id : Text
  pub owner_user_id : Text
  pub event_key : Text
  pub idempotency_key : Text
  pub recipient_phone : Text
  pub recipient_user_id : Option Text
  pub variables : Variables
  pub metadata : Json
  pub manual_body : Option Text
  pub scheduled_at : Option ℕ
  pub status : MessageRequestStatus
  pub resolved_channel : Option MessageChannel
  pub resolved_sender_number_id : Option Text
  pub resolved_sender_profile_id : Option Text
  pub resolved_template_id : Option Text
  pub resolved_provider_template_id : Option Text
  pub last_error_code : Option Text
  pub last_error_message : Option Text
  pub retry_of_request_id : Option Text

-- The rows, and the ids of the messages that were put in the queue, the latest first.
pub record Requests : Type 0 where
  pub rows : List Row
  pub queued : List Text

-- the unique index of owner and idempotency key
unfoldable pub has_key : Text → Text → Row → Bool
unfolding text_eq
has_key owner key r = text_eq r.owner_user_id owner && text_eq r.idempotency_key key

-- `findUnique` by that index
unfoldable pub find_by_key : Text → Text → Requests → Option Row
unfolding has_key
find_by_key owner key s = find? (has_key owner key) s.rows

-- `findFirst` by id and owner
unfoldable pub find_by_id : Text → Text → Requests → Option Row
unfolding text_eq
find_by_id owner id s = find? (λ r. text_eq r.id id && text_eq r.owner_user_id owner) s.rows

-- `messageRequest.create`
unfoldable pub add_row : Row → Requests → Requests
add_row r s = record s { rows = r ∷ s.rows }

-- `enqueueSendMessage`
unfoldable pub enqueue : Text → Requests → Requests
enqueue id s = record s { queued = id ∷ s.queued }
