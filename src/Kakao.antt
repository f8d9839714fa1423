-- ===== src/Kakao.antt =====
-- What the campaigns of AlimTalk and brand messages share
-- (apps/api/src/bulk-alimtalk/bulk-alimtalk.service.ts and
-- apps/api/src/bulk-brand-message/bulk-brand-message.service.ts): the sender profile, the choice of
-- the users, and the parameters of a recipient, which are always an object.
pub mod Selected
pub mod Alimtalk
pub mod Brand
mod Tests
use noti.Common.{
  ℕ, Bool, true, false, not, ◌&&◌, List, [], ◌∷◌, Option, none, some, if◌then◌else◌, is_empty,
  find?, length, leb, ◌==◌, Outcome, ok, err, ◌>>=◌, ◌>>◌, require,
}
use noti.Text.{Text, text_eq}
use noti.Json.{Json}
use noti.Requests.{SenderProfileStatus, active, blocked, dormant, unknown}
use noti.Bulk.Users.{
  ManagedUser, DraftError, schedule_not_a_date, schedule_not_in_future, no_user_selected,
  too_many_users, some_user_not_found, no_channel, channel_stopped, parameters_of,
}
use noti.Bulk.Rows.{normalize_user_ids, find_users}

pub record SenderProfile : Type 0 where
  pub id : Text
  pub owner_user_id : Text
  pub sender_key : Text
  pub status : SenderProfileStatus

-- BLOCKED or DORMANT
abbrev pub is_stopped : SenderProfileStatus → Bool
is_stopped active = false
is_stopped blocked = true
is_stopped dormant = true
is_stopped unknown = false

abbrev pub is_profile_of : Text → Text → SenderProfile → Bool
is_profile_of owner id p = text_eq p.id id && text_eq p.owner_user_id owner

-- the profile that is found, in a status that may send
abbrev pub profile_or_error : Option SenderProfile → Outcome DraftError SenderProfile
profile_or_error none = err no_channel
profile_or_error (some p) = if is_stopped p.status then err channel_stopped else ok p

-- `parse_date` is `new Date(value).getTime()`, where it is a number.
unfoldable pub normalize_scheduled_at :
    (parse_date : Text → Option ℕ) (now : ℕ) → Option Text → Outcome DraftError (Option ℕ)
normalize_scheduled_at parse_date now none = ok none
normalize_scheduled_at parse_date now (some value) =
    if is_empty value then ok none else elim (parse_date value) [
      | none ↦ err schedule_not_a_date
      | some t ↦ if leb t now then err schedule_not_in_future else ok (some t)
    ]

-- The checks of the users and the profile, in their order.
unfoldable pub check_selection :
    (owner profile_id : Text) (user_ids : List Text)
    → List SenderProfile
    → List ManagedUser
    → Outcome DraftError SenderProfile
unfolding normalize_user_ids find_users text_eq
check_selection owner profile_id user_ids profiles users = do
  let ids = normalize_user_ids user_ids
  require (not (is_empty ids)) no_user_selected
  require (leb (length ids) 1000) too_many_users
  profile ← profile_or_error (find? (is_profile_of owner profile_id) profiles)
  require (length ids == length (find_users owner ids users)) some_user_not_found
  ok profile

-- `buildRecipientTemplateParameters` of the two services
unfoldable pub template_parameters_for :
    (stringify : Json → Text) (is_inherited : Text → Bool)
    → List Text
    → List (Text × Text)
    → ManagedUser
    → Outcome DraftError (Option (List (Text × Text)))
unfolding parameters_of
template_parameters_for stringify is_inherited required mappings u = do
  parameters ← parameters_of stringify is_inherited u mappings required
  ok (some parameters)
