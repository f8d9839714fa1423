-- ===== src/Quota.antt =====
-- apps/api/src/sms-quota/sms-quota.service.ts: the ledger of SMS usage and the monthly limit, with
-- the transactions that reserve usage for manual messages
-- (apps/api/src/message-requests/message-requests.service.ts) and for a bulk campaign
-- (apps/api/src/bulk-sms/bulk-sms.service.ts). The calendar of the runtime is a parameter.
use noti.Common.{
  ℕ, ◌+◌, ◌-◌, Bool, ◌&&◌, List, [], ◌∷◌, Option, none, some, if◌then◌else◌, find?, leb, ltb, ◌==◌,
  length, Outcome, ok, err, require, ◌>>=◌, ◌>>◌,
}
use noti.Text.{Text, text_eq}
pub mod Limit
mod Tests

pub record User : Type 0 where
  pub id : Text
  pub monthly_sms_limit : Option ℕ

-- what an entry is for: a message or a campaign, by its id
pub data Subject : Type 0 where
  message_request bulk_sms_campaign : Text → Subject

pub record Entry : Type 0 where
  pub owner_user_id : Text
  pub sender_number_id : Option Text
  pub quantity : ℕ
  pub usage_at : ℕ
  pub subject : Subject

pub record Db : Type 0 where
  pub users : List User
  pub ledger : List Entry

-- `limit_exceeded used limit`, and a user that is not there
pub data QuotaError : Type 0 where
  limit_exceeded : (used limit : ℕ) → QuotaError
  user_not_found : QuotaError

-- `DEFAULT_MONTHLY_LIMIT`
abbrev pub default_monthly_limit : ℕ
default_monthly_limit = 1000

unfoldable pub ensure_user : Db → Text → Outcome QuotaError (Text × ℕ)
unfolding text_eq
ensure_user db user_id = elim (find? (λ u. text_eq u.id user_id) db.users) [
  | none ↦ err user_not_found
  | some u ↦
      ok (u.id, elim u.monthly_sms_limit [ none ↦ default_monthly_limit | some limit ↦ limit ])
]

-- an entry of the owner from the start of the window up to its end
unfoldable pub is_in_window : Text → ℕ × ℕ → Entry → Bool
unfolding text_eq
is_in_window owner (start, end) e =
    text_eq e.owner_user_id owner && leb start e.usage_at && ltb e.usage_at end

-- the sum of the quantities; without entries it is null, which counts as 0
unfoldable pub used_in : Text → ℕ × ℕ → List Entry → ℕ
used_in owner window [] = 0
used_in owner window (e ∷ es) =
    let rest = used_in owner window es in
    if is_in_window owner window e then e.quantity + rest else rest

pub record Usage : Type 0 where
  pub monthly_limit : ℕ
  pub monthly_used : ℕ
  pub monthly_remaining : ℕ

-- `reserveUsage`
unfoldable pub reserve_usage : Entry → Db → Db
reserve_usage e db = record db { ledger = e ∷ db.ledger }

-- The loop of the manual messages: one entry for each message.
unfoldable pub reserve_each : Text → Option Text → ℕ → List Text → Db → Db
unfolding reserve_usage
reserve_each owner sender usage_at [] db = db
reserve_each owner sender usage_at (id ∷ ids) db = reserve_each owner sender usage_at ids (
    reserve_usage
      (record {
        owner_user_id = owner;
        sender_number_id = sender;
        quantity = 1;
        usage_at = usage_at;
        subject = message_request id;
      })
      db)

-- `kst_parts` is the year and the month, from 1, that `Intl.DateTimeFormat` gives for Asia/Seoul;
-- `utc year month` is `Date.UTC(year, month, 1, -9, 0, 0, 0)`, with the month from 0.
module _ (kst_parts : ℕ → ℕ × ℕ) (utc : ℕ → ℕ → ℕ) where
  unfoldable pub get_kst_month_window : ℕ → ℕ × ℕ
  get_kst_month_window base_date =
      let (year, month) = kst_parts base_date in
      (utc year (month - 1), if month == 12 then utc (year + 1) 0 else utc year month)

  unfoldable pub assert_can_reserve_usage : Db → Text → ℕ → ℕ → Outcome QuotaError Usage
  unfolding ensure_user
  assert_can_reserve_usage db owner quantity usage_at = do
    (user, limit) ← ensure_user db owner
    let used = used_in owner (get_kst_month_window usage_at) db.ledger
    require (leb (used + quantity) limit) (limit_exceeded used limit)
    ok (record { monthly_limit = limit; monthly_used = used; monthly_remaining = limit - used })

  -- The transaction of the manual messages, for the ids of the rows that it creates.
  unfoldable pub reserve_manual : Db → Text → Option Text → ℕ → List Text → Outcome QuotaError Db
  reserve_manual db owner sender usage_at ids = do
    usage ← assert_can_reserve_usage db owner (length ids) usage_at
    ok (reserve_each owner sender usage_at ids db)

  -- The transaction of a bulk campaign of `count` recipients.
  unfoldable pub reserve_campaign :
      Db → Text → Option Text → ℕ → (count : ℕ) → Text → Outcome QuotaError Db
  reserve_campaign db owner sender usage_at count campaign = do
    usage ← assert_can_reserve_usage db owner count usage_at
    ok (
        reserve_usage
          (record {
            owner_user_id = owner;
            sender_number_id = sender;
            quantity = count;
            usage_at = usage_at;
            subject = bulk_sms_campaign campaign;
          })
          db)
