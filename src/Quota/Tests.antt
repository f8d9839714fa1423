-- ===== src/Quota/Tests.antt =====
-- A user with a limit of three, in a calendar whose months have ten moments.
use noti.Common.{ℕ, ◌+◌, ◌*◌, ◌/◌, ◌%◌, ◌≡◌, ◌≤◌, ◌<◌, refl, List, [], ◌∷◌, none, some}
use noti.Text.{Text, units}
use noti.Quota.{Db, Entry, bulk_sms_campaign, message_request, get_kst_month_window}

abbrev parts : ℕ → ℕ × ℕ
parts t = (t / 120, t / 10 % 12 + 1)

abbrev start_of : ℕ → ℕ → ℕ
start_of year month = year * 120 + month * 10

december : get_kst_month_window parts start_of 115 ≡ (110, 120)
unfolding get_kst_month_window
december = refl

abbrev db : Db
db = record {
  users = record { id = units "u"; monthly_sms_limit = some 3 } ∷ [];
  ledger =
      record {
        owner_user_id = units "u";
        sender_number_id = none;
        quantity = 1;
        usage_at = 112;
        subject = bulk_sms_campaign (units "c");
      }
      ∷ [];
}

abbrev sent : Text → ℕ → Entry
sent id n = record {
  owner_user_id = units "u";
  sender_number_id = none;
  quantity = n;
  usage_at = 115;
  subject = message_request id;
}

abbrev after_messages : Db
after_messages = record db { ledger = sent (units "b") 1 ∷ sent (units "a") 1 ∷ db.ledger }

abbrev after_campaign : Db
after_campaign = record db {
  ledger = record (sent [] 2) { subject = bulk_sms_campaign (units "d") } ∷ db.ledger;
}

same_month : 110 ≤ 115 → 115 < 120 → get_kst_month_window parts start_of 115 ≡ (110, 120)
same_month from to = december

abbrev three : List Text
three = units "a" ∷ units "b" ∷ units "c" ∷ []
