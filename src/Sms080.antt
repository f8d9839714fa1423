-- ===== src/Sms080.antt =====
-- apps/api/src/sms-080/sms-080.service.ts: the applications for opt-out numbers and their review, and
-- the opt-out text that apps/api/src/message-requests/message-requests.service.ts and
-- apps/api/src/bulk-sms/bulk-sms.service.ts make of an approved number. The unique index on owner and
-- number is the database's.
use noti.Common.{
  ℕ, Bool, true, false, not, ◌&&◌, ◌||◌, List, [], ◌∷◌, ◌++◌, Option, none, some, ◌==◌,
  if◌then◌else◌, is_empty, any, all, find?, map, length, take, drop, Outcome, ok, err, ◌>>=◌, ◌>>◌,
  require,
}
use noti.Text.{Text, units, text_eq, trim, digits_only, is_digit}
use noti.Sms.{or_text, or_empty}
use noti.Sms.Format.{after_prefix}
pub mod Review
pub mod Taken
pub mod OptOut
mod Tests

pub data ServiceType : Type 0 where
  nhn_managed external : ServiceType

pub data ServiceStatus : Type 0 where
  submitted approved rejected : ServiceStatus

pub record Application : Type 0 where
  pub id : Text
  pub owner_user_id : Text
  pub type : ServiceType
  pub status : ServiceStatus
  pub unsubscribe_number : Option Text
  pub business_name : Text
  pub provider_name : Option Text
  pub review_memo : Option Text
  pub reviewed_by : Option Text
  pub approved_at : Option ℕ

pub record Owner : Type 0 where
  pub id : Text
  pub email : Option Text
  pub login_id : Option Text
  pub provider_user_id : Text

pub record CreateDto : Type 0 where
  pub type : ServiceType
  pub unsubscribe_number : Option Text
  pub business_name : Option Text
  pub provider_name : Option Text

-- The exceptions of the service, and the database's refusal to write a number twice.
pub data Error080 : Type 0 where
  owner_not_found pending_application number_submitted number_registered : Error080
  application_not_found number_missing not_an_080_number number_in_use unique_violation : Error080

abbrev pub is_managed : ServiceType → Bool
is_managed nhn_managed = true
is_managed external = false

abbrev pub is_submitted : ServiceStatus → Bool
is_submitted submitted = true
is_submitted _ = false

abbrev pub is_approved : ServiceStatus → Bool
is_approved approved = true
is_approved _ = false

abbrev pub is_rejected : ServiceStatus → Bool
is_rejected rejected = true
is_rejected _ = false

-- `a?.trim()`
abbrev pub trimmed : Option Text → Text
trimmed t = trim (or_empty t)

-- `memo?.trim() || null`
abbrev pub memo_of : Option Text → Option Text
memo_of m = if is_empty (trimmed m) then none else some (trimmed m)

unfoldable pub build_owner_label : Owner → Text
unfolding trim
build_owner_label o =
    or_text (or_text (or_text (trimmed o.email) (trimmed o.login_id)) o.provider_user_id) o.id

-- `/^080\d{7,8}$/`
unfoldable pub is_080 : Text → Bool
unfolding after_prefix is_digit
is_080 digits = elim (after_prefix (units "080") digits) [
  | none ↦ false
  | some rest ↦ (length rest == 7 || length rest == 8) && all is_digit rest
]

unfoldable pub normalize_080_number : Option Text → Outcome Error080 Text
unfolding digits_only is_080
normalize_080_number value = do
  let digits = digits_only (or_empty value)
  require (is_080 digits) not_an_080_number
  ok digits

abbrev pub has_number : Text → Application → Bool
has_number number a = elim a.unsubscribe_number [ none ↦ false | some n ↦ text_eq n number ]

unfoldable pub is_of : Text → Application → Bool
unfolding text_eq
is_of owner a = text_eq a.owner_user_id owner

-- another application of the owner has the number
unfoldable pub is_other_with : Text → Text → Text → Application → Bool
unfolding is_of text_eq
is_other_with owner number id a = is_of owner a && has_number number a && not (text_eq a.id id)

-- `update`, which the unique index may refuse
unfoldable pub update : Application → List Application → Outcome Error080 (List Application)
unfolding is_other_with text_eq
update a rows =
    if elim a.unsubscribe_number [
      | none ↦ false
      | some number ↦ any (is_other_with a.owner_user_id number a.id) rows
    ]
    then err unique_violation
    else ok (map (λ b. if text_eq b.id a.id then a else b) rows)

-- `create`, with a new id
unfoldable pub create : Application → List Application → Outcome Error080 (List Application)
unfolding is_other_with
create a rows =
    if elim a.unsubscribe_number [
      | none ↦ false
      | some number ↦ any (is_other_with a.owner_user_id number a.id) rows
    ]
    then err unique_violation
    else ok (a ∷ rows)

-- a submitted application
abbrev pub submission : Text → Text → ServiceType → Option Text → Text → Text → Application
submission id owner type number business_name provider_name = record {
  id = id;
  owner_user_id = owner;
  type = type;
  status = submitted;
  unsubscribe_number = number;
  business_name = business_name;
  provider_name = some provider_name;
  review_memo = none;
  reviewed_by = none;
  approved_at = none;
}

abbrev pub is_pending_managed : Text → Application → Bool
is_pending_managed owner a = is_of owner a && is_managed a.type && is_submitted a.status

unfoldable pub create_external :
    Text → CreateDto → Text → Text → List Application → Outcome Error080 (List Application)
unfolding normalize_080_number create update trim
create_external owner dto business_name new_id rows = do
  number ← normalize_080_number dto.unsubscribe_number
  let provider_name = or_text (trimmed dto.provider_name) (units "외부 080 제공 업체")
  elim (find? (λ a. is_of owner a && has_number number a) rows) [
    | none ↦
        create (submission new_id owner external (some number) business_name provider_name) rows
    | some e ↦ do
      require (not (is_submitted e.status)) number_submitted
      require (not (is_approved e.status)) number_registered
      update (submission e.id owner external (some number) business_name provider_name) rows
  ]

unfoldable pub create_managed :
    Text → Text → Text → List Application → Outcome Error080 (List Application)
unfolding create
create_managed owner business_name new_id rows = do
  require (not (any (is_pending_managed owner) rows)) pending_application
  create (submission new_id owner nhn_managed none business_name (units "NHN Cloud")) rows

-- `owner` is the account, where there is one.
unfoldable pub create_application :
    Option Owner → CreateDto → Text → List Application → Outcome Error080 (List Application)
unfolding build_owner_label trim
create_application none dto new_id rows = err owner_not_found
create_application (some owner) dto new_id rows =
    let business_name = or_text (trimmed dto.business_name) (build_owner_label owner) in
    elim dto.type [
      | nhn_managed ↦ create_managed owner.id business_name new_id rows
      | external ↦ create_external owner.id dto business_name new_id rows
    ]

-- The number that an approval gives: the reviewer's, or that of an external application.
unfoldable pub number_to_approve : Application → Option Text → Outcome Error080 Text
unfolding normalize_080_number
number_to_approve a dto_number =
    if is_managed a.type || not (is_empty (or_empty dto_number))
    then normalize_080_number dto_number
    else if is_empty (or_empty a.unsubscribe_number)
    then err number_missing
    else ok (or_empty a.unsubscribe_number)

unfoldable pub assert_no_duplicate_number :
    Text → Text → Text → List Application → Outcome Error080 (Unit {0})
unfolding is_other_with
assert_no_duplicate_number owner number id rows =
    elim (find? (is_other_with owner number id) rows) [
      | none ↦ ok tt
      | some e ↦ require (is_rejected e.status) number_in_use
    ]

unfoldable pub find_application : Text → List Application → Option Application
unfolding text_eq
find_application id rows = find? (λ a. text_eq a.id id) rows

-- the row that an approval writes
unfoldable pub approved_row : Application → Text → Text → Option Text → ℕ → Application
approved_row a number reviewer memo now = record a {
  status = approved;
  unsubscribe_number = some number;
  provider_name = some (
      or_text (or_empty a.provider_name)
        (if is_managed a.type then units "NHN Cloud" else units "외부 080 제공 업체"));
  reviewed_by = some reviewer;
  review_memo = memo_of memo;
  approved_at = some now;
}

unfoldable pub approve_for_operator :
    (id reviewer : Text) (number memo : Option Text)
    → ℕ
    → List Application
    → Outcome Error080 (List Application)
approve_for_operator id reviewer number memo now rows = elim (find_application id rows) [
  | none ↦ err application_not_found
  | some a ↦ do
    n ← number_to_approve a number
    done ← assert_no_duplicate_number a.owner_user_id n a.id rows
    update (approved_row a n reviewer memo now) rows
]

unfoldable pub reject_for_operator :
    (id reviewer : Text) (memo : Option Text)
    → List Application
    → Outcome Error080 (List Application)
reject_for_operator id reviewer memo rows = elim (find_application id rows) [
  | none ↦ err application_not_found
  | some a ↦
      update
        (record a {
          status = rejected;
          reviewed_by = some reviewer;
          review_memo = memo_of memo;
          approved_at = none;
        })
        rows
]

unfoldable pub format_080_number : Text → Text
unfolding digits_only
format_080_number value =
    let digits = digits_only value in
    if length digits == 10
    then take 3 digits ++ b'-' ∷ (take 3 (drop 3 digits) ++ b'-' ∷ drop 6 digits)
    else if length digits == 11
    then take 3 digits ++ b'-' ∷ (take 4 (drop 3 digits) ++ b'-' ∷ drop 7 digits)
    else value

-- The opt-out text of an approved application; `latest` is the one that the database finds.
unfoldable pub opt_out_text_of : Application → Option Text
unfolding format_080_number
opt_out_text_of a = elim a.unsubscribe_number [
  | none ↦ none
  | some number ↦
      if is_empty number then none else some (units "무료수신거부 " ++ format_080_number number)
]
