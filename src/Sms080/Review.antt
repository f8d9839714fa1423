-- ===== src/Sms080/Review.antt =====
-- The review of applications for opt-out numbers: the steps of the service, and what they keep of
-- every application.
use noti.Common.{
  ℕ, Bool, true, false, not, ◌&&◌, ◌||◌, List, [], ◌∷◌, Option, none, some, if◌then◌else◌, is_empty,
  any, find?, map, all, ok, ◌≡◌, refl, ◌⊎◌, inl, inr, Bool-cases, Outcome-cases, Option-cases,
  arith, find?-all,
}
use noti.Text.{units, Text, text_eq, digits_only}
use noti.Sms.{or_empty, or_text}
use noti.Sms080.{
  Application, Owner, CreateDto, ServiceType, build_owner_label, submission, trimmed, memo_of,
  is_of, has_number, is_pending_managed, nhn_managed, external, approved, rejected, is_managed,
  is_approved, is_080, normalize_080_number, update, create, create_external, create_managed,
  create_application, number_to_approve, assert_no_duplicate_number, find_application, approved_row,
  approve_for_operator, reject_for_operator,
}

-- The number of an application is a valid one, and an application that the provider manages may
-- lack it until it is approved.
unfoldable pub is_sound : Application → Bool
is_sound a = elim a.unsubscribe_number [
  | none ↦ is_managed a.type && not (is_approved a.status)
  | some number ↦ is_080 number
]

normalize-is_080 :
    (value : Option Text) (n : Text) → normalize_080_number value ≡ ok n → is_080 n ≡ true
unfolding normalize_080_number
normalize-is_080 value n e = elim (Bool-cases (is_080 (digits_only (or_empty value)))) [
  | inl t ↦ let same : digits_only (or_empty value) ≡ n = ground (arith, t, e) in rw (← same) t
  | inr t ↦ absurd (ground (arith, t, e))
]

or_empty-is_080 :
    (a : Application)
    → is_sound a ≡ true
    → is_empty (or_empty a.unsubscribe_number) ≡ false
    → is_080 (or_empty a.unsubscribe_number) ≡ true
unfolding is_sound
or_empty-is_080 a h t = elim (Option-cases a.unsubscribe_number) [
  | inl e ↦ absurd (ground (arith, e, t))
  | inr (n, e) ↦ ground (arith, e, h)
]

number_to_approve-is_080 :
    (a : Application) (number : Option Text) (n : Text)
    → is_sound a ≡ true
    → number_to_approve a number ≡ ok n
    → is_080 n ≡ true
unfolding number_to_approve
number_to_approve-is_080 a number n h e =
    elim (Bool-cases (is_managed a.type || not (is_empty (or_empty number)))) [
      | inl t ↦ normalize-is_080 number n (ground (arith, t, e))
      | inr t ↦ elim (Bool-cases (is_empty (or_empty a.unsubscribe_number))) [
        | inl u ↦ absurd (ground (arith, t, u, e))
        | inr u ↦
            let same : or_empty a.unsubscribe_number ≡ n = ground (arith, t, u, e) in
            rw (← same) (or_empty-is_080 a h u)
      ]
    ]

all-set :
    (a : Application) (rows : List Application)
    → is_sound a ≡ true
    → all is_sound rows ≡ true
    → all is_sound (map (λ b. if text_eq b.id a.id then a else b) rows) ≡ true
all-set a [] h k = refl
all-set a (b ∷ rows) h k = ground (arith, all-set a rows h)

update-is_sound :
    (a : Application) (rows rows' : List Application)
    → is_sound a ≡ true
    → all is_sound rows ≡ true
    → update a rows ≡ ok rows'
    → all is_sound rows' ≡ true
unfolding update
update-is_sound a rows rows' h k e = ground (arith, all-set a rows h k, e)

create-is_sound :
    (a : Application) (rows rows' : List Application)
    → is_sound a ≡ true
    → all is_sound rows ≡ true
    → create a rows ≡ ok rows'
    → all is_sound rows' ≡ true
unfolding create
create-is_sound a rows rows' h k e = ground (arith, h, k, e)

create_external-is_sound :
    (owner : Text) (dto : CreateDto) (business_name new_id : Text) (rows rows' : List Application)
    → all is_sound rows ≡ true
    → create_external owner dto business_name new_id rows ≡ ok rows'
    → all is_sound rows' ≡ true
unfolding create_external is_sound
create_external-is_sound owner dto business_name new_id rows rows' h e =
    elim (Outcome-cases (normalize_080_number dto.unsubscribe_number)) [
      | inr (x, g) ↦ absurd (ground (arith, e, g))
      | inl (n, g) ↦
          let provider_name = or_text (trimmed dto.provider_name) (units "외부 080 제공 업체") in
          let valid = normalize-is_080 dto.unsubscribe_number n g in
          elim (Option-cases (find? (λ a. is_of owner a && has_number n a) rows)) [
            | inl u ↦
                create-is_sound
                  (submission new_id owner external (some n) business_name provider_name) rows rows'
                  valid h (ground (arith, e, g, u))
            | inr (x, u) ↦
                update-is_sound
                  (submission x.id owner external (some n) business_name provider_name) rows rows'
                  valid h (ground (arith, e, g, u))
          ]
    ]

-- What changes the applications.
ServiceType-cases : (t : ServiceType) → (t ≡ nhn_managed) ⊎ (t ≡ external)
ServiceType-cases nhn_managed = inl refl
ServiceType-cases external = inr refl

pub data Step (rows rows' : List Application) : Type 0 where
  applying :
      (owner : Option Owner) (dto : CreateDto) (new_id : Text)
      → create_application owner dto new_id rows ≡ ok rows'
      → Step rows rows'
  approving :
      (id reviewer : Text) (number memo : Option Text) (now : ℕ)
      → approve_for_operator id reviewer number memo now rows ≡ ok rows'
      → Step rows rows'
  rejecting :
      (id reviewer : Text) (memo : Option Text)
      → reject_for_operator id reviewer memo rows ≡ ok rows'
      → Step rows rows'

pub data Reach (rows : List Application) : List Application → Type 0 where
  here : Reach rows rows
  next : {middle last : List Application} → Reach rows middle → Step middle last → Reach rows last

applied-is_sound :
    (owner : Option Owner) (dto : CreateDto) (new_id : Text) (rows rows' : List Application)
    → all is_sound rows ≡ true
    → create_application owner dto new_id rows ≡ ok rows'
    → all is_sound rows' ≡ true
unfolding create_application create_managed is_sound
applied-is_sound none dto new_id rows rows' h e = absurd (ground (arith, e))
applied-is_sound (some owner) dto new_id rows rows' h e =
    let business_name = or_text (trimmed dto.business_name) (build_owner_label owner) in
    elim (ServiceType-cases dto.type) [
      | inr x ↦
          create_external-is_sound owner.id dto business_name new_id rows rows' h
            (ground (arith, e, x))
      | inl m ↦ elim (Bool-cases (any (is_pending_managed owner.id) rows)) [
        | inl t ↦ absurd (ground (arith, e, m, t))
        | inr t ↦
            create-is_sound
              (submission new_id owner.id nhn_managed none business_name (units "NHN Cloud")) rows
              rows' refl h (ground (arith, e, m, t))
      ]
    ]

approved-is_sound :
    (id reviewer : Text) (number memo : Option Text) (now : ℕ) (rows rows' : List Application)
    → all is_sound rows ≡ true
    → approve_for_operator id reviewer number memo now rows ≡ ok rows'
    → all is_sound rows' ≡ true
unfolding approve_for_operator find_application approved_row is_sound
approved-is_sound id reviewer number memo now rows rows' h e =
    elim (Option-cases (find_application id rows)) [
      | inl g ↦ absurd (ground (arith, e, g))
      | inr (a, g) ↦
          let sound = find?-all (λ b. text_eq b.id id) is_sound rows a h g in
          elim (Outcome-cases (number_to_approve a number)) [
            | inr (x, u) ↦ absurd (ground (arith, e, g, u))
            | inl (n, u) ↦
                let valid = number_to_approve-is_080 a number n sound u in
                elim (Outcome-cases (assert_no_duplicate_number a.owner_user_id n a.id rows)) [
                  | inr (x, v) ↦ absurd (ground (arith, e, g, u, v))
                  | inl (x, v) ↦
                      update-is_sound (approved_row a n reviewer memo now) rows rows' valid h
                        (ground (arith, e, g, u, v))
                ]
          ]
    ]

rejected-is_sound :
    (id reviewer : Text) (memo : Option Text) (rows rows' : List Application)
    → all is_sound rows ≡ true
    → reject_for_operator id reviewer memo rows ≡ ok rows'
    → all is_sound rows' ≡ true
unfolding reject_for_operator find_application is_sound
rejected-is_sound id reviewer memo rows rows' h e = elim (Option-cases (find_application id rows)) [
  | inl g ↦ absurd (ground (arith, e, g))
  | inr (a, g) ↦
      let sound = find?-all (λ b. text_eq b.id id) is_sound rows a h g in
      let row = record a {
        status = rejected;
        reviewed_by = some reviewer;
        review_memo = memo_of memo;
        approved_at = none;
      } in
      update-is_sound row rows rows' (ground (arith, sound)) h (ground (arith, e, g))
]

Reach-is_sound :
    {rows rows' : List Application}
    → Reach rows rows'
    → all is_sound rows ≡ true
    → all is_sound rows' ≡ true
Reach-is_sound here h = h
Reach-is_sound {rows} {rows'} (next {middle} reached step) h =
    let k = Reach-is_sound reached h in
    elim step [
      | applying owner dto new_id e ↦ applied-is_sound owner dto new_id middle rows' k e
      | approving id reviewer number memo now e ↦
          approved-is_sound id reviewer number memo now middle rows' k e
      | rejecting id reviewer memo e ↦ rejected-is_sound id reviewer memo middle rows' k e
    ]

-- From no applications, after any sequence of applications, approvals and rejections, an application
-- that is approved has a number, and every number is `080` with seven or eight digits after it.
pub approved-is_080 :
    (rows : List Application) (a : Application)
    → Reach [] rows
    → (find? (λ b. text_eq b.id a.id) rows ≡ some a)
    → a.status ≡ approved
    → (n : Text) × (a.unsubscribe_number ≡ some n) × (is_080 n ≡ true)
unfolding is_sound
approved-is_080 rows a reached there is =
    let sound =
      find?-all (λ b. text_eq b.id a.id) is_sound rows a (Reach-is_sound reached refl) there in
    elim (Option-cases a.unsubscribe_number) [
      | inl e ↦ absurd (ground (arith, sound, e, is))
      | inr (n, e) ↦ (n, e, ground (arith, sound, e))
    ]
