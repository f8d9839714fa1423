-- ===== src/Bulk/Found.antt =====
-- When the database finds as many users as there are ids, it finds the user of each id.
use noti.Common.{
  ℕ, ◌+◌, ◌≡◌, ◌≤◌, refl, sym, ap, Bool, true, false, not, ◌&&◌, List, [], ◌∷◌, none, some,
  if◌then◌else◌, any, all, keep, keep-all, length, ◌==◌, arith, Bool-cases, inl, inr,
}
use noti.Text.{Text, text_eq, text_eq_sym, eq_of_text_eq}
use noti.Bulk.Users.{ManagedUser}
use noti.Bulk.Rows.{is_member, find_users, user_by_id}

-- No two users have the same id.
abbrev pub are_distinct : List ManagedUser → Bool
are_distinct [] = true
are_distinct (u ∷ us) = not (any (λ v. text_eq v.id u.id) us) && are_distinct us

abbrev pub is_found : List ManagedUser → Text → Bool
is_found us id = elim (user_by_id id us) [ none ↦ false | some u ↦ true ]

abbrev count_id : Text → List ManagedUser → ℕ
count_id id us = length (keep (λ u. text_eq u.id id) us)

abbrev found_count : List ManagedUser → List Text → ℕ
found_count us ids = length (keep (is_found us) ids)

count_id-absent :
    (id : Text) (us : List ManagedUser) → any (λ v. text_eq v.id id) us ≡ false → count_id id us ≡ 0
count_id-absent id [] h = refl
count_id-absent id (u ∷ us) h = ground (arith, count_id-absent id us, h)

count_id-le :
    (id : Text) (us : List ManagedUser)
    → are_distinct us ≡ true
    → count_id id us ≤ (if is_found us id then 1 else 0)
unfolding user_by_id
count_id-le id [] h = omega arith
count_id-le id (u ∷ us) h = elim (Bool-cases (text_eq u.id id)) [
  | inl t ↦
      let same : u.id ≡ id = eq_of_text_eq u.id id t in
      let absent : any (λ v. text_eq v.id id) us ≡ false = rw (sym same) (ground (arith, h)) in
      ground (arith, t, count_id-absent id us absent)
  | inr t ↦ ground (arith, t, count_id-le id us, h)
]

keep-member :
    (id : Text) (ids : List Text) (us : List ManagedUser)
    → length (keep (λ u. is_member u.id (id ∷ ids)) us)
      ≤ count_id id us + length (keep (λ u. is_member u.id ids) us)
keep-member id ids [] = omega arith
keep-member id ids (u ∷ us) =
    let turned : text_eq id u.id ≡ text_eq u.id id = text_eq_sym id u.id in
    ground (arith, keep-member id ids us, turned)

keep-none : (us : List ManagedUser) → length (keep (λ u. false) us) ≡ 0
keep-none [] = refl
keep-none (u ∷ us) = keep-none us

keep-le-found :
    (ids : List Text) (us : List ManagedUser)
    → are_distinct us ≡ true
    → length (keep (λ u. is_member u.id ids) us) ≤ found_count us ids
keep-le-found [] us h = ground (arith, keep-none us)
keep-le-found (id ∷ ids) us h =
    ground (arith, keep-member id ids us, count_id-le id us h, keep-le-found ids us h)

keep-le : {A : Type 0} (p : A → Bool) (xs : List A) → length (keep p xs) ≤ length xs
keep-le p [] = omega arith
keep-le p (x ∷ xs) = ground (arith, keep-le p xs)

all_of_keep :
    {A : Type 0} (p : A → Bool) (xs : List A) → length xs ≤ length (keep p xs) → all p xs ≡ true
all_of_keep p [] h = refl
all_of_keep p (x ∷ xs) h = elim (Bool-cases (p x)) [
  | inl t ↦ ground (arith, t, h, all_of_keep p xs)
  | inr t ↦ absurd (ground (arith, t, h, keep-le p xs))
]

any-keep :
    (p q : ManagedUser → Bool) (us : List ManagedUser)
    → any q us ≡ false
    → any q (keep p us) ≡ false
any-keep p q [] h = refl
any-keep p q (u ∷ us) h = ground (arith, any-keep p q us, h)

are_distinct-keep :
    (p : ManagedUser → Bool) (us : List ManagedUser)
    → are_distinct us ≡ true
    → are_distinct (keep p us) ≡ true
are_distinct-keep p [] h = refl
are_distinct-keep p (u ∷ us) h =
    ground (arith, are_distinct-keep p us, any-keep p (λ v. text_eq v.id u.id) us, h)

all-keep : {A : Type 0} (p q : A → Bool) (xs : List A) → all q (keep (λ x. p x && q x) xs) ≡ true
all-keep p q [] = refl
all-keep p q (x ∷ xs) = ground (arith, all-keep p q xs)

pub find_users-all :
    (owner : Text) (ids : List Text) (users : List ManagedUser)
    → are_distinct users ≡ true
    → (length ids == length (find_users owner ids users)) ≡ true
    → all (is_found (find_users owner ids users)) ids ≡ true
unfolding find_users
find_users-all owner ids users h e =
    let p = λ (u : ManagedUser). text_eq u.owner_user_id owner && is_member u.id ids in
    let found = keep p users in
    let members : keep (λ u. is_member u.id ids) found ≡ found =
      keep-all (λ u. is_member u.id ids) found
        (all-keep (λ u. text_eq u.owner_user_id owner) (λ u. is_member u.id ids) users) in
    let same : length (keep (λ u. is_member u.id ids) found) ≡ length found = ap length members in
    let bound = keep-le-found ids found (are_distinct-keep p users h) in
    all_of_keep (is_found found) ids (ground (arith, e, same, bound))
