-- ===== src/Sms080/Taken.antt =====
-- An approval of a number that another application of the owner has.
use noti.Common.{
  ℕ, Bool, true, List, [], ◌∷◌, Option, some, if◌then◌else◌, any, find?, ok, err, ◌≡◌, inl, inr,
  Bool-cases, arith,
}
use noti.Text.{Text}
use noti.Sms080.{
  Application, unique_violation, number_in_use, is_rejected, is_other_with, update,
  number_to_approve, assert_no_duplicate_number, find_application, approved_row,
  approve_for_operator,
}

-- The application that has the number, where there is one, is one that `update` refuses.
any-find? :
    {A : Type 0} (p : A → Bool) (xs : List A) (x : A) → find? p xs ≡ some x → any p xs ≡ true
any-find? p [] x h = cc
any-find? p (y ∷ xs) x h = ground (arith, any-find? p xs x)

-- An approval never gives an application the number of another application of the owner: it fails
-- with the service's own error when the one found is submitted or approved, and with the database's
-- when that one was rejected.
pub approve_for_operator-taken :
    (id reviewer : Text) (number memo : Option Text) (now : ℕ) (rows : List Application)
    (a other : Application) (n : Text)
    → find_application id rows ≡ some a
    → number_to_approve a number ≡ ok n
    → find? (is_other_with a.owner_user_id n a.id) rows ≡ some other
    → approve_for_operator id reviewer number memo now rows
      ≡ err (if is_rejected other.status then unique_violation else number_in_use)
unfolding approve_for_operator assert_no_duplicate_number update approved_row
approve_for_operator-taken id reviewer number memo now rows a other n found chosen taken =
    let present = any-find? (is_other_with a.owner_user_id n a.id) rows other taken in
    elim (Bool-cases (is_rejected other.status)) [
      | inl t ↦ ground (arith, found, chosen, taken, present, t)
      | inr t ↦ ground (arith, found, chosen, taken, present, t)
    ]
