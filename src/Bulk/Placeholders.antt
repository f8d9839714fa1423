-- ===== src/Bulk/Placeholders.antt =====
-- What the required variables of a body give for its placeholders.
use noti.Common.{
  ◌≡◌, refl, Bool, true, ◌||◌, Bool-cases, List, [], ◌∷◌, is_empty, all, arith, inl, inr,
}
use noti.Text.{Text, text_eq, eq_of_text_eq}
use noti.Template.{
  Piece, plain, hole, key_of, scan, collected, insert, sort_set, text_lt,
  extract_required_variables,
}
use noti.Bulk.Rows.{RecipientDraft}
use noti.Bulk.Parameters.{is_given, parameters_in}
use noti.Bulk.Recipients.{are_given}

-- The placeholder has a value, unless its key is empty.
abbrev pub is_filled : List (Text × Text) → Piece → Bool
is_filled parameters (plain c) = true
is_filled parameters (hole o r) = is_empty (key_of r) || is_given parameters (key_of r)

-- Every recipient has a value for every placeholder of the body.
abbrev pub are_filled : Text → List RecipientDraft → Bool
are_filled body drafts =
    all (λ r. all (is_filled (parameters_in r.template_parameters)) (scan body)) drafts

all-insert :
    (p : Text → Bool) (k : Text) (ks : List Text)
    → all p (insert k ks) ≡ true
    → (p k ≡ true) × (all p ks ≡ true)
unfolding insert
all-insert p k [] h = (ground (arith, h), refl)
all-insert p k (j ∷ ks) h = elim (Bool-cases (text_eq k j)) [
  | inl e ↦
      let all_of : all p (j ∷ ks) ≡ true = ground (arith, e, h) in
      (rw (eq_of_text_eq k j e) (ground (arith, all_of)), all_of)
  | inr e ↦ elim (Bool-cases (text_lt k j)) [
    | inl l ↦ (ground (arith, e, l, h), ground (arith, e, l, h))
    | inr l ↦
        let at_head : p j ≡ true = ground (arith, e, l, h) in
        let later = all-insert p k ks (ground (arith, e, l, h)) in
        (later.0, ground (arith, at_head, later))
  ]
]

all-sort_set : (p : Text → Bool) (ks : List Text) → all p (sort_set ks) ≡ true → all p ks ≡ true
unfolding sort_set
all-sort_set p [] h = refl
all-sort_set p (k ∷ ks) h =
    let both = all-insert p k (sort_set ks) h in ground (arith, both, all-sort_set p ks both.1)

all-collected :
    (parameters : List (Text × Text)) (ps : List Piece)
    → all (is_given parameters) (collected ps) ≡ true
    → all (is_filled parameters) ps ≡ true
unfolding collected
all-collected parameters [] h = refl
all-collected parameters (plain c ∷ ps) h = all-collected parameters ps h
all-collected parameters (hole o r ∷ ps) h = elim (Bool-cases (is_empty (key_of r))) [
  | inl e ↦ ground (arith, e, all-collected parameters ps (ground (arith, e, h)))
  | inr e ↦ ground (arith, e, h, all-collected parameters ps (ground (arith, e, h)))
]

pub are_filled-extract :
    (body : Text) (rs : List RecipientDraft)
    → are_given (extract_required_variables body) rs ≡ true
    → are_filled body rs ≡ true
unfolding extract_required_variables
are_filled-extract body [] h = refl
are_filled-extract body (r ∷ rs) h =
    let parameters = parameters_in r.template_parameters in
    let given : all (is_given parameters) (sort_set (collected (scan body))) ≡ true =
      ground (arith, h) in
    let here =
      all-collected parameters (scan body)
        (all-sort_set (is_given parameters) (collected (scan body)) given) in
    ground (arith, here, are_filled-extract body rs (ground (arith, h)))
