-- ===== src/Template/Render.antt =====
-- Required variables and rendering agree: what the request check accepts, the worker renders.
use noti.Common.{
  ℕ, ◌≡◌, refl, ◌↔◌, ◌⊎◌, inl, inr, true, false, List, [], ◌∷◌, ◌++◌, Option, none, some, arith, ok,
  err, All, Some, Bool-cases, Option-cases, is_empty,
}
use noti.Text.{Text, text_eq, text_eq_iff}
use noti.Template.{
  Piece, plain, hole, Opening, key_of, collected, insert, sort_set, scan,
  extract_required_variables, Value, shown, Variables, get, is_absent, missing_required_variables,
  missing_template_variable, render_pieces, render_template, text_lt,
}

abbrev pub Has : Text → List Text → Type 0
Has k = Some (λ j. k ≡ j)

Has-insert : (j k : Text) (ks : List Text) → Has j (insert k ks) ↔ ((j ≡ k) ⊎ Has j ks)
unfolding insert
Has-insert j k [] = ground arith
Has-insert j k (i ∷ ks) = ground (arith, Has-insert j k ks, text_eq_iff k i)

Has-sort_set : (j : Text) (ks : List Text) → Has j (sort_set ks) ↔ Has j ks
unfolding sort_set
Has-sort_set j [] = ground arith
Has-sort_set j (k ∷ ks) = ground (arith, Has-sort_set j ks, Has-insert j k (sort_set ks))

-- A placeholder of the body whose key, trimmed, is `k`.
abbrev pub Asks : Text → Piece → Type 0
Asks k (plain c) = ⊥
Asks k (hole o r) = k ≡ key_of r

Has-collected :
    (k : Text) (ps : List Piece) → Has k (collected ps) ↔ (Some (Asks k) ps × (is_empty k ≡ false))
unfolding collected
Has-collected k [] = ground arith
Has-collected k (plain c ∷ ps) = ground (arith, Has-collected k ps)
Has-collected k (hole o r ∷ ps) = ground (arith, Has-collected k ps)

-- The required variables of a body are exactly the keys of its placeholders, but for an empty key.
pub Has-extract_required_variables :
    (k : Text) (body : Text)
    → Has k (extract_required_variables body) ↔ (Some (Asks k) (scan body) × (is_empty k ≡ false))
unfolding extract_required_variables
Has-extract_required_variables k body =
    let (to, from) = Has-sort_set k (collected (scan body)) in
    let (to', from') = Has-collected k (scan body) in (λ h. to' (to h), λ h. from (from' h))

-- Strictly ascending: in order, and without repetition.
abbrev pub IsAscending : List Text → Type 0
IsAscending [] = Unit
IsAscending (k ∷ []) = Unit
IsAscending (k ∷ j ∷ ks) = (text_lt k j ≡ true) × IsAscending (j ∷ ks)

text_lt_total : (s t : Text) → text_eq s t ≡ false → text_lt s t ≡ false → text_lt t s ≡ true
unfolding text_lt text_eq
text_lt_total [] [] e h = cc
text_lt_total [] (b ∷ t) e h = cc
text_lt_total (a ∷ s) [] e h = refl
text_lt_total (a ∷ s) (b ∷ t) e h = ground (arith, text_lt_total s t)

insert-IsAscending : (k : Text) (ks : List Text) → IsAscending ks → IsAscending (insert k ks)
unfolding insert
insert-IsAscending k [] h = tt
insert-IsAscending k (j ∷ []) h = ground (arith, text_lt_total k j)
insert-IsAscending k (j ∷ i ∷ ks) h =
    ground (arith, text_lt_total k j, text_lt_total k i, insert-IsAscending k (i ∷ ks))

sort_set-IsAscending : (ks : List Text) → IsAscending (sort_set ks)
unfolding sort_set
sort_set-IsAscending [] = tt
sort_set-IsAscending (k ∷ ks) = insert-IsAscending k (sort_set ks) (sort_set-IsAscending ks)

-- The list of required variables is strictly ascending by code units, so it names no key twice.
pub extract_required_variables-IsAscending :
    (body : Text) → IsAscending (extract_required_variables body)
unfolding extract_required_variables
extract_required_variables-IsAscending body = sort_set-IsAscending (collected (scan body))

-- The relation that rendering implements: each placeholder is replaced by the text of its value.
pub data Renders (value : Text → Option Value) : List Piece → Text → Type 0 where
  done : Renders value [] []
  copied :
      {c : ℕ} {ps : List Piece} {t : Text}
      → Renders value ps t
      → Renders value (plain c ∷ ps) (c ∷ t)
  replaced :
      {o : Opening} {r : Text} {v : Value} {ps : List Piece} {t : Text}
      → value (key_of r) ≡ some v
      → Renders value ps t
      → Renders value (hole o r ∷ ps) (shown v ++ t)

-- A placeholder with nothing but white space between its delimiters.
abbrev pub IsBlank : Piece → Type 0
IsBlank (plain c) = ⊥
IsBlank (hole o r) = is_empty (key_of r) ≡ true

module _ (inherited : Text → Option Value) (vs : Variables) where
  pub Has-missing :
      (k : Text) (required : List Text)
      → missing_required_variables inherited required vs ≡ []
      → Has k required
      → is_absent inherited k vs ≡ false
  unfolding missing_required_variables
  Has-missing k [] none_missing h = absurd h
  Has-missing k (j ∷ js) none_missing h = ground (arith, Has-missing k js)

  defined_of_present :
      (k : Text) → is_absent inherited k vs ≡ false → (v : Value) × (get inherited k vs ≡ some v)
  unfolding is_absent
  defined_of_present k h = ground arith

  abbrev IsDefined : Piece → Type 0
  IsDefined (plain c) = Unit
  IsDefined (hole o r) = (v : Value) × (get inherited (key_of r) vs ≡ some v)

  render_pieces_total :
      (ps : List Piece)
      → All IsDefined ps
      → (t : Text) × (render_pieces inherited vs ps ≡ ok t) × Renders (λ k. get inherited k vs) ps t
  unfolding render_pieces
  render_pieces_total [] h = ([], refl, done)
  render_pieces_total (plain c ∷ ps) (d, h) =
      let (t, e, r) = render_pieces_total ps h in (c ∷ t, rw e, copied r)
  render_pieces_total (hole o r ∷ ps) ((v, d), h) =
      let (t, e, m) = render_pieces_total ps h in
      (shown v ++ t, rw (d, e, render_pieces), replaced d m)

  -- every placeholder's key is in the list, unless the placeholder is blank
  listed :
      (ps : List Piece) (required : List Text)
      → ((k : Text) → Some (Asks k) ps → is_empty k ≡ false → Has k required)
      → missing_required_variables inherited required vs ≡ []
      → All (λ p. ¬ IsBlank p) ps
      → All IsDefined ps
  listed [] required all_listed none_missing h = tt
  listed (plain c ∷ ps) required all_listed none_missing (_, h) =
      (tt, listed ps required (λ k s. all_listed k (inr s)) none_missing h)
  listed (hole o r ∷ ps) required all_listed none_missing (b, h) =
      let full : is_empty (key_of r) ≡ false = elim (Bool-cases (is_empty (key_of r))) [
        | inl e ↦ absurd (b e)
        | inr e ↦ e
      ] in
      (
        defined_of_present (key_of r)
            (Has-missing (key_of r) required none_missing (all_listed (key_of r) (inl refl) full)),
        listed ps required (λ k s. all_listed k (inr s)) none_missing h,
      )

  -- When no required variable of a body is missing and none of its placeholders is blank, rendering
  -- succeeds: the result is the body with each placeholder replaced by the text of its value.
  pub validated-render :
      (body : Text)
      → missing_required_variables inherited (extract_required_variables body) vs ≡ []
      → All (λ p. ¬ IsBlank p) (scan body)
      → (t : Text) × (render_template inherited body vs ≡ ok t)
        × Renders (λ k. get inherited k vs) (scan body) t
  unfolding render_template
  validated-render body none_missing full = render_pieces_total (scan body) (
      listed (scan body) (extract_required_variables body)
        (λ k s e. (Has-extract_required_variables k body).1 (s, e)) none_missing full)

  blank_absent :
      (r : Text) (v : Value)
      → get inherited [] vs ≡ none
      → is_empty (key_of r) ≡ true
      → ¬ (get inherited (key_of r) vs ≡ some v)
  blank_absent r v e b d = ground (arith, e, b, d)

  render_pieces_fails :
      (ps : List Piece)
      → get inherited [] vs ≡ none
      → Some IsBlank ps
      → (k : Text) × (render_pieces inherited vs ps ≡ err (missing_template_variable k))
  unfolding render_pieces
  render_pieces_fails [] e h = absurd h
  render_pieces_fails (plain c ∷ ps) e (inl h) = absurd h
  render_pieces_fails (plain c ∷ ps) e (inr h) =
      let (k, g) = render_pieces_fails ps e h in (k, rw g)
  render_pieces_fails (hole o r ∷ ps) e h = elim (Option-cases (get inherited (key_of r) vs)) [
    | inl d ↦ (key_of r, rw (d, render_pieces))
    | inr (v, d) ↦ elim h [
      | inl b ↦ absurd (blank_absent r v e b d)
      | inr s ↦ let (k, g) = render_pieces_fails ps e s in (k, rw (d, g, render_pieces))
    ]
  ]

  -- A blank placeholder is not among the required variables, yet rendering looks up the empty key
  -- and fails, for each body with one and whatever the other variables are, unless a variable with
  -- the empty name is there.
  pub blank-render :
      (body : Text)
      → get inherited [] vs ≡ none
      → Some IsBlank (scan body)
      → ¬ Has [] (extract_required_variables body)
        × ((k : Text) × (render_template inherited body vs ≡ err (missing_template_variable k)))
  unfolding render_template
  blank-render body e h = (
    λ m. cc ((Has-extract_required_variables [] body).0 m).1,
    render_pieces_fails (scan body) e h,
  )
