-- ===== src/Kakao/Brand/Names.antt =====
-- The names that the recipients of a brand template need values for, against the list without
-- repetitions that the code makes of them.
use noti.Common.{
  not, keep, map, if◌then◌else◌, ◌≡◌, refl, subst, Bool, true, List, [], ◌∷◌, is_empty, all, length,
  arith, inl, inr, Bool-cases,
}
use noti.Text.{Text, trim, text_eq, eq_of_text_eq}
use noti.Bulk.Rows.{distinct_ids, is_member, RecipientDraft}
use noti.Bulk.Parameters.{is_given, parameters_in}
use noti.Bulk.Recipients.{are_given}
use noti.Kakao.Brand.Content.{
  CreateBulkBrandMessageCampaignDto, Mode, freestyle, template, BrandContent, brand_variables_with,
  brand_required_variables, extract_brand_template_variables,
}
use noti.Kakao.Brand.Filling.{IsFilled}

-- The names that the request gives, trimmed, or else those of the body's placeholders.
abbrev pub names_in : CreateBulkBrandMessageCampaignDto → Text → List Text
names_in dto body =
    let given = keep (λ v. not (is_empty v)) (map trim dto.required_variables) in
    if is_empty given
    then keep (λ v. not (is_empty v)) (brand_variables_with (length body) body)
    else given

-- The names that a campaign's recipients need values for, by its mode.
abbrev pub names_asked : Mode → CreateBulkBrandMessageCampaignDto → Text → List Text
names_asked freestyle dto body = []
names_asked template dto body = names_in dto body

all-member :
    (p : Text → Bool) (k : Text) (seen : List Text)
    → all p seen ≡ true
    → is_member k seen ≡ true
    → p k ≡ true
all-member p k [] h m = cc
all-member p k (j ∷ seen) h m = elim (Bool-cases (text_eq j k)) [
  | inl e ↦ rw (← eq_of_text_eq j k e) (ground (arith, h))
  | inr e ↦ all-member p k seen (ground (arith, h)) (ground (arith, e, m))
]

all-distinct_ids :
    (p : Text → Bool) (seen ids : List Text)
    → all p seen ≡ true
    → all p (distinct_ids seen ids) ≡ true
    → all p ids ≡ true
unfolding distinct_ids
all-distinct_ids p seen [] s h = refl
all-distinct_ids p seen (id ∷ ids) s h = elim (Bool-cases (is_member id seen)) [
  | inl e ↦
      ground (arith, all-member p id seen s e, all-distinct_ids p seen ids s (ground (arith, e, h)))
  | inr e ↦
      let at_head : p id ≡ true = ground (arith, e, h) in
      let with_head : all p (id ∷ seen) ≡ true = ground (arith, at_head, s) in
      ground (arith, at_head, all-distinct_ids p (id ∷ seen) ids with_head (ground (arith, e, h)))
]

are_given-distinct :
    (names : List Text) (rs : List RecipientDraft)
    → are_given (distinct_ids [] names) rs ≡ true
    → are_given names rs ≡ true
are_given-distinct names [] h = refl
are_given-distinct names (r ∷ rs) h =
    let here =
      all-distinct_ids (is_given (parameters_in r.template_parameters)) [] names refl
        (ground (arith, h)) in
    ground (arith, here, are_given-distinct names rs (ground (arith, h)))

is_empty-distinct : (names : List Text) → is_empty (distinct_ids [] names) ≡ is_empty names
unfolding distinct_ids
is_empty-distinct [] = refl
is_empty-distinct (k ∷ names) = refl

-- The recipients that have values for the required variables have them for the names asked.
are_given-names :
    (dto : CreateBulkBrandMessageCampaignDto) (body : Text) (rs : List RecipientDraft)
    → are_given (brand_required_variables dto.required_variables body) rs ≡ true
    → are_given (names_in dto body) rs ≡ true
unfolding brand_required_variables extract_brand_template_variables
are_given-names dto body rs h =
    let given = keep (λ v. not (is_empty v)) (map trim dto.required_variables) in
    let in_body = keep (λ v. not (is_empty v)) (brand_variables_with (length body) body) in
    elim (Bool-cases (is_empty given)) [
      | inl e ↦
          let as_many = is_empty-distinct given in
          let those : are_given (distinct_ids [] in_body) rs ≡ true =
            ground (arith, e, as_many, h) in
          rw e (are_given-distinct in_body rs those)
      | inr e ↦
          let as_many = is_empty-distinct given in
          let those : are_given (distinct_ids [] given) rs ≡ true = ground (arith, e, as_many, h) in
          rw e (are_given-distinct given rs those)
    ]

pub IsFilled-names :
    (dto : CreateBulkBrandMessageCampaignDto) (c : BrandContent) (rs out : List RecipientDraft)
    → c.required_variables ≡ brand_required_variables dto.required_variables c.body
    → IsFilled c.required_variables rs out
    → IsFilled (names_in dto c.body) rs out
IsFilled-names dto c rs out same f = record {
  as_many = f.as_many;
  new = f.new;
  phones = f.phones;
  given = are_given-names dto c.body out (subst (λ vs. are_given vs out ≡ true) same f.given);
}
