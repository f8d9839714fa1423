-- ===== src/Kakao/Brand/Limits.antt =====
-- What the content of a prepared bulk brand message is: the limits of a free text, or a template's
-- code, and the parameters of the recipients.
use noti.Common.{
  not, ◌≡◌, ◌⊎◌, refl, subst, Bool, true, false, ◌&&◌, ◌||◌, List, [], ◌∷◌, ◌++◌, Option, none,
  some, is_empty, all, leb, length, arith, ok, inl, inr, Bool-cases, Outcome-cases,
}
use noti.Text.{Text, trim}
use noti.Sms.{or_empty}
use noti.Json.{Json}
use noti.Bulk.Body.{check_mappings, set_mappings}
use noti.Bulk.Rows.{RecipientDraft, normalize_user_ids, find_users, user_system_fields}
use noti.Bulk.Recipients.{are_given}
use noti.Bulk.Complete.{check_mappings-mapped}
use noti.Kakao.Brand.{BrandStored, fill_recipients, fill_content}
use noti.Kakao.Brand.Content.{
  CreateBulkBrandMessageCampaignDto, Mode, freestyle, template, MessageType, BrandContent,
  plain_text, image, wide, wide_item_list, carousel_feed, premium_video, commerce,
  carousel_commerce, brand_required_variables, mode_of, message_type_of, normalize_buttons,
  image_url_of, template_content, check_freestyle, freestyle_content, is_free_type, is_text_type,
  fits_type, button_limit, has_image, Button,
}
use noti.Kakao.Brand.Filling.{IsFilled, user_is_found, fill_recipients-IsFilled}
use noti.Kakao.Brand.Names.{names_asked, IsFilled-names}

abbrev pub is_there : Option Text → Bool
is_there none = false
is_there (some t) = true

-- The limits that the channel sets for a free text, of the fields of the campaign.
abbrev pub fits_channel : MessageType → Text → List Button → Option Text → Bool
fits_channel plain_text body buttons image_url = leb (length buttons) 5
fits_channel image body buttons image_url =
    leb (length body) 400 && leb (length buttons) 5 && is_there image_url
fits_channel wide body buttons image_url =
    leb (length body) 76 && leb (length buttons) 2 && is_there image_url
fits_channel _ body buttons image_url = false

abbrev pub has_text : Option Text → Bool
has_text none = false
has_text (some t) = not (is_empty t)

-- The code that a campaign has, by its mode.
abbrev pub code_asked : Mode → CreateBulkBrandMessageCampaignDto → Option Text
code_asked freestyle dto = none
code_asked template dto = some (trim (or_empty dto.template_code))

-- What a mode asks of the content of a campaign.
abbrev pub meets_mode : Mode → MessageType → Text → List Button → (url code : Option Text) → Bool
meets_mode freestyle type body buttons url code = fits_channel type body buttons url
meets_mode template type body buttons url code = has_text code

-- What the content of a campaign is, and its recipients.
pub record IsContent (dto : CreateBulkBrandMessageCampaignDto) (rs : List RecipientDraft)
    (c : BrandContent) (out : List RecipientDraft) : Type 0 where
  pub has_body : is_empty c.body ≡ false
  pub meets :
      meets_mode
        (mode_of dto)
        (message_type_of dto)
        c.body
        (normalize_buttons dto.buttons)
        (image_url_of dto)
        c.template_code
      ≡ true
  pub code : c.template_code ≡ code_asked (mode_of dto) dto
  pub filled : IsFilled (names_asked (mode_of dto) dto c.body) rs out

mode-cases : (m : Mode) → (m ≡ freestyle) ⊎ (m ≡ template)
mode-cases freestyle = inl refl
mode-cases template = inr refl

all-nothing : (rs : List RecipientDraft) → are_given [] rs ≡ true
all-nothing [] = refl
all-nothing (r ∷ rs) = all-nothing rs

fits_channel_of :
    (type : MessageType) (body : Text) (buttons : List Button) (url : Option Text)
    → (is_free_type type
        && fits_type type body
        && leb (length buttons) (button_limit type)
        && (is_text_type type || is_there url))
      ≡ true
    → fits_channel type body buttons url ≡ true
fits_channel_of plain_text body buttons url h = ground (arith, h)
fits_channel_of image body buttons url h = h
fits_channel_of wide body buttons url h = h
fits_channel_of wide_item_list body buttons url h = cc
fits_channel_of carousel_feed body buttons url h = cc
fits_channel_of premium_video body buttons url h = cc
fits_channel_of commerce body buttons url h = cc
fits_channel_of carousel_commerce body buttons url h = cc

check_freestyle_inv :
    (dto : CreateBulkBrandMessageCampaignDto)
    → check_freestyle dto ≡ ok tt
    → (is_empty (freestyle_content dto).body ≡ false)
      × (fits_channel
            (message_type_of dto)
            (freestyle_content dto).body
            (normalize_buttons dto.buttons)
            (image_url_of dto)
          ≡ true)
unfolding check_freestyle
check_freestyle_inv dto e =
    let type = message_type_of dto in
    let body = (freestyle_content dto).body in
    elim (Bool-cases (is_empty body)) [
      | inl f ↦ absurd (ground (arith, e, f))
      | inr f ↦ elim (Bool-cases (is_free_type type)) [
        | inr g ↦ absurd (ground (arith, e, f, g))
        | inl g ↦ elim (Bool-cases (fits_type type body)) [
          | inr h ↦ absurd (ground (arith, e, f, g, h))
          | inl h ↦
              elim (Bool-cases (leb (length (normalize_buttons dto.buttons)) (button_limit type))) [
                | inr k ↦ absurd (ground (arith, e, f, g, h, k))
                | inl k ↦ elim (Bool-cases (is_text_type type || has_image dto)) [
                  | inr m ↦ absurd (ground (arith, e, f, g, h, k, m))
                  | inl m ↦ (
                    f,
                    fits_channel_of type body (normalize_buttons dto.buttons) (image_url_of dto)
                        (ground (arith, g, h, k, m)),
                  )
                ]
              ]
        ]
      ]
    ]

template_content_inv :
    (dto : CreateBulkBrandMessageCampaignDto) (c : BrandContent)
    → template_content dto ≡ ok c
    → (is_empty c.body ≡ false)
      × (has_text c.template_code ≡ true)
      × (c.template_code ≡ code_asked template dto)
      × (c.required_variables ≡ brand_required_variables dto.required_variables c.body)
unfolding template_content
template_content_inv dto c e =
    let code = trim (or_empty dto.template_code) in
    let body = trim (or_empty dto.template_body) in
    elim (Bool-cases (is_empty code)) [
      | inl f ↦ absurd (ground (arith, e, f))
      | inr f ↦ elim (Bool-cases (is_empty body)) [
        | inl g ↦ absurd (ground (arith, e, f, g))
        | inr g ↦ (
          ground (arith, e, f, g),
          ground (arith, e, f, g),
          ground (arith, e, f, g),
          ground (arith, e, f, g),
        )
      ]
    ]

IsFilled-refl : (rs : List RecipientDraft) → IsFilled [] rs rs
IsFilled-refl rs = record {
  as_many = refl;
  new = λ seen. refl;
  phones = λ phone. refl;
  given = all-nothing rs;
}

module _ (stringify : Json → Text) (is_inherited : Text → Bool) where
  pub fill_content-IsContent :
      (owner : Text) (dto : CreateBulkBrandMessageCampaignDto) (s : BrandStored)
      (rs out : List RecipientDraft) (c : BrandContent)
      → all (user_is_found (find_users owner (normalize_user_ids dto.user_ids) s.users)) rs ≡ true
      → fill_content stringify is_inherited owner dto s rs ≡ ok (c, out)
      → IsContent dto rs c out
  unfolding fill_content
  fill_content-IsContent owner dto s rs out c found e =
      let users = find_users owner (normalize_user_ids dto.user_ids) s.users in
      let mappings = set_mappings dto.template_variable_mappings [] in
      elim (mode-cases (mode_of dto)) [
        | inl free ↦ elim (Outcome-cases (check_freestyle dto)) [
          | inr (x, f) ↦ absurd (ground (arith, e, free, f))
          | inl (tt, f) ↦
              let (has_body, meets) = check_freestyle_inv dto f in
              let same : freestyle_content dto ≡ c = ground (arith, e, free, f) in
              let kept : rs ≡ out = ground (arith, e, free, f) in
              subst (IsContent dto rs c) kept (
                subst (λ x. IsContent dto rs x rs) same
                  (record {
                    has_body = has_body;
                    meets = ground (arith, free, meets);
                    code = rw free refl;
                    filled = rw free (IsFilled-refl rs);
                  }))
        ]
        | inr as_template ↦ elim (Outcome-cases (template_content dto)) [
          | inr (x, f) ↦ absurd (ground (arith, e, as_template, f))
          | inl (t, f) ↦
              let (has_body, has_code, code, variables) = template_content_inv dto t f in
              elim (Outcome-cases (
                check_mappings t.required_variables (user_system_fields ++ s.custom_fields)
                  mappings)) [
                    | inr (x, g) ↦ absurd (ground (arith, e, as_template, f, g))
                    | inl (tt, g) ↦
                        elim (Outcome-cases (
                          fill_recipients stringify is_inherited users t.required_variables mappings
                            rs)) [
                              | inr (x, h) ↦ absurd (ground (arith, e, as_template, f, g, h))
                              | inl (made, h) ↦
                                  let same : t ≡ c = ground (arith, e, as_template, f, g, h) in
                                  let kept : made ≡ out = ground (arith, e, as_template, f, g, h) in
                                  let mapped =
                                    check_mappings-mapped t.required_variables
                                      (user_system_fields ++ s.custom_fields) mappings g in
                                  subst (IsContent dto rs c) kept (
                                    subst (λ x. IsContent dto rs x made) same
                                      (record {
                                        has_body = has_body;
                                        meets = ground (arith, as_template, has_code);
                                        code = rw as_template code;
                                        filled = rw as_template (
                                            IsFilled-names dto t rs made variables (
                                              fill_recipients-IsFilled stringify is_inherited users
                                                t.required_variables mappings rs made mapped found
                                                h));
                                      }))
                            ]
                  ]
        ]
      ]
