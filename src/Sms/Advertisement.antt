-- ===== src/Sms/Advertisement.antt =====
-- The shape of an advertisement's text.
use noti.Common.{◌≡◌, refl, true, false, not, [], ◌∷◌, ◌++◌, Option, none, some, is_empty, keep}
use noti.Text.{Text, trim}
use noti.Sms.{normalize_sms_text, or_text}
use noti.Sms.Format.{
  format_sms_body, join_lines, sms_advertisement_prefix, sms_advertisement_opt_out_text,
  sanitize_advertising_service_name, opt_out_line, advertisement_content,
}

-- The content on a line of its own, or nothing.
abbrev pub on_a_line : Text → Text
on_a_line [] = []
on_a_line (c ∷ s) = 10 ∷ c ∷ s

join_three :
    (head content last : Text)
    → is_empty head ≡ false
    → is_empty last ≡ false
    → join_lines (keep (λ part. not (is_empty part)) (head ∷ content ∷ last ∷ []))
      ≡ head ++ (on_a_line content ++ 10 ∷ last)
unfolding join_lines
join_three (h ∷ head) [] (l ∷ last) p q = refl
join_three (h ∷ head) (c ∷ content) (l ∷ last) p q = refl
join_three [] content last p q = cc
join_three (h ∷ head) content [] p q = cc

or_text-ne : (s t : Text) → is_empty t ≡ false → is_empty (or_text s t) ≡ false
or_text-ne [] t h = h
or_text-ne (c ∷ s) t h = refl

opt_out_line-ne : (o : Option Text) → is_empty (opt_out_line o) ≡ false
unfolding opt_out_line
opt_out_line-ne none = refl
opt_out_line-ne (some t) =
    or_text-ne (trim (normalize_sms_text t)) sms_advertisement_opt_out_text refl

-- An advertisement's text is the mark followed by the service name, then the content, if there is
-- any, on lines of its own, then the opt-out line, whatever the body was.
pub format_sms_body_advertisement :
    (body : Text) (name opt_out : Option Text)
    → format_sms_body body (record {
      is_advertisement = true;
      advertising_service_name = name;
      opt_out_text = opt_out;
    })
      ≡ (sms_advertisement_prefix ++ sanitize_advertising_service_name name)
        ++ (on_a_line (
              advertisement_content
                (trim (normalize_sms_text body))
                (sanitize_advertising_service_name name))
            ++ 10 ∷ opt_out_line opt_out)
unfolding format_sms_body
format_sms_body_advertisement body name opt_out =
    join_three (sms_advertisement_prefix ++ sanitize_advertising_service_name name)
      (advertisement_content (trim (normalize_sms_text body))
        (sanitize_advertising_service_name name))
      (opt_out_line opt_out) refl (opt_out_line-ne opt_out)
