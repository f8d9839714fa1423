-- ===== src/Sms080/Tests.antt =====
-- An account with an application for a number of its own.
use noti.Common.{◌≡◌, refl, true, [], ◌∷◌, none, some, ok, err, if◌then◌else◌}
use noti.Text.{Text, units, text_eq, trim, digits_only, is_digit}
use noti.Sms.Format.{after_prefix, is_sms_advertisement_opt_out_line}
use noti.Sms080.{
  Application, Owner, CreateDto, external, rejected, ServiceStatus, unique_violation, number_in_use,
  is_080, is_rejected, is_other_with, find_application, number_to_approve, create_application,
  create_external, approve_for_operator, update, approved_row, assert_no_duplicate_number,
  submission, is_of, opt_out_text_of,
}
use noti.Sms080.Review.{Reach, here, next, applying, approving, approved-is_080}
use noti.Sms080.Taken.{approve_for_operator-taken}
use noti.Sms080.OptOut.{opt_out_text_of-digits}

abbrev owner : Owner
owner = record {
  id = units "u";
  email = none;
  login_id = some (units "me");
  provider_user_id = units "p";
}

abbrev own_number : CreateDto
own_number = record {
  type = external;
  unsubscribe_number = some (units "080-123-4567");
  business_name = none;
  provider_name = none;
}

abbrev asked : Application
asked =
    submission (units "a1") (units "u") external (some (units "0801234567")) (units "me")
      (units "외부 080 제공 업체")

abbrev granted : Application
granted = record asked {
  status = ServiceStatus.approved;
  reviewed_by = some (units "r");
  approved_at = some 5;
}

applied : create_application (some owner) own_number (units "a1") [] ≡ ok (asked ∷ [])
unfolding create_application create_external
applied = refl

approved_then :
    approve_for_operator (units "a1") (units "r") none none 5 (asked ∷ []) ≡ ok (granted ∷ [])
unfolding approve_for_operator find_application number_to_approve assert_no_duplicate_number update
    approved_row trim
approved_then = refl

abbrev reached : Reach [] (granted ∷ [])
reached =
    next (next here (applying (some owner) own_number (units "a1") applied))
      (approving (units "a1") (units "r") none none 5 approved_then)

approved-is_080_example : (n : Text) × (granted.unsubscribe_number ≡ some n) × (is_080 n ≡ true)
unfolding text_eq
approved-is_080_example = approved-is_080 (granted ∷ []) granted reached refl refl

-- an earlier application for the number, which was rejected
abbrev refused : Application
refused = record asked { id = units "a0"; status = rejected }

approve_for_operator-taken_example :
    approve_for_operator (units "a1") (units "r") none none 5 (asked ∷ refused ∷ [])
    ≡ err (if is_rejected refused.status then unique_violation else number_in_use)
unfolding find_application number_to_approve is_other_with is_of text_eq
approve_for_operator-taken_example =
    approve_for_operator-taken (units "a1") (units "r") none none 5 (asked ∷ refused ∷ []) asked
      refused (units "0801234567") refl refl refl

opt_out_text_of-digits_example :
    (text : Text) × (opt_out_text_of granted ≡ some text)
    × (is_sms_advertisement_opt_out_line text ≡ true)
    × (digits_only text ≡ units "0801234567")
unfolding is_080 after_prefix is_digit
opt_out_text_of-digits_example = opt_out_text_of-digits granted (units "0801234567") refl refl
