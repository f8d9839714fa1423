-- ===== src/Sms/Tests.antt =====
-- Concrete texts for the SMS rules.
use noti.Common.{◌≡◌, ◌≤◌, refl}
use noti.Text.{units}
use noti.Sms.{get_domestic_sms_byte_length, truncate_domestic_sms_text}
use noti.Sms.Bounds.{byte_length-truncate}

hangul_bytes : get_domestic_sms_byte_length (units "안녕 a") ≡ 6
unfolding get_domestic_sms_byte_length
hangul_bytes = refl

truncated_hangul : truncate_domestic_sms_text (units "안녕 a") 3 ≡ units "안"
unfolding truncate_domestic_sms_text
truncated_hangul = refl

byte_length-truncate_example :
    get_domestic_sms_byte_length (truncate_domestic_sms_text (units "안녕 a") 3) ≤ 3
byte_length-truncate_example = byte_length-truncate (units "안녕 a") 3
