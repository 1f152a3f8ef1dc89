-- ===== src/Logger/Tests.antt =====
-- The theorem on the log at a concrete key, and what two attributes become.
use xiaozhi_esp32_golang_ser.Prelude.{◌+◌, ◌≡◌, refl, ◌&&◌, map, leb, if◌then◌else◌}
use xiaozhi_esp32_golang_ser.Session.Splitter.{
  trim_space, trim_right, drop_spaces, is_empty, is_space, one_of,
}
use xiaozhi_esp32_golang_ser.Session.Message.{Text}
use xiaozhi_esp32_golang_ser.Session.Message.Parse.{codes, text_eq}
use xiaozhi_esp32_golang_ser.Config.{is_one_of}
use xiaozhi_esp32_golang_ser.Logger.{
  string_value, redacted, shown_text, is_sensitive_string, is_sensitive_key, is_auto_truncate_key,
  replace_string, safe_replace_attr, truncate_string, truncate, normal_key, has_one_suffix,
  has_prefix, replace_all, has_suffix,
}

abbrev ascii_lower : Text → Text
ascii_lower s = map (λ c. if leb 0x41 c && leb c 0x5a then c + 0x20 else c) s

api_key_hidden :
    safe_replace_attr ascii_lower (codes " Api-Key") (string_value (codes "sk-1")) ≡ redacted
unfolding safe_replace_attr is_sensitive_key normal_key replace_all is_one_of text_eq trim_space
    trim_right drop_spaces is_empty is_space one_of has_one_suffix has_suffix
api_key_hidden = refl

short_text_shown :
    safe_replace_attr ascii_lower (codes "msg") (string_value (codes "hello"))
    ≡ shown_text (codes "hello")
unfolding safe_replace_attr is_sensitive_key normal_key replace_all is_one_of text_eq trim_space
    trim_right drop_spaces is_empty is_space one_of has_one_suffix has_suffix replace_string
    is_sensitive_string has_prefix is_auto_truncate_key truncate_string truncate
short_text_shown = refl
