-- ===== src/Logger/Laws.antt =====
-- What the log shows of secrets, and how long its texts are.
use xiaozhi_esp32_golang_ser.Prelude.{ℕ, ◌+◌, ◌≤◌, ◌≡◌, ◌⊎◌, Bool, true, false, List, length, All}
use xiaozhi_esp32_golang_ser.Session.Message.{Text}
use xiaozhi_esp32_golang_ser.Session.Message.Parse.{codes}
use xiaozhi_esp32_golang_ser.Logger.{
  default_truncate_limit, default_max_string_limit, Value, bytes, samples, headers, error_value,
  string_value, Shown, shown_headers, shown_text, redacted, redacted_value, is_sensitive_string,
  is_sensitive_key, is_auto_truncate_key, safe_replace_attr,
}

-- A value of which a sensitive key hides all.
unfoldable pub is_hidden : Value → Bool
is_hidden (bytes n) = false
is_hidden (samples n) = false
is_hidden (headers h) = false
is_hidden other = true

-- The length of a text that is shown; headers are looked at one by one, and a note holds a number only.
unfoldable pub shown_length : Shown → ℕ
shown_length (shown_text t) = length t
shown_length other = 0

module _ (to_lower : Text → Text) where
  -- A header that is shown.
  pub record IsDiscreetHeader (h : Text × Text) : Type 0 where
    pub hides : is_sensitive_key to_lower h.0 ≡ true → h.1 ≡ redacted_value
    pub bounded : length h.1 ≤ default_truncate_limit + 3

  -- What the log shows of an attribute with this key.
  pub record IsDiscreet (key : Text) : Type 0 where
    pub hides :
        (v : Value)
        → is_sensitive_key to_lower key ≡ true
        → is_hidden v ≡ true
        → safe_replace_attr to_lower key v ≡ redacted
    pub hides_bearer :
        (s : Text)
        → is_sensitive_string to_lower s ≡ true
        → ((safe_replace_attr to_lower key (string_value s) ≡ redacted)
            ⊎ (safe_replace_attr to_lower key (string_value s)
                ≡ shown_text (codes "Bearer [REDACTED]")))
          × (safe_replace_attr to_lower key (error_value s) ≡ redacted)
    pub bounded :
        (s : Text)
        → (shown_length (safe_replace_attr to_lower key (string_value s))
            ≤ default_max_string_limit + 3)
          × (shown_length (safe_replace_attr to_lower key (error_value s))
              ≤ default_max_string_limit + 3)
    pub truncated :
        (s : Text)
        → is_auto_truncate_key to_lower key ≡ true
        → (shown_length (safe_replace_attr to_lower key (string_value s))
            ≤ default_truncate_limit + 3)
          × (shown_length (safe_replace_attr to_lower key (error_value s))
              ≤ default_truncate_limit + 3)
    pub hides_headers :
        (h : List (Text × List Text))
        → (shown : List (Text × Text)) × ((safe_replace_attr to_lower key (headers h)
              ≡ shown_headers shown)
            × All IsDiscreetHeader shown)
