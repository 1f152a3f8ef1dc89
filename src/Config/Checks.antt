-- ===== src/Config/Checks.antt =====
-- The single checks of internal/config/config.go.
use xiaozhi_esp32_golang_ser.Prelude.{
  ℕ, ◌≡◌, ◌≢◌, ◌⊎◌, ◌↔◌, inl, inr, refl, Bool, true, false, Option, none, some, List, [], ◌∷◌, All,
  arith, Option-cases, subst, if◌then◌else◌,
}
use xiaozhi_esp32_golang_ser.Prelude.Int.{ℤ, pos, negsuc, lt_ℤ, Between, between}
use xiaozhi_esp32_golang_ser.Session.Splitter.{trim_space}
use xiaozhi_esp32_golang_ser.Session.Message.{Text}
use xiaozhi_esp32_golang_ser.Session.Message.TextLaws.{text_eq_iff}
use xiaozhi_esp32_golang_ser.Config.Settings.{Field, ConfigError}
use xiaozhi_esp32_golang_ser.Config.{
  first_error, is_blank, require, validate_range, Url, is_one_of, check_url, validate_url,
}
use xiaozhi_esp32_golang_ser.Config.Bounds.{IsOneOf, IsUrl}

pub validate_range_iff :
    (f : Field) (val : ℤ) (lo hi : ℕ) → (validate_range f val lo hi ≡ none) ↔ Between lo hi val
unfolding validate_range lt_ℤ
validate_range_iff f (pos n) lo hi = (λ h. between (ground arith) (ground arith), λ b. inside b)
  where
    inside : Between lo hi (pos n) → validate_range f (pos n) lo hi ≡ none
    inside (between p q) = ground arith
validate_range_iff f (negsuc n) lo hi = (λ h. cc, λ b. outside b)
  where
    outside : Between lo hi (negsuc n) → validate_range f (negsuc n) lo hi ≡ none
    outside b = elim b [ ]

is_blank_iff : (t : Text) → (is_blank t ≡ false) ↔ (trim_space t ≢ [])
unfolding is_blank
is_blank_iff t = (λ h. ground arith, λ h. ground arith)

pub require_iff : (f : Field) (t : Text) → (require f t ≡ none) ↔ (trim_space t ≢ [])
unfolding require
require_iff f t = (λ h. ground (arith, is_blank_iff t), λ h. ground (arith, is_blank_iff t))

pub first_error_iff :
    (checks : List (Option ConfigError)) → (first_error checks ≡ none) ↔ All (λ o. o ≡ none) checks
unfolding first_error
first_error_iff [] = (λ h. tt, λ v. refl)
first_error_iff (none ∷ checks) =
    (λ h. (refl, (first_error_iff checks).0 h), λ v. (first_error_iff checks).1 v.1)
first_error_iff (some e ∷ checks) = (λ h. cc, λ v. cc)

-- A check that is made under a condition only.
pub when_iff :
    {P : Type 0} (b : Bool) (o : Option ConfigError)
    → ((o ≡ none) ↔ P)
    → ((if b then o else none) ≡ none) ↔ ((b ≡ false) ⊎ ((b ≡ true) × P))
when_iff true o e = (λ h. inr (refl, e.0 h), λ v. elim v [ inl p ↦ absurd cc | inr p ↦ e.1 p.1 ])
when_iff false o e = (λ h. inl refl, λ v. refl)

pub must_iff : (b : Bool) (e : ConfigError) → ((if b then none else some e) ≡ none) ↔ (b ≡ true)
must_iff true e = (λ h. refl, λ h. refl)
must_iff false e = (λ h. cc, λ h. cc)

pub must_not_iff :
    (b : Bool) (e : ConfigError) → ((if b then some e else none) ≡ none) ↔ (b ≡ false)
must_not_iff true e = (λ h. cc, λ h. cc)
must_not_iff false e = (λ h. refl, λ h. refl)

pub is_one_of_iff : (t : Text) (ss : List Text) → (is_one_of t ss ≡ true) ↔ IsOneOf t ss
unfolding is_one_of
is_one_of_iff t [] = (λ h. cc, λ v. elim v [ ])
is_one_of_iff t (s ∷ ss) = (
  λ h. ground (arith, text_eq_iff t s, is_one_of_iff t ss),
  λ v. ground (arith, text_eq_iff t s, is_one_of_iff t ss),
)

check_url_sound :
    (f : Field) (schemes : List Text) (u : Url)
    → check_url f schemes (some u) ≡ none
    → IsOneOf u.scheme schemes × (u.host ≢ [])
unfolding check_url
check_url_sound f schemes u h =
    ground (arith, is_one_of_iff u.scheme schemes, text_eq_iff u.host [])

check_url_complete :
    (f : Field) (schemes : List Text) (u : Url)
    → IsOneOf u.scheme schemes
    → u.host ≢ []
    → check_url f schemes (some u) ≡ none
unfolding check_url
check_url_complete f schemes u s h =
    ground (arith, is_one_of_iff u.scheme schemes, text_eq_iff u.host [])

module _ (parse_url : Text → Option Url) where
  checked :
      (f : Field) (schemes : List Text) (raw_url : Text)
      → validate_url parse_url f schemes raw_url ≡ none
      → (trim_space raw_url ≢ []) × (check_url f schemes (parse_url raw_url) ≡ none)
  unfolding validate_url
  checked f schemes raw_url h = ground (arith, is_blank_iff raw_url)

  passed-IsUrl :
      (f : Field) (schemes : List Text) (raw_url : Text)
      → validate_url parse_url f schemes raw_url ≡ none
      → IsUrl parse_url schemes raw_url
  unfolding check_url
  passed-IsUrl f schemes raw_url h =
      let (nb, ok) = checked f schemes raw_url h in
      elim (Option-cases (parse_url raw_url)) [
        | inl e ↦ let bad = subst (λ o. check_url f schemes o ≡ none) e ok in cc
        | inr p ↦
            let good =
              check_url_sound f schemes p.0 (subst (λ o. check_url f schemes o ≡ none) p.1 ok) in
            record { not_blank = nb; url = p.0; parses = p.1; scheme = good.0; host = good.1 }
      ]

  url_passes :
      (f : Field) (schemes : List Text) (raw_url : Text)
      → IsUrl parse_url schemes raw_url
      → validate_url parse_url f schemes raw_url ≡ none
  unfolding validate_url
  url_passes f schemes raw_url v =
      simp
        (
          (is_blank_iff raw_url).1 v.not_blank,
          v.parses,
          check_url_complete f schemes v.url v.scheme v.host,
        )
        refl

  pub validate_url_iff :
      (f : Field) (schemes : List Text) (raw_url : Text)
      → (validate_url parse_url f schemes raw_url ≡ none) ↔ IsUrl parse_url schemes raw_url
  validate_url_iff f schemes raw_url =
      (passed-IsUrl f schemes raw_url, url_passes f schemes raw_url)
