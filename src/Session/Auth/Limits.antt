-- ===== src/Session/Auth/Limits.antt =====
-- The limits on the headers, in terms of sums, so that the order in which the map gives them is no matter.
use xiaozhi_esp32_golang_ser.Prelude.{
  ℕ, ◌+◌, ◌≤◌, ◌≡◌, ◌≢◌, ◌⊎◌, ◌↔◌, inl, inr, refl, none, some, List, [], ◌∷◌, ◌==◌, if◌then◌else◌,
  All, arith, Option-cases,
}
use xiaozhi_esp32_golang_ser.Session.Message.{Text}
use xiaozhi_esp32_golang_ser.Session.Auth.{
  Header, header_too_large, byte_length, check_values, check_headers, validate_headers,
  max_single_header_bytes, max_total_header_bytes,
}

abbrev pub values_bytes : List Text → ℕ
values_bytes [] = 0
values_bytes (val ∷ values) = byte_length val + values_bytes values

abbrev pub header_bytes : Header → ℕ
header_bytes [] = 0
header_bytes ((key, values) ∷ headers) =
    byte_length key + values_bytes values + header_bytes headers

-- Every key and every value is short.
abbrev pub ShortParts : ℕ → Header → Type 0
ShortParts max_single [] = Unit {0}
ShortParts max_single ((key, values) ∷ headers) =
    (byte_length key ≤ max_single)
    × All (λ val. byte_length val ≤ max_single) values
    × ShortParts max_single headers

-- A header that a client has sent has a value.
abbrev pub HasValues : Header → Type 0
HasValues [] = Unit {0}
HasValues ((key, values) ∷ headers) = (values ≢ []) × HasValues headers

check_values-some :
    (s t : ℕ) (values : List Text) (n m : ℕ)
    → check_values s t values n ≡ some m
    → (m ≡ n + values_bytes values)
      × All (λ val. byte_length val ≤ s) values
      × ((values ≡ []) ⊎ (m ≤ t))
unfolding check_values
check_values-some s t [] n m h = (ground arith, tt, inl refl)
check_values-some s t (val ∷ values) n m h =
    ground (arith, check_values-some s t values (n + byte_length val) m)

check_values_short :
    (s t : ℕ) (values : List Text) (n : ℕ)
    → All (λ val. byte_length val ≤ s) values
    → n + values_bytes values ≤ t
    → check_values s t values n ≡ some (n + values_bytes values)
unfolding check_values
check_values_short s t [] n short fits = ground arith
check_values_short s t (val ∷ values) n short fits =
    ground (arith, check_values_short s t values (n + byte_length val) short.1)

check_headers-some :
    (s t : ℕ) (headers : Header) (n m : ℕ)
    → HasValues headers
    → check_headers s t headers n ≡ some m
    → (m ≡ n + header_bytes headers) × ShortParts s headers × ((headers ≡ []) ⊎ (m ≤ t))
unfolding check_headers
check_headers-some s t [] n m valued h = (ground arith, tt, inl refl)
check_headers-some s t ((key, values) ∷ headers) n m valued h =
    elim (Option-cases (check_values s t values (n + byte_length key))) [
      | inl bad ↦ ground arith
      | inr (k, good) ↦
          let (sum, short, limited) = check_values-some s t values (n + byte_length key) k good in
          ground (arith, check_headers-some s t headers k m valued.1)
    ]

check_headers_short :
    (s t : ℕ) (headers : Header) (n : ℕ)
    → ShortParts s headers
    → n + header_bytes headers ≤ t
    → check_headers s t headers n ≡ some (n + header_bytes headers)
unfolding check_headers
check_headers_short s t [] n short fits = ground arith
check_headers_short s t ((key, values) ∷ headers) n short fits = ground (
  arith,
  check_values_short s t values (n + byte_length key) short.1,
  check_headers_short s t headers (n + byte_length key + values_bytes values) short.2,
)

passes :
    (s t : ℕ) (headers : Header)
    → HasValues headers
    → (elim (check_headers s t headers 0) [ none ↦ some header_too_large | some total ↦ none ])
      ≡ none
    → ShortParts s headers × (header_bytes headers ≤ t)
passes s t headers valued h = elim (Option-cases (check_headers s t headers 0)) [
  | inl bad ↦ ground arith
  | inr (k, good) ↦ ground (arith, check_headers-some s t headers 0 k valued good)
]

passes_back :
    (s t : ℕ) (headers : Header)
    → ShortParts s headers
    → header_bytes headers ≤ t
    → (elim (check_headers s t headers 0) [ none ↦ some header_too_large | some total ↦ none ])
      ≡ none
passes_back s t headers short fits = ground (arith, check_headers_short s t headers 0 short)

-- The headers pass exactly if every key and value is short and all together are; the order in which the
-- map gives them is no matter. Every header has a value, as those of a request do.
pub validate_headers_iff :
    (headers : Header) (max_single max_total : ℕ)
    → HasValues headers
    → (validate_headers headers max_single max_total ≡ none) ↔ (
        ShortParts (if max_single == 0 then max_single_header_bytes else max_single) headers
        × (header_bytes headers ≤ (if max_total == 0 then max_total_header_bytes else max_total)))
unfolding validate_headers
validate_headers_iff headers max_single max_total valued =
    let s : ℕ = if max_single == 0 then max_single_header_bytes else max_single in
    let t : ℕ = if max_total == 0 then max_total_header_bytes else max_total in
    (λ h. passes s t headers valued h, λ (short, fits). passes_back s t headers short fits)
