-- ===== src/Audio/Errors.antt =====
-- The sentinel errors of internal/audio/encoder.go and decoder.go (`fmt.Errorf` wraps them with numbers
-- for the log, which `errors.Is` looks through), and results that may be one.
pub data AudioError : Type 0 where
  invalid_pcm_bytes encode_failed encoder_closed encoder_is_nil : AudioError
  empty_packet packet_too_large decode_failed invalid_sample_count : AudioError

pub data Result {ℓ} (A : Type ℓ) : Type ℓ where
  ok : A → Result A
  err : AudioError → Result A

abbrev pub map_ok {ℓ κ} : {A : Type ℓ} {B : Type κ} → (A → B) → Result A → Result B
map_ok f (ok a) = ok (f a)
map_ok f (err e) = err e
