-- ===== src/Logger.antt =====
-- What the log may show: internal/logger/logger.go. `strings.ToLower` is a parameter. An attribute's value is
-- known as far as `SafeReplaceAttr` looks; what it becomes is `Shown`. The rate limiter is left out.
pub mod Laws
mod Tests
use Prim.Native.String.{String}
use xiaozhi_esp32_golang_ser.Prelude.{
  ℕ, zero, suc, Bool, true, false, ◌&&◌, ◌||◌, Option, none, some, List, [], ◌∷◌, ◌++◌, length,
  take, leb, ltb, ◌==◌, map, if◌then◌else◌,
}
use xiaozhi_esp32_golang_ser.Session.Splitter.{trim_space}
use xiaozhi_esp32_golang_ser.Session.Message.{Text}
use xiaozhi_esp32_golang_ser.Session.Message.Parse.{text_eq, codes}
use xiaozhi_esp32_golang_ser.Config.{is_one_of}

abbrev pub default_truncate_limit : ℕ
default_truncate_limit = 64

abbrev pub default_max_string_limit : ℕ
default_max_string_limit = 1024

-- A limit that is not positive is 0.
unfoldable pub truncate : Text → ℕ → Text
truncate s zero = []
truncate s (suc n) = if leb (length s) (suc n) then s else take (suc n) s ++ codes "..."

unfoldable pub truncate_string : Text → Text
truncate_string s = truncate s default_truncate_limit

-- `strings.HasPrefix` and `strings.HasSuffix`.
unfoldable pub has_prefix : Text → Text → Bool
has_prefix s [] = true
has_prefix [] (p ∷ prefix) = false
has_prefix (c ∷ s) (p ∷ prefix) = c == p && has_prefix s prefix

unfoldable pub has_suffix : Text → Text → Bool
unfolding text_eq
has_suffix [] suffix = text_eq [] suffix
has_suffix (c ∷ s) suffix = text_eq (c ∷ s) suffix || has_suffix s suffix

unfoldable pub has_one_suffix : Text → List Text → Bool
unfolding has_suffix
has_one_suffix s [] = false
has_one_suffix s (x ∷ xs) = has_suffix s x || has_one_suffix s xs

-- `strings.ReplaceAll` of one rune by another.
unfoldable pub replace_all : ℕ → ℕ → Text → Text
replace_all old new s = map (λ c. if c == old then new else c) s

-- `strings.Join`.
unfoldable pub join : Text → List Text → Text
join sep [] = []
join sep (s ∷ []) = s
join sep (s ∷ t ∷ ss) = s ++ sep ++ join sep (t ∷ ss)

abbrev pub sensitive_keys : List Text
sensitive_keys = map codes (
    "authorization" ∷ "proxy_authorization" ∷ "auth" ∷ "cookie" ∷ "set_cookie" ∷ "dashscope_api_key"
    ∷ "device_shared_token" ∷ "api_key" ∷ "apikey" ∷ "x_api_key" ∷ "key" ∷ "token" ∷ "access_token"
    ∷ "refresh_token" ∷ "id_token" ∷ "bearer_token" ∷ "shared_token" ∷ "session_token" ∷ "secret"
    ∷ "client_secret" ∷ "app_secret" ∷ "password" ∷ "passwd" ∷ "pass" ∷ "private_key" ∷ "credential"
    ∷ "credentials" ∷ "prompt" ∷ "system_prompt" ∷ "full_prompt" ∷ "user_prompt" ∷ "conversation"
    ∷ "dialogue" ∷ "dialog" ∷ "messages" ∷ "history" ∷ "chat_history" ∷ "user_text"
    ∷ "assistant_text" ∷ "user_message" ∷ "assistant_message" ∷ "full_text" ∷ "conversation_text"
    ∷ "pcm" ∷ "raw_pcm" ∷ "opus" ∷ "raw_opus" ∷ "audio_pcm" ∷ "audio_opus" ∷ "pcm_data"
    ∷ "opus_data" ∷ "audio_data" ∷ "audio_bytes" ∷ "pcm_bytes" ∷ "opus_bytes" ∷ [])

abbrev pub sensitive_suffixes : List Text
sensitive_suffixes = map codes (
    "_token" ∷ "_secret" ∷ "_password" ∷ "_passwd" ∷ "_api_key" ∷ "_apikey" ∷ "_key" ∷ "_prompt"
    ∷ "_history" ∷ "_conversation" ∷ "_dialog" ∷ "_dialogue" ∷ "_credentials" ∷ "_credential"
    ∷ "_pcm" ∷ "_opus" ∷ [])

abbrev pub truncated_keys : List Text
truncated_keys = map codes (
    "device_id" ∷ "client_id" ∷ "serial_number" ∷ "session_id" ∷ "reason" ∷ "error_summary"
    ∷ "payload_summary" ∷ "user_agent" ∷ "activation_version" ∷ "raw_type" ∷ "text" ∷ "msg"
    ∷ "error" ∷ "err" ∷ "path" ∷ "remote_addr" ∷ "addr" ∷ "url" ∷ [])

abbrev pub truncated_suffixes : List Text
truncated_suffixes = map codes ("_id" ∷ "_summary" ∷ "_name" ∷ "_version" ∷ [])

-- A value of an attribute. `other_value` is of any type that is not looked at, with its text in the log.
pub data Value : Type 0 where
  nil : Value
  other_value : Text → Value
  bytes samples : ℕ → Value
  headers : List (Text × List Text) → Value
  error_value : Text → Value
  string_value : Text → Value

abbrev pub redacted_value : Text
redacted_value = codes "[REDACTED]"

-- What is written: no value, a note on its size, headers, or a text. A value that is returned as it is is
-- shown by its text.
pub data Shown : Type 0 where
  shown_nil : Shown
  binary_note pcm_note : ℕ → Shown
  shown_headers : List (Text × Text) → Shown
  shown_text : Text → Shown

abbrev pub redacted : Shown
redacted = shown_text redacted_value

module _ (to_lower : Text → Text) where
  unfoldable pub is_sensitive_string : Text → Bool
  unfolding has_prefix
  is_sensitive_string s = has_prefix (to_lower (trim_space s)) (codes "bearer ")

  unfoldable pub normal_key : Text → Text
  unfolding replace_all
  normal_key key = replace_all 0x20 0x5f (replace_all 0x2d 0x5f (to_lower (trim_space key)))

  unfoldable pub is_sensitive_key : Text → Bool
  unfolding normal_key has_one_suffix
  is_sensitive_key key =
      is_one_of (normal_key key) sensitive_keys
      || has_one_suffix (normal_key key) sensitive_suffixes

  -- It does not replace spaces.
  unfoldable pub is_auto_truncate_key : Text → Bool
  unfolding replace_all has_one_suffix
  is_auto_truncate_key key =
      let k = replace_all 0x2d 0x5f (to_lower (trim_space key)) in
      is_one_of k truncated_keys || has_one_suffix k truncated_suffixes

  unfoldable pub sanitize_header : Text × List Text → Text × Text
  sanitize_header (k, vals) =
      if is_sensitive_key k
      then (k, redacted_value)
      else (k, truncate_string (join (codes ", ") vals))

  unfoldable pub sanitize_headers : List (Text × List Text) → List (Text × Text)
  sanitize_headers h = map sanitize_header h

  unfoldable pub replace_error : Text → Text → Shown
  replace_error key text =
      if is_sensitive_string text
      then redacted
      else if is_auto_truncate_key key
      then shown_text (truncate_string text)
      else shown_text (truncate text default_max_string_limit)

  -- A sensitive text starts with `bearer `, the one case that the code tells apart again.
  unfoldable pub replace_string : Text → Text → Shown
  replace_string key s =
      if is_sensitive_string s
      then shown_text (codes "Bearer " ++ redacted_value)
      else if is_auto_truncate_key key
      then shown_text (truncate_string s)
      else if ltb default_max_string_limit (length s)
      then shown_text (truncate s default_max_string_limit)
      else shown_text s

  unfoldable pub safe_replace_attr : Text → Value → Shown
  safe_replace_attr key (bytes n) = binary_note n
  safe_replace_attr key (samples n) = pcm_note n
  safe_replace_attr key (headers h) = shown_headers (sanitize_headers h)
  safe_replace_attr key nil = if is_sensitive_key key then redacted else shown_nil
  safe_replace_attr key (other_value text) =
      if is_sensitive_key key then redacted else shown_text text
  safe_replace_attr key (error_value text) =
      if is_sensitive_key key then redacted else replace_error key text
  safe_replace_attr key (string_value s) =
      if is_sensitive_key key then redacted else replace_string key s
