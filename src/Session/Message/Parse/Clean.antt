-- ===== src/Session/Message/Parse/Clean.antt =====
-- What the parser promises of a message that it lets through.
use xiaozhi_esp32_golang_ser.Prelude.{
  ℕ, ◌≤◌, ◌≡◌, ◌≢◌, ◌⊎◌, inr, refl, Bool, true, false, Option, none, some, List, [], ◌∷◌, length,
  ltb, ◌==◌, if◌then◌else◌, arith, subst,
}
use xiaozhi_esp32_golang_ser.Session.Message.{
  Text, unset, auto, manual, MessageKind, ClientMessage, hello, listen_start, listen_stop,
  listen_detect, abort, mcp, unknown_extension,
}
use xiaozhi_esp32_golang_ser.Session.Message.Parse.{
  RawMap, RawMessage, Decoded, syntax_error, not_an_object, null_object, object, Parsed, ok, err,
  ◌>>=◌, limited, as_string, optional_text, present_text, filled, required_text, start_mode,
  listen_state, parse_listen_message, parse_abort_message, of_type, parse_fields, parse_decoded,
  parse_client_message_with_limit, field, codes, max_text_field_length,
  max_client_text_message_bytes, text_eq, invalid_listen_state, empty_message, message_too_large,
  message, raw_of,
}

-- No text field is longer than 1024 characters; a start of listening names one of the two modes, and
-- nothing else names any.
pub record IsClean (msg : ClientMessage) : Type 0 where
  pub short_session_id : length msg.session_id ≤ max_text_field_length
  pub short_detect_text : length msg.detect_text ≤ max_text_field_length
  pub short_reason : length msg.abort_reason ≤ max_text_field_length
  pub short_type : length msg.raw_type ≤ max_text_field_length
  pub start_mode_set :
      ((msg.kind ≡ listen_start) × ((msg.mode ≡ auto) ⊎ (msg.mode ≡ manual)))
      ⊎ ((msg.kind ≢ listen_start) × (msg.mode ≡ unset))

abbrev Clean : Parsed ClientMessage → Type 0
Clean (ok msg) = IsClean msg
Clean (err e) = Unit {0}

abbrev Short : Parsed Text → Type 0
Short (ok t) = length t ≤ max_text_field_length
Short (err e) = Unit {0}

limited-Short : (t : Text) → Short (limited t)
unfolding limited
limited-Short t = ground arith

filled-Short : (t : Text) → Short (filled t)
unfolding filled
filled-Short [] = tt
filled-Short (c ∷ t) = limited-Short (c ∷ t)

bind-Short :
    (m : Parsed Text) (f : Text → Parsed Text) → ((t : Text) → Short (f t)) → Short (m >>= f)
bind-Short (ok t) f h = h t
bind-Short (err e) f h = tt

bind-Clean :
    (m : Parsed Text) (f : Text → Parsed ClientMessage)
    → Short m
    → ((t : Text) → length t ≤ max_text_field_length → Clean (f t))
    → Clean (m >>= f)
bind-Clean (ok t) f short h = h t short
bind-Clean (err e) f short h = tt

if-Clean : (b : Bool) (x y : Parsed ClientMessage) → Clean x → Clean y → Clean (if b then x else y)
if-Clean true x y p q = p
if-Clean false x y p q = q

optional_text-Short : (r : Option RawMessage) → Short (optional_text r)
unfolding optional_text
optional_text-Short none = omega arith
optional_text-Short (some r) = bind-Short (as_string r.value) limited limited-Short

present_text-Short : (r : Option RawMessage) → Short (present_text r)
unfolding present_text
present_text-Short none = tt
present_text-Short (some r) = bind-Short (as_string r.value) limited limited-Short

required_text-Short : (r : Option RawMessage) → Short (required_text r)
unfolding required_text
required_text-Short none = tt
required_text-Short (some r) = bind-Short (as_string r.value) filled filled-Short

module _ (sid : Text) (short : length sid ≤ max_text_field_length) where
  start_mode-Clean :
      (mode : Text) → length mode ≤ max_text_field_length → Clean (start_mode sid mode)
  unfolding start_mode
  start_mode-Clean mode h = ground arith

  other-Clean :
      (kind : MessageKind) (detect reason payload type : Text)
      → kind ≢ listen_start
      → length detect ≤ max_text_field_length
      → length reason ≤ max_text_field_length
      → length type ≤ max_text_field_length
      → IsClean (message kind sid unset detect reason payload type)
  other-Clean kind detect reason payload type other p q r = record {
    short_session_id = short;
    short_detect_text = p;
    short_reason = q;
    short_type = r;
    start_mode_set = inr (other, refl);
  }

  detect-Clean :
      (r : Option RawMessage)
      → Clean (optional_text r >>= λ text. ok (message listen_detect sid unset text [] [] []))
  detect-Clean r =
      bind-Clean (optional_text r) (λ text. ok (message listen_detect sid unset text [] [] []))
        (optional_text-Short r)
        (λ t p. other-Clean listen_detect t [] [] [] (ground arith) p (omega arith) (omega arith))

  abort-Clean :
      (r : Option RawMessage)
      → Clean (optional_text r >>= λ text. ok (message abort sid unset [] text [] []))
  abort-Clean r =
      bind-Clean (optional_text r) (λ text. ok (message abort sid unset [] text [] []))
        (optional_text-Short r)
        (λ t p. other-Clean abort [] t [] [] (ground arith) (omega arith) p (omega arith))

  listen_state-Clean :
      (fields : RawMap) (state : Text)
      → length state ≤ max_text_field_length
      → Clean (listen_state fields sid state)
  unfolding listen_state
  listen_state-Clean fields state h =
      let mode = field (codes "mode") fields in
      let text = field (codes "text") fields in
      let stopped = message listen_stop sid unset [] [] [] [] in
      let detected = optional_text text >>= λ t. ok (message listen_detect sid unset t [] [] []) in
      let refused = err invalid_listen_state in
      let on_detect = if text_eq state (codes "detect") then detected else refused in
      if-Clean (text_eq state (codes "start")) (present_text mode >>= start_mode sid)
        (if text_eq state (codes "stop") then ok stopped else on_detect)
        (bind-Clean (present_text mode) (start_mode sid) (present_text-Short mode) start_mode-Clean)
        (if-Clean (text_eq state (codes "stop")) (ok stopped) on_detect
          (other-Clean listen_stop [] [] [] [] (ground arith) (omega arith) (omega arith)
            (omega arith))
          (if-Clean (text_eq state (codes "detect")) detected refused (detect-Clean text) tt))

  parse_listen_message-Clean : (fields : RawMap) → Clean (parse_listen_message fields sid)
  unfolding parse_listen_message
  parse_listen_message-Clean fields =
      let state = field (codes "state") fields in
      bind-Clean (required_text state) (listen_state fields sid) (required_text-Short state)
        (listen_state-Clean fields)

  of_type-Clean :
      (fields : RawMap) (type : Text)
      → length type ≤ max_text_field_length
      → Clean (of_type fields sid type)
  unfolding of_type parse_abort_message
  of_type-Clean fields type h =
      let payload = raw_of (field (codes "payload") fields) in
      let reason = field (codes "reason") fields in
      let on_hello = ok (message hello sid unset [] [] [] []) in
      let on_listen = parse_listen_message fields sid in
      let on_abort = optional_text reason >>= λ t. ok (message abort sid unset [] t [] []) in
      let on_mcp = ok (message mcp sid unset [] [] payload []) in
      let on_rest = ok (message unknown_extension sid unset [] [] [] type) in
      let from_mcp = if text_eq type (codes "mcp") then on_mcp else on_rest in
      let from_abort = if text_eq type (codes "abort") then on_abort else from_mcp in
      if-Clean (text_eq type (codes "hello")) on_hello
        (if text_eq type (codes "listen") then on_listen else from_abort)
        (other-Clean hello [] [] [] [] (ground arith) (omega arith) (omega arith) (omega arith))
        (if-Clean (text_eq type (codes "listen")) on_listen from_abort
          (parse_listen_message-Clean fields)
          (if-Clean (text_eq type (codes "abort")) on_abort from_mcp (abort-Clean reason) (
            if-Clean (text_eq type (codes "mcp")) on_mcp on_rest
              (other-Clean mcp [] [] payload [] (ground arith) (omega arith) (omega arith)
                (omega arith))
              (other-Clean unknown_extension [] [] [] type (ground arith) (omega arith)
                (omega arith) h))))

parse_decoded-Clean : (d : Decoded) → Clean (parse_decoded d)
unfolding parse_decoded parse_fields
parse_decoded-Clean syntax_error = tt
parse_decoded-Clean not_an_object = tt
parse_decoded-Clean null_object = tt
parse_decoded-Clean (object fields) =
    let sid = field (codes "session_id") fields in
    let type = field (codes "type") fields in
    bind-Clean (optional_text sid) (λ s. required_text type >>= of_type fields s)
      (optional_text-Short sid)
      (λ s p.
        bind-Clean (required_text type) (of_type fields s) (required_text-Short type)
          (of_type-Clean s p fields))

with_limit-Clean :
    (unmarshal : List ℕ → Decoded) (bytes : List ℕ) (max_bytes : ℕ)
    → Clean (parse_client_message_with_limit unmarshal bytes max_bytes)
unfolding parse_client_message_with_limit
with_limit-Clean unmarshal bytes max_bytes = if-Clean (length bytes == 0) (err empty_message) _ tt (
    if-Clean
      (ltb (if max_bytes == 0 then max_client_text_message_bytes else max_bytes) (length bytes))
      (err message_too_large) (parse_decoded (unmarshal bytes)) tt
      (parse_decoded-Clean (unmarshal bytes)))

-- A message that the parser accepts, under any limit on its size and whatever the decoder makes of its
-- bytes, has no text field longer than 1024 characters, and has a listen mode, one of the two, exactly
-- when it is a start of listening.
pub parse_client_message-IsClean :
    (unmarshal : List ℕ → Decoded) (bytes : List ℕ) (max_bytes : ℕ) {msg : ClientMessage}
    → parse_client_message_with_limit unmarshal bytes max_bytes ≡ ok msg
    → IsClean msg
parse_client_message-IsClean unmarshal bytes max_bytes e =
    subst Clean e (with_limit-Clean unmarshal bytes max_bytes)
