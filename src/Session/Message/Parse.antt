-- ===== src/Session/Message/Parse.antt =====
-- `ParseClientMessage` of internal/session/message.go. The JSON decoder is a parameter: what
-- `json.Unmarshal` gives for the bytes of a message is `Decoded`, an object as the list of its fields. A
-- field's value is known as far as the parser looks: null, a string, or anything else, with its raw text.
pub mod Clean
use xiaozhi_esp32_golang_ser.Prelude.{
  ℕ, ◌≤◌, ◌<◌, ◌≡◌, ◌≢◌, ◌⊎◌, inl, inr, refl, Bool, true, false, ◌&&◌, Option, none, some, List, [],
  ◌∷◌, length, ltb, ◌==◌, if◌then◌else◌, arith, Bool-cases,
}
use Prim.Native.String.{String}
use Prim.Native.Char.{code}
use xiaozhi_esp32_golang_ser.Session.Message.{
  Text, ListenMode, unset, auto, manual, MessageKind, ClientMessage, hello, listen_start,
  listen_stop, listen_detect, abort, mcp, unknown_extension,
}

pub data JsonValue : Type 0 where
  null : JsonValue
  str : Text → JsonValue
  other_value : JsonValue

pub record RawMessage : Type 0 where
  pub value : JsonValue
  pub raw : Text

abbrev pub RawMap : Type 0
RawMap = List (Text × RawMessage)

pub data Decoded : Type 0 where
  syntax_error not_an_object null_object : Decoded
  object : RawMap → Decoded

pub data ParseError : Type 0 where
  empty_message message_too_large invalid_json invalid_message_format : ParseError
  missing_required_field invalid_field_type field_too_long : ParseError
  invalid_listen_state unsupported_listen_mode invalid_listen_mode : ParseError

pub data Parsed (A : Type 0) : Type 0 where
  ok : A → Parsed A
  err : ParseError → Parsed A

infixl 5 ◌>>=◌
abbrev ◌>>=◌ : {A B : Type 0} → Parsed A → (A → Parsed B) → Parsed B
ok a >>= f = f a
err e >>= f = err e

abbrev pub max_client_text_message_bytes : ℕ
max_client_text_message_bytes = 32768

abbrev pub max_text_field_length : ℕ
max_text_field_length = 1024

-- The code points of a literal.
abbrev pub codes : String → List ℕ
codes String.[] = []
codes (String.◌∷◌ c s) = code c ∷ codes s

unfoldable pub text_eq : Text → Text → Bool
text_eq [] [] = true
text_eq (a ∷ s) (b ∷ t) = a == b && text_eq s t
text_eq _ _ = false

unfoldable pub field : Text → RawMap → Option RawMessage
field key [] = none
field key ((k, v) ∷ fields) = if text_eq k key then some v else field key fields

-- `json.Unmarshal` into a string: null leaves it empty.
as_string : JsonValue → Parsed Text
as_string null = ok []
as_string (str t) = ok t
as_string other_value = err invalid_field_type

limited : Text → Parsed Text
limited t = if ltb max_text_field_length (length t) then err field_too_long else ok t

-- A field that may be missing.
optional_text : Option RawMessage → Parsed Text
unfolding as_string limited
optional_text none = ok []
optional_text (some r) = as_string r.value >>= limited

-- A field that must be there.
present_text : Option RawMessage → Parsed Text
unfolding as_string limited
present_text none = err missing_required_field
present_text (some r) = as_string r.value >>= limited

filled : Text → Parsed Text
unfolding limited
filled [] = err missing_required_field
filled (c ∷ t) = limited (c ∷ t)

-- A field that must be there and not be empty.
required_text : Option RawMessage → Parsed Text
unfolding as_string filled
required_text none = err missing_required_field
required_text (some r) = as_string r.value >>= filled

abbrev message : MessageKind → Text → ListenMode → Text → Text → Text → Text → ClientMessage
message kind session_id mode detect_text abort_reason mcp_payload raw_type = record {
  kind = kind;
  session_id = session_id;
  mode = mode;
  detect_text = detect_text;
  abort_reason = abort_reason;
  mcp_payload = mcp_payload;
  raw_type = raw_type;
}

start_mode : Text → Text → Parsed ClientMessage
start_mode sid mode =
    if text_eq mode (codes "realtime")
    then err unsupported_listen_mode
    else if text_eq mode (codes "auto")
    then ok (message listen_start sid auto [] [] [] [])
    else if text_eq mode (codes "manual")
    then ok (message listen_start sid manual [] [] [] [])
    else err invalid_listen_mode

listen_state : RawMap → Text → Text → Parsed ClientMessage
unfolding start_mode present_text optional_text
listen_state fields sid state =
    if text_eq state (codes "start")
    then (present_text (field (codes "mode") fields) >>= start_mode sid)
    else if text_eq state (codes "stop")
    then ok (message listen_stop sid unset [] [] [] [])
    else if text_eq state (codes "detect")
    then (optional_text (field (codes "text") fields) >>= λ text.
        ok (message listen_detect sid unset text [] [] []))
    else err invalid_listen_state

unfoldable pub parse_listen_message : RawMap → Text → Parsed ClientMessage
unfolding required_text listen_state
parse_listen_message fields sid =
    required_text (field (codes "state") fields) >>= listen_state fields sid

unfoldable pub parse_abort_message : RawMap → Text → Parsed ClientMessage
unfolding optional_text
parse_abort_message fields sid = optional_text (field (codes "reason") fields) >>= λ reason.
    ok (message abort sid unset [] reason [] [])

raw_of : Option RawMessage → Text
raw_of none = []
raw_of (some r) = r.raw

-- The `switch` on the type.
of_type : RawMap → Text → Text → Parsed ClientMessage
unfolding parse_listen_message parse_abort_message raw_of
of_type fields sid type =
    if text_eq type (codes "hello")
    then ok (message hello sid unset [] [] [] [])
    else if text_eq type (codes "listen")
    then parse_listen_message fields sid
    else if text_eq type (codes "abort")
    then parse_abort_message fields sid
    else if text_eq type (codes "mcp")
    then ok (message mcp sid unset [] [] (raw_of (field (codes "payload") fields)) [])
    else ok (message unknown_extension sid unset [] [] [] type)

parse_fields : RawMap → Parsed ClientMessage
unfolding optional_text required_text of_type
parse_fields fields = optional_text (field (codes "session_id") fields) >>= λ sid.
    (required_text (field (codes "type") fields) >>= of_type fields sid)

parse_decoded : Decoded → Parsed ClientMessage
unfolding parse_fields
parse_decoded syntax_error = err invalid_json
parse_decoded not_an_object = err invalid_message_format
parse_decoded null_object = err invalid_message_format
parse_decoded (object fields) = parse_fields fields

-- A limit that is not positive, 0 here, is replaced by the default.
unfoldable pub parse_client_message_with_limit :
    (List ℕ → Decoded) → List ℕ → ℕ → Parsed ClientMessage
unfolding parse_decoded
parse_client_message_with_limit unmarshal bytes max_bytes =
    if length bytes == 0
    then err empty_message
    else if ltb (if max_bytes == 0 then max_client_text_message_bytes else max_bytes) (length bytes)
    then err message_too_large
    else parse_decoded (unmarshal bytes)

unfoldable pub parse_client_message : (List ℕ → Decoded) → List ℕ → Parsed ClientMessage
unfolding parse_client_message_with_limit
parse_client_message unmarshal bytes =
    parse_client_message_with_limit unmarshal bytes max_client_text_message_bytes
