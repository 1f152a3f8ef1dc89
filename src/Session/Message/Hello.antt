-- ===== src/Session/Message/Hello.antt =====
-- `ClientHelloMessage` and `ValidateClientHello` of internal/session/hello.go, behind the decoding of its
-- JSON. Numbers are natural: a negative one, which JSON may hold, is unequal to what is expected, as is
-- any other wrong number.
use xiaozhi_esp32_golang_ser.Prelude.{
  ℕ, ◌≡◌, ◌↔◌, Bool, Option, none, some, ◌==◌, if◌then◌else◌, arith,
}
use Prim.Native.String.{String}
use text.Mathlib.Text.{◌==◌ as str_eq}
use text.Mathlib.TextEquality.{eq_iff}

pub record ClientAudioParams : Type 0 where
  pub format : String
  pub sample_rate : ℕ
  pub channels : ℕ
  pub frame_duration : ℕ

pub record ClientHelloMessage : Type 0 where
  pub message_type : String
  pub version : ℕ
  pub transport : String
  pub mcp : Bool
  pub audio_params : ClientAudioParams

pub data HelloError : Type 0 where
  nil_message invalid_message_type invalid_protocol_ver invalid_transport : HelloError
  invalid_audio_format invalid_sample_rate invalid_channels invalid_frame_duration : HelloError

validate_fields : ClientHelloMessage → Option HelloError
validate_fields msg =
    if str_eq msg.message_type "hello"
    then if msg.version == 1
      then if str_eq msg.transport "websocket"
        then if str_eq msg.audio_params.format "opus"
          then if msg.audio_params.sample_rate == 16000
            then if msg.audio_params.channels == 1
              then if msg.audio_params.frame_duration == 60
                then none
                else some invalid_frame_duration
              else some invalid_channels
            else some invalid_sample_rate
          else some invalid_audio_format
        else some invalid_transport
      else some invalid_protocol_ver
    else some invalid_message_type

unfoldable pub validate_client_hello : Option ClientHelloMessage → Option HelloError
unfolding validate_fields
validate_client_hello none = some nil_message
validate_client_hello (some msg) = validate_fields msg

-- The handshake that the server accepts.
pub record IsAccepted (msg : ClientHelloMessage) : Type 0 where
  pub greets : msg.message_type ≡ "hello"
  pub first_version : msg.version ≡ 1
  pub over_websocket : msg.transport ≡ "websocket"
  pub opus : msg.audio_params.format ≡ "opus"
  pub rate : msg.audio_params.sample_rate ≡ 16000
  pub mono : msg.audio_params.channels ≡ 1
  pub frame : msg.audio_params.frame_duration ≡ 60

-- The validation accepts a hello exactly if every field has the one value that the protocol allows.
pub validate_client_hello_iff :
    (msg : ClientHelloMessage) → (validate_client_hello (some msg) ≡ none) ↔ IsAccepted msg
unfolding validate_client_hello
validate_client_hello_iff msg = (λ h. fields h, λ a. accepted a)
  where
    fields : validate_client_hello (some msg) ≡ none → IsAccepted msg
    fields h = ground (
      arith,
      eq_iff msg.message_type "hello",
      eq_iff msg.transport "websocket",
      eq_iff msg.audio_params.format "opus",
    )

    accepted : IsAccepted msg → validate_client_hello (some msg) ≡ none
    accepted a = ground (
      arith,
      eq_iff msg.message_type "hello",
      eq_iff msg.transport "websocket",
      eq_iff msg.audio_params.format "opus",
    )
