-- ===== src/Session/Message.antt =====
-- The messages that client and server exchange: internal/session/message.go, hello.go and
-- server_message.go. A text is the list of its code points. JSON is not modelled as bytes: a server
-- message stands for its encoding.
pub mod Hello
pub mod Parse
pub mod TextLaws
use xiaozhi_esp32_golang_ser.Prelude.{ℕ, Bool, Option, none, some, List, [], ◌∷◌}

abbrev pub Text : Type 0
Text = List ℕ

-- `ParseClientMessage` gives `auto` or `manual`; a message made otherwise may leave the mode empty.
pub data ListenMode : Type 0 where
  unset auto manual : ListenMode

pub data MessageKind : Type 0 where
  hello listen_start listen_stop listen_detect abort mcp unknown_extension : MessageKind

pub record ClientMessage : Type 0 where
  pub kind : MessageKind
  pub session_id : Text
  pub mode : ListenMode
  pub detect_text : Text
  pub abort_reason : Text
  pub mcp_payload : Text
  pub raw_type : Text

pub data ServerMessage : Type 0 where
  server_hello : Text → ServerMessage
  stt : Text → Text → ServerMessage
  tts_start : Text → ServerMessage
  tts_sentence_start : Text → Text → ServerMessage
  tts_stop : Text → ServerMessage

-- The encoders check the session id; `json.Marshal` does not fail on these structures.
require_session_id : Text → ServerMessage → Option ServerMessage
require_session_id [] m = none
require_session_id (c ∷ cs) m = some m

unfoldable pub encode_server_hello_message : Text → Option ServerMessage
unfolding require_session_id
encode_server_hello_message sid = require_session_id sid (server_hello sid)

unfoldable pub encode_stt_message : Text → Text → Option ServerMessage
unfolding require_session_id
encode_stt_message sid text = require_session_id sid (stt sid text)

unfoldable pub encode_tts_start_message : Text → Option ServerMessage
unfolding require_session_id
encode_tts_start_message sid = require_session_id sid (tts_start sid)

unfoldable pub encode_tts_sentence_start_message : Text → Text → Option ServerMessage
unfolding require_session_id
encode_tts_sentence_start_message sid text = require_session_id sid (tts_sentence_start sid text)

unfoldable pub encode_tts_stop_message : Text → Option ServerMessage
unfolding require_session_id
encode_tts_stop_message sid = require_session_id sid (tts_stop sid)
