-- ===== src/Session/Core/Handlers.antt =====
-- The other handlers of session.go: the handshake, text messages, audio, timeouts, errors, close.
use xiaozhi_esp32_golang_ser.Prelude.{
  ℕ, Bool, true, false, ◌&&◌, ◌||◌, Option, none, some, List, [], ◌∷◌, length, ltb, ◌==◌,
  if◌then◌else◌,
}
use xiaozhi_esp32_golang_ser.Audio.Errors.{Result, ok, err}
use xiaozhi_esp32_golang_ser.Audio.AsrQueue
use xiaozhi_esp32_golang_ser.Audio.AsrQueue.{AsrAudioQueue, QueueError}
use xiaozhi_esp32_golang_ser.Audio.Decoder
use xiaozhi_esp32_golang_ser.Audio.Decoder.{Decoder}
use xiaozhi_esp32_golang_ser.Session.Writer.{WriteError}
use xiaozhi_esp32_golang_ser.Session.Message.{
  Text, ListenMode, manual, MessageKind, ClientMessage, hello, listen_start, listen_stop,
  listen_detect, abort, mcp, unknown_extension, ServerMessage, encode_server_hello_message,
  encode_tts_stop_message,
}
use xiaozhi_esp32_golang_ser.Session.Message.Hello.{
  ClientHelloMessage, HelloError, validate_client_hello,
}
use xiaozhi_esp32_golang_ser.Session.History.{or_default}
use xiaozhi_esp32_golang_ser.Session.Core.{
  State, connected, ready, listening, speaking, Session, World, CloseCode, CloseReason,
  unsupported_data, policy_violation, internal_error, normal_closure, duplicate_hello,
  first_not_text, invalid_hello_json, invalid_hello, internal_server_error, hello_write_failed,
  binary_before_hello, invalid_packet_size, no_decoder, decode_error, asr_queue_unavailable,
  default_error, timed_out, given, TimeoutReason, hello_handshake, max_listening, asr_recognition,
  other_timeout, spawns, discover_mcp_tools, answers_mcp,
}
use xiaozhi_esp32_golang_ser.Session.Core.Effects.{
  emit, stop_hello_timer, stop_pacer, send_text_message, try_send,
}
use xiaozhi_esp32_golang_ser.Session.Core.Close.{close_with_reason}
use xiaozhi_esp32_golang_ser.Session.Core.Turns
use xiaozhi_esp32_golang_ser.Session.Core.Turns.{handle_abort}

-- The handshake, from its last step to its first.

-- The answer is in the write queue, or was refused.
unfoldable pub greet : World → Bool → Text → Session × Option WriteError → Session
unfolding emit
greet w has_mcp sid (s, some e) = close_with_reason w internal_error hello_write_failed s
greet w has_mcp sid (s, none) =
    let known : Session = record s { session_id = sid; state = ready } in
    if has_mcp then emit (spawns discover_mcp_tools) known else known

unfoldable pub answer_hello : World → Bool → Text → Option ServerMessage → Session → Session
unfolding greet send_text_message
answer_hello w has_mcp sid none s = close_with_reason w internal_error internal_server_error s
answer_hello w has_mcp sid (some m) s = greet w has_mcp sid (send_text_message m s)

unfoldable pub name_session : World → Bool → Option Text → Session → Session
unfolding answer_hello encode_server_hello_message
name_session w has_mcp none s = close_with_reason w internal_error internal_server_error s
name_session w has_mcp (some sid) s = answer_hello w has_mcp sid (encode_server_hello_message sid) s

unfoldable pub accept_hello : World → ClientHelloMessage → Option HelloError → Session → Session
unfolding name_session stop_hello_timer
accept_hello w msg (some e) s = close_with_reason w policy_violation (invalid_hello e) s
accept_hello w msg none s = name_session w msg.mcp w.new_session_id (stop_hello_timer s)

unfoldable pub read_hello : World → Option ClientHelloMessage → Session → Session
unfolding accept_hello
read_hello w none s = close_with_reason w policy_violation invalid_hello_json s
read_hello w (some msg) s = accept_hello w msg (validate_client_hello (some msg)) s

unfoldable pub hello_connected : World → Option Text → Session → Session
unfolding read_hello
hello_connected w none s = close_with_reason w unsupported_data first_not_text s
hello_connected w (some raw) s = read_hello w (w.unmarshal_hello raw) s

unfoldable pub hello_in : World → Option Text → State → Session → Session
unfolding hello_connected
hello_in w raw connected s = hello_connected w raw s
hello_in w raw _ s = close_with_reason w policy_violation duplicate_hello s

unfoldable pub handle_hello : World → Option Text → Session → Session
unfolding hello_in
handle_hello w raw s = hello_in w raw s.state s

-- An MCP answer goes to the request that waits for its id.
unfoldable pub is_pending : ℕ → List ℕ → Bool
is_pending id [] = false
is_pending id (x ∷ xs) = id == x || is_pending id xs

unfoldable pub answer_mcp : Text → Option ℕ → Session → Session
unfolding emit
answer_mcp payload none s = s
answer_mcp payload (some id) s =
    if id == 0
    then s
    else if is_pending id s.pending_mcp
    then emit (answers_mcp id payload) s
    else s

unfoldable pub handle_incoming_mcp : World → Text → Session → Session
unfolding answer_mcp
handle_incoming_mcp w [] s = s
handle_incoming_mcp w (c ∷ payload) s = answer_mcp (c ∷ payload) (w.unmarshal_mcp (c ∷ payload)) s

unfoldable pub client_text_of : World → MessageKind → ClientMessage → Session → Session
client_text_of w hello msg s = close_with_reason w policy_violation duplicate_hello s
client_text_of w listen_start msg s = Turns.listen_start w msg.mode s.state s
client_text_of w listen_stop msg s = Turns.listen_stop s.state s
client_text_of w listen_detect msg s = s
client_text_of w abort msg s = handle_abort s
client_text_of w mcp msg s = handle_incoming_mcp w msg.mcp_payload s
client_text_of w unknown_extension msg s = s

unfoldable pub handle_client_text : World → Option ClientMessage → Session → Session
unfolding client_text_of
handle_client_text w none s = s
handle_client_text w (some msg) s = client_text_of w msg.kind msg s

-- Audio while listening: decode, then push.
unfoldable pub pushed : World → AsrAudioQueue × Option QueueError → Session → Session
pushed w (q, none) s = record s { asr_queue = some q }
pushed w (q, some e) s =
    close_with_reason w policy_violation asr_queue_unavailable (record s { asr_queue = some q })

unfoldable pub push_pcm : World → Option AsrAudioQueue → List ℕ → Session → Session
unfolding pushed
push_pcm w none pcm s = s
push_pcm w (some q) pcm s = pushed w (AsrQueue.push q pcm) s

unfoldable pub decoded : World → Decoder (Unit {0}) × Result (List ℕ) → Session → Session
unfolding push_pcm
decoded w (d, err e) s =
    close_with_reason w policy_violation decode_error (record s { decoder = some d })
decoded w (d, ok pcm) s = push_pcm w s.asr_queue pcm (record s { decoder = some d })

unfoldable pub decode_audio : World → Option (Decoder (Unit {0})) → List ℕ → Session → Session
unfolding decoded
decode_audio w none packet s = close_with_reason w internal_error no_decoder s
decode_audio w (some d) packet s =
    decoded w (Decoder.decode (λ u opus_data room. (u, w.opus_samples)) d packet) s

unfoldable pub is_manual : ListenMode → Bool
is_manual manual = true
is_manual _ = false

unfoldable pub audio_in : World → List ℕ → State → Session → Session
unfolding decode_audio is_manual
audio_in w packet listening s =
    if is_manual s.mode && s.manual_stop_received then s else decode_audio w s.decoder packet s
audio_in w packet _ s = s

unfoldable pub sized_audio : World → List ℕ → Session → Session
unfolding audio_in
sized_audio w packet s =
    if length packet == 0 || ltb (or_default s.config.max_opus_packet_bytes 1024) (length packet)
    then close_with_reason w policy_violation invalid_packet_size s
    else audio_in w packet s.state s

unfoldable pub audio_from : World → List ℕ → State → Session → Session
unfolding sized_audio
audio_from w packet connected s = close_with_reason w unsupported_data binary_before_hello s
audio_from w packet _ s = sized_audio w packet s

unfoldable pub handle_client_audio : World → List ℕ → Session → Session
unfolding audio_from
handle_client_audio w packet s = audio_from w packet s.state s

unfoldable pub is_connected : State → Bool
is_connected connected = true
is_connected _ = false

unfoldable pub is_listening : State → Bool
is_listening listening = true
is_listening _ = false

unfoldable pub close_late : World → ℕ → TimeoutReason → Session → Session
unfolding is_listening
close_late w gen reason s =
    if gen == s.generation && is_listening s.state
    then close_with_reason w policy_violation (timed_out reason) s
    else s

unfoldable pub handle_timeout : World → ℕ → TimeoutReason → Session → Session
unfolding is_connected close_late
handle_timeout w gen hello_handshake s =
    if is_connected s.state
    then close_with_reason w policy_violation (timed_out hello_handshake) s
    else s
handle_timeout w gen max_listening s = close_late w gen max_listening s
handle_timeout w gen asr_recognition s = close_late w gen asr_recognition s
handle_timeout w gen (other_timeout text) s =
    if gen == s.generation || gen == 0
    then close_with_reason w policy_violation (timed_out (other_timeout text)) s
    else s

abbrev pub code_or : Option CloseCode → CloseCode → CloseCode
code_or none default = default
code_or (some code) default = code

unfoldable pub reason_of : Option Text → CloseReason
reason_of none = default_error
reason_of (some text) = given text

-- Speech that a fatal error cuts short is announced as over.
unfoldable pub hush : State → Session → Session
unfolding try_send send_text_message
hush speaking s = try_send (encode_tts_stop_message s.session_id) s
hush _ s = s

unfoldable pub fail : World → Option Text → Option CloseCode → Session → Session
unfolding stop_pacer hush reason_of
fail w error_text close_code s =
    let quiet = stop_pacer s in
    close_with_reason w (code_or close_code internal_error) (reason_of error_text)
      (hush quiet.state quiet)

unfoldable pub handle_error : World → ℕ → Option Text → Bool → Option CloseCode → Session → Session
unfolding fail
handle_error w gen error_text fatal close_code s =
    if gen == 0 || gen == s.generation
    then (if fatal then fail w error_text close_code s else s)
    else s

unfoldable pub handle_close : World → Option CloseCode → Text → Session → Session
handle_close w close_code reason s =
    close_with_reason w (code_or close_code normal_closure) (given reason) s
