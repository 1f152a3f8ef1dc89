-- ===== src/Session/Core/Turns.antt =====
-- The handlers that move a turn on: `listen.start`, `listen.stop`, the ASR result, the start of speech,
-- the end of a turn and abort.
use xiaozhi_esp32_golang_ser.Prelude.{
  ℕ, ◌+◌, Bool, true, false, Option, none, some, [], ◌∷◌, ◌==◌, if◌then◌else◌,
}
use xiaozhi_esp32_golang_ser.Audio.AsrQueue
use xiaozhi_esp32_golang_ser.Session.Writer.{WriteError}
use xiaozhi_esp32_golang_ser.Session.Message.{
  Text, ListenMode, unset, auto, ServerMessage, encode_stt_message, encode_tts_start_message,
  encode_tts_stop_message,
}
use xiaozhi_esp32_golang_ser.Session.History.{append_history}
use xiaozhi_esp32_golang_ser.Session.Core.{
  State, connected, ready, listening, processing, speaking, closed, u64, Session, World, error,
  spawns, posts, read_asr_result_auto, read_asr_result_manual, orchestrate, internal_error,
  stop_write_failed,
}
use xiaozhi_esp32_golang_ser.Session.Core.Effects.{
  emit, start_listening_timer, stop_listening_timer, start_asr_result_timer, stop_asr_result_timer,
  stop_asr, stop_tts, stop_pacer, cancel_turn, finish_asr, send_text_message, try_send,
  drain_writer,
}
use xiaozhi_esp32_golang_ser.Session.Core.Close.{close_with_reason}

abbrev mode_or_auto : ListenMode → ListenMode
mode_or_auto unset = auto
mode_or_auto m = m

abbrev is_auto : ListenMode → Bool
is_auto auto = true
is_auto _ = false

-- The new turn has a generation of its own, and a context with that number.
unfoldable pub begin_turn : ListenMode → Session → Session
begin_turn mode s = record s {
  state = listening;
  mode = mode;
  manual_stop_received = false;
  generation = u64 (s.generation + 1);
  turn_ctx = some (u64 (s.generation + 1));
  turn_cancel = some (u64 (s.generation + 1));
}

-- The queue starts with its worker. In auto mode a goroutine waits for the result at once.
unfoldable pub start_asr_stream : World → ℕ → ListenMode → Session → Session
unfolding emit
start_asr_stream w gen mode s =
    if s.has_asr_client
    then elim w.asr_created [
      | none ↦ emit (posts (error gen (some w.asr_error) true none)) s
      | some stream ↦
          let opened : Session = record s {
            asr_stream = some stream;
            asr_queue = some (AsrQueue.new_asr_audio_queue true s.config.asr_pcm_queue_capacity);
          } in
          if is_auto mode then emit (spawns (read_asr_result_auto stream gen)) opened else opened
    ]
    else s

unfoldable pub listen_start_ready : World → ListenMode → Session → Session
unfolding begin_turn start_listening_timer start_asr_stream
listen_start_ready w mode s =
    let gen = u64 (s.generation + 1) in
    start_asr_stream w gen mode (start_listening_timer gen (begin_turn mode s))

-- `listen.start` counts in the ready state only.
unfoldable pub listen_start : World → ListenMode → State → Session → Session
unfolding listen_start_ready
listen_start w mode ready s = listen_start_ready w (mode_or_auto mode) s
listen_start w mode _ s = s

unfoldable pub spawn_manual : Option ℕ → ℕ → Session → Session
unfolding emit
spawn_manual none gen s = s
spawn_manual (some stream) gen s = emit (spawns (read_asr_result_manual stream gen)) s

-- The first `listen.stop` of a manual turn.
unfoldable pub listen_stop_manual : Session → Session
unfolding stop_listening_timer start_asr_result_timer finish_asr spawn_manual
listen_stop_manual s = spawn_manual s.asr_stream s.generation (
    finish_asr (
      start_asr_result_timer s.generation
        (stop_listening_timer (record s { manual_stop_received = true }))))

unfoldable pub listen_stop : State → Session → Session
unfolding listen_stop_manual
listen_stop listening s =
    if is_auto s.mode then s else if s.manual_stop_received then s else listen_stop_manual s
listen_stop _ s = s

-- The text of the ASR result decides: nothing heard, or a question to answer.
unfoldable pub take_asr_text : ℕ → Text → Session → Session
unfolding cancel_turn try_send send_text_message emit encode_stt_message
take_asr_text gen [] s = record (cancel_turn s) { state = ready }
take_asr_text gen (c ∷ text) s =
    let told = try_send (encode_stt_message s.session_id (c ∷ text)) s in
    emit (spawns (orchestrate told.turn_ctx gen (c ∷ text))) (record told { state = processing })

unfoldable pub asr_final_listening : ℕ → Text → State → Session → Session
unfolding take_asr_text stop_listening_timer stop_asr_result_timer stop_asr
asr_final_listening gen text listening s =
    take_asr_text gen text (stop_asr (stop_asr_result_timer (stop_listening_timer s)))
asr_final_listening gen text _ s = s

unfoldable pub handle_asr_final : ℕ → Text → Session → Session
unfolding asr_final_listening
handle_asr_final gen text s =
    if gen == s.generation then asr_final_listening gen text s.state s else s

unfoldable pub tts_started_processing : State → Session → Session
unfolding try_send send_text_message encode_tts_start_message
tts_started_processing processing s = record (try_send (encode_tts_start_message s.session_id) s) {
  state = speaking;
}
tts_started_processing _ s = s

unfoldable pub handle_tts_started : ℕ → Session → Session
unfolding tts_started_processing
handle_tts_started gen s = if gen == s.generation then tts_started_processing s.state s else s

-- The turn's resources are released.
unfoldable pub end_turn : Session → Session
unfolding stop_asr stop_tts stop_pacer cancel_turn
end_turn s = record (cancel_turn (stop_pacer (stop_tts (stop_asr s)))) { state = ready }

unfoldable pub remember : Text → Text → Session → Session
remember user_text assistant_text s = record s {
  history = append_history s.config.max_history_turns s.history user_text assistant_text;
}

-- What follows the attempt to send `tts.stop`: it fails the session, or the turn is remembered.
unfoldable pub after_stop : World → Text → Text → Session × Option WriteError → Session
unfolding remember end_turn
after_stop w user_text assistant_text (s, some e) =
    close_with_reason w internal_error (stop_write_failed e) s
after_stop w user_text assistant_text (s, none) = end_turn (remember user_text assistant_text s)

unfoldable pub finish_speaking : World → Text → Text → Option ServerMessage → Session → Session
unfolding after_stop send_text_message
finish_speaking w user_text assistant_text none s = end_turn s
finish_speaking w user_text assistant_text (some m) s =
    after_stop w user_text assistant_text (send_text_message m s)

unfoldable pub finish_turn : World → Text → Text → State → Session → Session
unfolding finish_speaking end_turn encode_tts_stop_message
finish_turn w user_text assistant_text speaking s =
    finish_speaking w user_text assistant_text (encode_tts_stop_message s.session_id) s
finish_turn w user_text assistant_text processing s = end_turn s
finish_turn w user_text assistant_text _ s = s

unfoldable pub handle_turn_finished : World → ℕ → Text → Text → Session → Session
unfolding finish_turn
handle_turn_finished w gen user_text assistant_text s =
    if gen == s.generation then finish_turn w user_text assistant_text s.state s else s

-- The next generation, with no turn.
unfoldable pub reset_turn : Session → Session
unfolding cancel_turn
reset_turn s = record (cancel_turn (record s { generation = u64 (s.generation + 1) })) {
  state = ready;
}

unfoldable pub release_turn : Session → Session
unfolding stop_listening_timer stop_asr_result_timer stop_asr stop_tts stop_pacer drain_writer
release_turn s =
    drain_writer (stop_pacer (stop_tts (stop_asr (stop_asr_result_timer (stop_listening_timer s)))))

unfoldable pub abort_turn : Bool → Session → Session
unfolding reset_turn release_turn try_send send_text_message encode_tts_stop_message
abort_turn was_speaking s =
    let gone = release_turn (reset_turn s) in
    if was_speaking then try_send (encode_tts_stop_message gone.session_id) gone else gone

unfoldable pub handle_abort_in : State → Session → Session
unfolding abort_turn
handle_abort_in connected s = s
handle_abort_in closed s = s
handle_abort_in speaking s = abort_turn true s
handle_abort_in _ s = abort_turn false s

unfoldable pub handle_abort : Session → Session
unfolding handle_abort_in
handle_abort s = handle_abort_in s.state s
