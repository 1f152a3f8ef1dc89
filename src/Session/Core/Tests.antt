-- ===== src/Session/Core/Tests.antt =====
-- The theorems on a session at concrete inputs: one that speaks, one that listens, one that is closed.
use xiaozhi_esp32_golang_ser.Prelude.{
  ◌+◌, ◌≡◌, ◌≢◌, ◌⊎◌, refl, true, false, none, some, List, [], ◌∷◌, arith, length,
}
use xiaozhi_esp32_golang_ser.Session.Writer.{Writer, enqueue}
use xiaozhi_esp32_golang_ser.Session.Message.{auto, tts_stop}
use xiaozhi_esp32_golang_ser.Session.History.{append_history, no_turns}
use xiaozhi_esp32_golang_ser.Session.Core.{
  Session, ready, speaking, closed, World, Config, Event, Frame, text_frame, asr_final,
  turn_finished, u64, normal_closure, session_finished, default_error, no_decoder, client_hello,
}
use xiaozhi_esp32_golang_ser.Session.Core.Close.{close_with_reason}
use xiaozhi_esp32_golang_ser.Session.Core.Machine.{new_session, run_session, handle_event}
use xiaozhi_esp32_golang_ser.Session.Core.Machine.Invariant.{
  IsConsistent, handle_event-IsConsistent,
}
use xiaozhi_esp32_golang_ser.Session.Core.Machine.Diagram.{Move, handle_event-Move}
use xiaozhi_esp32_golang_ser.Session.Core.Machine.Stale.{stale_discarded}
use xiaozhi_esp32_golang_ser.Session.Core.Closing.{IsReleased, close-IsReleased}
use xiaozhi_esp32_golang_ser.Session.Core.Memory.{IsRemembered, turn_commits}
use xiaozhi_esp32_golang_ser.Session.Core.Background.{Action, handles, speaks, closes, close, run}
use xiaozhi_esp32_golang_ser.Session.Core.Runs.{started, IsOver, run_sound, run_session_closed}
use xiaozhi_esp32_golang_ser.Session.Core.Turns.{end_turn, remember}

abbrev world : World
world = record {
  unmarshal_hello = λ raw. none;
  new_session_id = some (7 ∷ []);
  asr_created = some 5;
  asr_error = [];
  opus_samples = none;
  flushed = 0;
  unmarshal_mcp = λ payload. none;
}

abbrev settings : Config
settings = record {
  max_history_turns = 2;
  max_opus_packet_bytes = 1024;
  asr_pcm_queue_capacity = 4;
}

abbrev open_writer : Writer Frame
open_writer = record {
  queue = [];
  capacity = 2;
  cancelled = false;
  closed = false;
  done = false;
  last_err = none;
  written = [];
  accepted = [];
}

-- The answer of turn 3 is spoken.
abbrev talking : Session
talking = record {
  config = settings;
  has_asr_client = true;
  has_conn = true;
  decoder = none;
  writer = some open_writer;
  ctx_done = false;
  close_once = false;
  state = speaking;
  mode = auto;
  generation = 3;
  session_id = 7 ∷ [];
  manual_stop_received = false;
  history = [];
  turn_ctx = some 3;
  turn_cancel = some 3;
  hello_timer = none;
  listening_timer = none;
  asr_result_timer = none;
  asr_stream = none;
  asr_queue = none;
  tts_stream = some 8;
  pacer = some 9;
  pending_mcp = [];
  effects = [];
}

abbrev shut_session : Session
shut_session = record talking {
  state = closed;
  close_once = true;
  ctx_done = true;
  turn_cancel = none;
  tts_stream = none;
  pacer = none;
}

talking-IsConsistent : IsConsistent talking
talking-IsConsistent = ground arith

talking-IsRemembered : IsRemembered talking
talking-IsRemembered = record { turns = no_turns; limited = omega arith }

abbrev finished : Event
finished = turn_finished 3 (1 ∷ []) (2 ∷ [])

handle_event-IsConsistent_example : IsConsistent (handle_event world finished talking)
handle_event-IsConsistent_example =
    handle_event-IsConsistent world finished talking talking-IsConsistent

handle_event-Move_example :
    Move speaking (handle_event world finished talking).state
    × (((handle_event world finished talking).generation ≡ 3)
        ⊎ ((handle_event world finished talking).generation ≡ u64 (3 + 1)))
handle_event-Move_example = handle_event-Move world finished talking

older : 2 ≢ talking.generation
older = omega arith

stale_discarded_example : handle_event world (asr_final 2 (1 ∷ [])) talking ≡ talking
stale_discarded_example = stale_discarded world (asr_final 2 (1 ∷ [])) talking 2 refl older

close-IsReleased_example :
    IsReleased talking normal_closure default_error
      (close_with_reason world normal_closure default_error talking)
    × (close_with_reason world normal_closure no_decoder
          (close_with_reason world normal_closure default_error talking)
        ≡ close_with_reason world normal_closure default_error talking)
close-IsReleased_example =
    close-IsReleased world world normal_closure normal_closure default_error no_decoder talking refl

turn_commits_example :
    let t = handle_event world finished talking in
    let sent = enqueue open_writer false (text_frame (tts_stop (7 ∷ []))) in
    ((sent.1 ≡ none)
      × (t.state ≡ ready)
      × (t.writer ≡ some sent.0)
      × (t.history ≡ append_history 2 [] (1 ∷ []) (2 ∷ [])))
    ⊎ ((sent.1 ≢ none) × (t.state ≡ closed) × (t.history ≡ []))
turn_commits_example =
    turn_commits world (1 ∷ []) (2 ∷ []) talking open_writer 7 [] refl refl refl refl

abbrev actions : List Action
actions = handles world (client_hello none) ∷ speaks 0 ∷ closes world ∷ handles world finished ∷ []

run_sound_example :
    IsConsistent (run (started settings true true none (some open_writer)) actions)
    × IsRemembered (run (started settings true true none (some open_writer)) actions)
run_sound_example = run_sound settings true true none (some open_writer) actions

run_session_closed_example :
    IsOver (
      run_session world
        (new_session settings true true none (some open_writer))
        ((world, finished) ∷ []))
    × IsOver (
        close_with_reason world normal_closure session_finished
          (run (started settings true true none (some open_writer)) actions))
run_session_closed_example =
    run_session_closed settings true true none (some open_writer) world ((world, finished) ∷ [])
      actions

-- A `Close` between the parts of a handler: `handleTurnFinishedEvent` has sent `tts.stop`, the session is
-- closed, and the handler goes on. The session is ready again, with a history, and cannot be closed any more.
abbrev reopened : Session
reopened = end_turn (remember (1 ∷ []) (2 ∷ []) (close world talking))

close_cuts_in :
    (reopened.state ≡ ready)
    × (length reopened.history ≡ 2)
    × (close_with_reason world normal_closure session_finished reopened ≡ reopened)
unfolding close close_with_reason end_turn remember append_history
close_cuts_in = (refl, refl, refl)
