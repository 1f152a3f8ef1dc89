-- ===== src/Session/Core/Machine/Stale.antt =====
-- Generations: a late report of an earlier turn does nothing.
use xiaozhi_esp32_golang_ser.Prelude.{
  ℕ, ◌+◌, ◌<◌, ◌≡◌, ◌≢◌, true, false, Option, none, some, [], ◌∷◌, ◌==◌, if◌then◌else◌, arith,
}
use xiaozhi_esp32_golang_ser.Session.Message.{Text, tts_stop}
use xiaozhi_esp32_golang_ser.Session.Writer.{Writer, enqueue, drain_pending}
use xiaozhi_esp32_golang_ser.Session.Core.{
  ready, speaking, u64, Session, World, Event, asr_final, tts_started, turn_finished, aborts,
  timeout, error, max_listening, asr_recognition, other_timeout, Frame, text_frame,
}
use xiaozhi_esp32_golang_ser.Session.Core.Turns.{
  handle_asr_final, handle_tts_started, handle_turn_finished, handle_abort,
}
use xiaozhi_esp32_golang_ser.Session.Core.Handlers.{handle_timeout, handle_error}
use xiaozhi_esp32_golang_ser.Session.Core.Machine.{dispatch, handle_event}
use xiaozhi_esp32_golang_ser.Session.Core.Machine.Invariant.{IsConsistent, in_turn}

abbrev unless_zero : ℕ → Option ℕ
unless_zero gen = if gen == 0 then none else some gen

-- The turn that an event reports on. An error and a timeout of another kind are for any turn if they
-- carry 0.
abbrev pub reports_on : Event → Option ℕ
reports_on (asr_final gen text) = some gen
reports_on (tts_started gen) = some gen
reports_on (turn_finished gen user_text assistant_text) = some gen
reports_on (timeout gen max_listening) = some gen
reports_on (timeout gen asr_recognition) = some gen
reports_on (timeout gen (other_timeout text)) = unless_zero gen
reports_on (error gen text fatal code) = unless_zero gen
reports_on _ = none

dispatch_stale :
    (w : World) (ev : Event) (s : Session) (gen : ℕ)
    → reports_on ev ≡ some gen
    → gen ≢ s.generation
    → dispatch w ev s ≡ s
unfolding dispatch
dispatch_stale w (asr_final g text) s gen h old = unfold handle_asr_final in ground arith
dispatch_stale w (tts_started g) s gen h old = unfold handle_tts_started in ground arith
dispatch_stale w (turn_finished g u a) s gen h old = unfold handle_turn_finished in ground arith
dispatch_stale w (timeout g max_listening) s gen h old = unfold handle_timeout in ground arith
dispatch_stale w (timeout g asr_recognition) s gen h old = unfold handle_timeout in ground arith
dispatch_stale w (timeout g (other_timeout t)) s gen h old = unfold handle_timeout in ground arith
dispatch_stale w (error g text fatal code) s gen h old = unfold handle_error in ground arith
dispatch_stale w _ s gen h old = cc

-- An event that reports on another generation than the current one is discarded: the session, its
-- effects included, stays as it is.
pub stale_discarded :
    (w : World) (ev : Event) (s : Session) (gen : ℕ)
    → reports_on ev ≡ some gen
    → gen ≢ s.generation
    → handle_event w ev s ≡ s
unfolding handle_event
stale_discarded w ev s gen h old = ground (arith, dispatch_stale w ev s gen h)

-- After an abort, every later report on the turn that it ended is discarded.
pub abort_silences :
    (w w' : World) (ev : Event) (reason : Text) (s : Session)
    → IsConsistent s
    → in_turn s.state ≡ true
    → reports_on ev ≡ some s.generation
    → let t = handle_event w (aborts reason) s in handle_event w' ev t ≡ t
abort_silences w w' ev reason s v busy h =
    stale_discarded w' ev _ s.generation h
      (unfold handle_event dispatch handle_abort in ground arith)

-- An abort in a turn makes the session ready under the next generation, cancels that turn's context,
-- releases its ASR stream, queue and timers, its TTS stream and its pacer, and keeps the history.
pub abort_resets :
    (w : World) (reason : Text) (s : Session)
    → IsConsistent s
    → in_turn s.state ≡ true
    → let t = handle_event w (aborts reason) s in
      (t.state ≡ ready)
      × (t.generation ≡ u64 (s.generation + 1))
      × (t.turn_cancel ≡ none)
      × (t.asr_stream ≡ none)
      × (t.asr_queue ≡ none)
      × (t.tts_stream ≡ none)
      × (t.pacer ≡ none)
      × (t.listening_timer ≡ none)
      × (t.asr_result_timer ≡ none)
      × (t.history ≡ s.history)
unfolding handle_event dispatch handle_abort
abort_resets w reason s v busy = ground arith

-- An abort while the session speaks leaves one message in the write queue: the backlog is dropped, and
-- `tts.stop` for this session follows, if the session has an id and the writer is open and takes messages.
pub abort_speaking :
    (w : World) (reason : Text) (s : Session) (wr : Writer Frame) (c : ℕ) (sid : Text)
    → s.state ≡ speaking
    → s.writer ≡ some wr
    → s.session_id ≡ c ∷ sid
    → s.ctx_done ≡ false
    → wr.closed ≡ false
    → wr.cancelled ≡ false
    → 0 < wr.capacity
    → (after : Writer Frame) × ((handle_event w (aborts reason) s).writer ≡ some after)
      × (after.queue ≡ text_frame (tts_stop (c ∷ sid)) ∷ [])
unfolding handle_event dispatch handle_abort enqueue drain_pending
abort_speaking w reason s wr c sid talking has named live open_ up room = (
  (enqueue (drain_pending wr) false (text_frame (tts_stop (c ∷ sid)))).0,
  ground arith,
  ground arith,
)
