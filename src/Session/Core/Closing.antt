-- ===== src/Session/Core/Closing.antt =====
-- Closing a session, and a session that is closed.
use xiaozhi_esp32_golang_ser.Prelude.{
  ℕ, ◌≡◌, refl, ◌⊎◌, true, false, Option, none, some, ◌++◌, if◌then◌else◌, ◌∙◌, ap, append_assoc,
  List, [], ◌∷◌, arith, length, ◌≤◌, ◌<◌,
}
use xiaozhi_esp32_golang_ser.Session.History.{or_default}
use xiaozhi_esp32_golang_ser.Session.Writer.{Writer, close_and_wait}
use xiaozhi_esp32_golang_ser.Session.Core.{
  ready, processing, speaking, closed, Session, World, Event, client_audio, CloseCode, CloseReason,
  Frame, Effect, closes_asr_stream, closes_tts_stream, stops_pacer, cancels_turn, closes_conn,
}
use xiaozhi_esp32_golang_ser.Session.Core.Effects.{on}
use xiaozhi_esp32_golang_ser.Session.Core.Close.{close_with_reason}
use xiaozhi_esp32_golang_ser.Session.Core.Handlers.{handle_client_audio}
use xiaozhi_esp32_golang_ser.Session.Core.Machine.{dispatch, handle_event, supervisor_loop}

-- The effect on a handle that was held, and none for one that was not.
abbrev for_held : Option ℕ → (ℕ → Effect) → List Effect
for_held none f = []
for_held (some h) f = f h ∷ []

-- What a session that held `before` is told to let go of, each once.
abbrev pub let_go : Session → CloseCode → CloseReason → List Effect
let_go before code reason =
    for_held before.asr_stream closes_asr_stream
    ++ for_held before.tts_stream closes_tts_stream
    ++ for_held before.pacer stops_pacer
    ++ for_held before.turn_cancel cancels_turn
    ++ (if before.has_conn then closes_conn code reason ∷ [] else [])

-- Nothing of the conversation or of a turn is left in `s`: what `before` held was closed, stopped or
-- cancelled, with the connection, and a writer whose loop still ran takes no message any more.
pub record IsReleased (before : Session) (code : CloseCode) (reason : CloseReason) (s : Session)
    : Type 0 where
  pub handles : s.effects ≡ before.effects ++ let_go before code reason
  pub no_writes :
      (w : Writer Frame)
      → before.writer ≡ some w
      → w.done ≡ false
      → (after : Writer Frame) × (s.writer ≡ some after)
        × (after.queue ≡ [])
        × (after.closed ≡ true)
        × (after.done ≡ true)
  pub shut : s.state ≡ closed
  pub forgotten : s.history ≡ []
  pub no_timers : (s.hello_timer ≡ none) × (s.listening_timer ≡ none) × (s.asr_result_timer ≡ none)
  pub no_streams : (s.asr_stream ≡ none) × (s.asr_queue ≡ none) × (s.tts_stream ≡ none)
  pub no_turn : (s.pacer ≡ none) × (s.turn_cancel ≡ none)
  pub no_requests : s.pending_mcp ≡ []
  pub cancelled : s.ctx_done ≡ true

-- After the first close a writer whose loop still ran takes no message any more and keeps none.
pub close-writer :
    (w : World) (code : CloseCode) (reason : CloseReason) (s : Session) (wr : Writer Frame)
    → s.close_once ≡ false
    → s.writer ≡ some wr
    → wr.done ≡ false
    → (after : Writer Frame) × ((close_with_reason w code reason s).writer ≡ some after)
      × (after.queue ≡ [])
      × (after.closed ≡ true)
      × (after.done ≡ true)
unfolding close_with_reason close_and_wait
close-writer w code reason s wr first has busy =
    (close_and_wait w.flushed wr, ground arith, ground arith, ground arith, ground arith)

on_lem : (h : Option ℕ) (f : ℕ → Effect) → on f h ≡ for_held h f
on_lem none f = refl
on_lem (some h) f = refl

five_appended :
    (l a b c d e : List Effect)
    → ((((l ++ a) ++ b) ++ c) ++ d) ++ e ≡ l ++ ((((a ++ b) ++ c) ++ d) ++ e)
five_appended l a b c d e =
    ap (λ x. ((x ++ c) ++ d) ++ e) (append_assoc l a b)
    ∙ ap (λ x. (x ++ d) ++ e) (append_assoc l (a ++ b) c)
    ∙ ap (λ x. x ++ e) (append_assoc l ((a ++ b) ++ c) d)
    ∙ append_assoc l (((a ++ b) ++ c) ++ d) e

closed_effects :
    (w : World) (code : CloseCode) (reason : CloseReason) (s : Session)
    → s.close_once ≡ false
    → (close_with_reason w code reason s).effects ≡ s.effects ++ let_go s code reason
unfolding close_with_reason
closed_effects w code reason s h = ground (
  arith,
  on_lem s.asr_stream closes_asr_stream,
  on_lem s.tts_stream closes_tts_stream,
  on_lem s.pacer stops_pacer,
  on_lem s.turn_cancel cancels_turn,
  five_appended s.effects (on closes_asr_stream s.asr_stream) (on closes_tts_stream s.tts_stream)
      (on stops_pacer s.pacer) (on cancels_turn s.turn_cancel)
      (if s.has_conn then closes_conn code reason ∷ [] else []),
)

-- The first close releases everything that the session holds: it closes, stops or cancels each stream, the
-- pacer and the turn, closes the connection, and empties and ends the writer, whose loop still ran. A second one, for whatever reason, changes
-- nothing: no second close frame is sent.
pub close-IsReleased :
    (w w' : World) (code code' : CloseCode) (reason reason' : CloseReason) (s : Session)
    → s.close_once ≡ false
    → IsReleased s code reason (close_with_reason w code reason s)
      × (close_with_reason w' code' reason' (close_with_reason w code reason s)
          ≡ close_with_reason w code reason s)
unfolding close_with_reason
close-IsReleased w w' code code' reason reason' s h = (
  record {
    handles = closed_effects w code reason s h;
    no_writes = λ wr has busy. close-writer w code reason s wr h has busy;
    shut = ground arith;
    forgotten = ground arith;
    no_timers = ground arith;
    no_streams = ground arith;
    no_turn = ground arith;
    no_requests = ground arith;
    cancelled = ground arith;
  },
  ground arith,
)

-- A closed session ignores every event, and its loop reads no further.
pub closed_absorbs :
    (s : Session) (w : World) (ev : Event) (evs : List (World × Event))
    → s.state ≡ closed
    → (handle_event w ev s ≡ s) × (supervisor_loop s ((w, ev) ∷ evs) ≡ s)
unfolding handle_event supervisor_loop
closed_absorbs s w ev evs h = (ground arith, ground arith)

-- Outside a listening turn an audio packet of a permitted size changes nothing, not even the decoder.
pub audio_ignored :
    (w : World) (packet : List ℕ) (s : Session)
    → (s.state ≡ ready) ⊎ ((s.state ≡ processing) ⊎ (s.state ≡ speaking))
    → 0 < length packet
    → length packet ≤ or_default s.config.max_opus_packet_bytes 1024
    → handle_event w (client_audio packet) s ≡ s
unfolding handle_event dispatch handle_client_audio
audio_ignored w packet s here some_bytes fits = ground arith
