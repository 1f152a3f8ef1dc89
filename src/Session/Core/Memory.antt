-- ===== src/Session/Core/Memory.antt =====
-- When the conversation history changes.
use xiaozhi_esp32_golang_ser.Prelude.{
  ℕ, ◌*◌, ◌≡◌, ◌≢◌, ◌≤◌, ◌⊎◌, inl, inr, refl, false, none, some, [], ◌∷◌, arith, length, Bool-cases,
}
use xiaozhi_esp32_golang_ser.Session.Message
use xiaozhi_esp32_golang_ser.Session.Message.{
  Text, ClientMessage, MessageKind, tts_stop, encode_tts_stop_message,
}
use xiaozhi_esp32_golang_ser.Session.History.{
  append_history, append_history_lem, IsTurns, or_default, default_max_history_turns, no_turns,
}
use xiaozhi_esp32_golang_ser.Session.Writer.{Writer, enqueue}
use xiaozhi_esp32_golang_ser.Session.Core.{
  ready, speaking, closed, Session, World, Event, client_hello, client_text, client_audio,
  asr_final, tts_started, turn_finished, aborts, timeout, error, close_request, Frame, text_frame,
}
use xiaozhi_esp32_golang_ser.Session.Core.Close.{close_with_reason}
use xiaozhi_esp32_golang_ser.Session.Core.Effects.{is_closed}
use xiaozhi_esp32_golang_ser.Session.Core.Turns.{
  listen_start, listen_stop, handle_asr_final, handle_tts_started, handle_turn_finished,
  handle_abort,
}
use xiaozhi_esp32_golang_ser.Session.Core.Handlers.{
  handle_hello, handle_client_text, client_text_of, handle_incoming_mcp, handle_client_audio,
  handle_timeout, handle_error, handle_close,
}
use xiaozhi_esp32_golang_ser.Session.Core.Machine.{dispatch, handle_event}

-- The end of the current turn while its answer is spoken, in an open session that has an id and a writer.
-- Either `tts.stop` goes into the write queue, the session is ready again and the turn joins the history;
-- or the writer refuses it, the session is closed and the history is gone.
pub turn_commits :
    (w : World) (user_text assistant_text : Text) (s : Session) (wr : Writer Frame) (c : ℕ)
    (sid : Text)
    → s.state ≡ speaking
    → s.close_once ≡ false
    → s.session_id ≡ c ∷ sid
    → s.writer ≡ some wr
    → let t = handle_event w (turn_finished s.generation user_text assistant_text) s in
      let sent = enqueue wr s.ctx_done (text_frame (tts_stop (c ∷ sid))) in
      ((sent.1 ≡ none)
        × (t.state ≡ ready)
        × (t.writer ≡ some sent.0)
        × (t.history
            ≡ append_history s.config.max_history_turns s.history user_text assistant_text))
      ⊎ ((sent.1 ≢ none) × (t.state ≡ closed) × (t.history ≡ []))
unfolding handle_event dispatch handle_turn_finished close_with_reason
turn_commits w user_text assistant_text s wr c sid talking live named has = ground arith

-- The history stays, or the session is closed and it is gone.
abbrev pub Holds : Session → Session → Type 0
Holds s t = (t.history ≡ s.history) ⊎ ((t.state ≡ closed) × (t.history ≡ []))

-- The event reports the current turn as finished while its answer is spoken, and the turn is added.
abbrev pub Adds : Event → Session → Session → Type 0
Adds ev s t =
    (user_text : Text) × (assistant_text : Text) × (ev
      ≡ turn_finished s.generation user_text assistant_text)
    × (s.state ≡ speaking)
    × (t.history ≡ append_history s.config.max_history_turns s.history user_text assistant_text)

text-Holds :
    (w : World) (kind : MessageKind) (msg : ClientMessage) (s : Session)
    → (client_text_of w kind msg s).config ≡ s.config × Holds s (client_text_of w kind msg s)
unfolding client_text_of close_with_reason listen_start listen_stop handle_abort handle_incoming_mcp
text-Holds w Message.MessageKind.hello msg s = ground arith
text-Holds w _ msg s = ground arith

finished_lem :
    (w : World) (gen : ℕ) (user_text assistant_text : Text) (s : Session)
    → let t = handle_turn_finished w gen user_text assistant_text s in
      (t.config ≡ s.config)
      × (Holds s t
          ⊎ ((gen ≡ s.generation)
              × (s.state ≡ speaking)
              × (t.history
                  ≡ append_history s.config.max_history_turns s.history user_text assistant_text)))
unfolding handle_turn_finished close_with_reason
finished_lem w gen user_text assistant_text s = ground arith

finished-Adds :
    (w : World) (gen : ℕ) (user_text assistant_text : Text) (s : Session)
    → let t = handle_turn_finished w gen user_text assistant_text s in
      Holds s t ⊎ Adds (turn_finished gen user_text assistant_text) s t
finished-Adds w gen user_text assistant_text s =
    elim (finished_lem w gen user_text assistant_text s).1 [
      | inl h ↦ inl h
      | inr (now, talking, grown) ↦ inr (user_text, assistant_text, cc, talking, grown)
    ]

dispatch_lem :
    (w : World) (ev : Event) (s : Session)
    → let t = dispatch w ev s in (t.config ≡ s.config) × (Holds s t ⊎ Adds ev s t)
unfolding dispatch
dispatch_lem w (client_hello raw) s = let (c, h) = hello_lem in (c, inl h)
  where
    hello_lem : ((handle_hello w raw s).config ≡ s.config) × Holds s (handle_hello w raw s)
    hello_lem = unfold handle_hello close_with_reason in ground arith
dispatch_lem w (client_text none) s = unfold handle_client_text in (refl, inl (inl refl))
dispatch_lem w (client_text (some msg)) s =
    let (c, h) = text-Holds w msg.kind msg s in unfold handle_client_text in (c, inl h)
dispatch_lem w (client_audio packet) s = let (c, h) = audio_lem in (c, inl h)
  where
    audio_lem :
        ((handle_client_audio w packet s).config ≡ s.config)
        × Holds s (handle_client_audio w packet s)
    audio_lem = unfold handle_client_audio close_with_reason in ground arith
dispatch_lem w (asr_final gen text) s =
    unfold handle_asr_final in (ground arith, inl (inl (ground arith)))
dispatch_lem w (tts_started gen) s =
    unfold handle_tts_started in (ground arith, inl (inl (ground arith)))
dispatch_lem w (turn_finished gen user_text assistant_text) s = (
  (finished_lem w gen user_text assistant_text s).0,
  finished-Adds w gen user_text assistant_text s,
)
dispatch_lem w (aborts reason) s = unfold handle_abort in (ground arith, inl (inl (ground arith)))
dispatch_lem w (timeout gen reason) s = let (c, h) = timeout_lem in (c, inl h)
  where
    timeout_lem :
        ((handle_timeout w gen reason s).config ≡ s.config)
        × Holds s (handle_timeout w gen reason s)
    timeout_lem = unfold handle_timeout close_with_reason in ground arith
dispatch_lem w (error gen text fatal code) s = let (c, h) = error_lem in (c, inl h)
  where
    error_lem :
        ((handle_error w gen text fatal code s).config ≡ s.config)
        × Holds s (handle_error w gen text fatal code s)
    error_lem = unfold handle_error close_with_reason in ground arith
dispatch_lem w (close_request code reason) s = let (c, h) = close_lem in (c, inl h)
  where
    close_lem :
        ((handle_close w code reason s).config ≡ s.config) × Holds s (handle_close w code reason s)
    close_lem = unfold handle_close close_with_reason in ground arith

event_lem :
    (w : World) (ev : Event) (s : Session)
    → let t = handle_event w ev s in (t.config ≡ s.config) × (Holds s t ⊎ Adds ev s t)
unfolding handle_event
event_lem w ev s = elim (Bool-cases (is_closed s.state)) [
  | inl e ↦ simp e (refl, inl (inl refl))
  | inr e ↦ simp e (dispatch_lem w ev s)
]

-- The history is made of whole turns, and no more of them than configured.
pub record IsRemembered (s : Session) : Type 0 where
  pub turns : IsTurns s.history
  pub limited :
      length s.history ≤ or_default s.config.max_history_turns default_max_history_turns * 2

append-IsRemembered :
    (s : Session) (user_text assistant_text : Text)
    → IsRemembered s
    → let kept = append_history s.config.max_history_turns s.history user_text assistant_text in
      IsTurns kept
      × (length kept ≤ or_default s.config.max_history_turns default_max_history_turns * 2)
append-IsRemembered s [] assistant_text v = unfold append_history in (v.turns, v.limited)
append-IsRemembered s (u ∷ us) [] v = unfold append_history in (v.turns, v.limited)
append-IsRemembered s (u ∷ us) (a ∷ ans) v =
    let (turns, limited, dropped) =
      append_history_lem s.config.max_history_turns s.history u us a ans v.turns in
    (turns, limited)

-- Every event leaves the history as whole turns of a question and an answer, oldest first, and no more of
-- them than configured.
pub handle_event-IsRemembered :
    (w : World) (ev : Event) (s : Session) → IsRemembered s → IsRemembered (handle_event w ev s)
handle_event-IsRemembered w ev s v =
    let (same, change) = event_lem w ev s in
    elim change [
      | inl (inl kept) ↦ record { turns = rw kept v.turns; limited = rw (kept, same) v.limited }
      | inl (inr (gone, empty)) ↦ record {
        turns = rw empty no_turns;
        limited = rw (empty, same) (omega arith);
      }
      | inr (u, a, now, talking, grown) ↦
          let (turns, limited) = append-IsRemembered s u a v in
          record { turns = rw grown turns; limited = rw (grown, same) limited }
    ]

-- The history changes in two ways only: the session is closed, and it is forgotten; or the current turn
-- is reported finished while its answer is spoken, and its two texts are added.
pub history_changes :
    (w : World) (ev : Event) (s : Session) → let t = handle_event w ev s in Holds s t ⊎ Adds ev s t
history_changes w ev s = (event_lem w ev s).1
