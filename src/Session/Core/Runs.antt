-- ===== src/Session/Core/Runs.antt =====
-- What holds after any interleaving of events with the steps of the other goroutines, a `Close` of theirs coming
-- between two handlers, and after `Run`.
use xiaozhi_esp32_golang_ser.Prelude.{
  ◌≡◌, ◌⊎◌, inl, inr, Bool, true, false, Option, none, List, [], ◌∷◌, arith, if◌then◌else◌,
}
use xiaozhi_esp32_golang_ser.Session.Writer.{Writer}
use xiaozhi_esp32_golang_ser.Session.History.{no_turns}
use xiaozhi_esp32_golang_ser.Session.Core.{
  Session, Config, Frame, World, Event, closed, normal_closure, session_finished,
}
use xiaozhi_esp32_golang_ser.Session.Core.Effects.{start_hello_timer, is_closed}
use xiaozhi_esp32_golang_ser.Session.Core.Close.{close_with_reason}
use xiaozhi_esp32_golang_ser.Session.Core.Machine.{
  new_session, handle_event, supervisor_loop, run_session,
}
use xiaozhi_esp32_golang_ser.Session.Core.Machine.Invariant.{
  IsConsistent, handle_event-IsConsistent,
}
use xiaozhi_esp32_golang_ser.Session.Core.Memory.{IsRemembered, handle_event-IsRemembered}
use xiaozhi_esp32_golang_ser.Session.Core.Background.{
  Action, handles, speaks, installs_tts, installs_pacer, closes, close, act, run,
  transition_to_speaking, install_tts_stream, install_pacer,
}

act-IsConsistent : (a : Action) (s : Session) → IsConsistent s → IsConsistent (act a s)
unfolding act
act-IsConsistent (handles w ev) s v = handle_event-IsConsistent w ev s v
act-IsConsistent (speaks gen) s v = unfold transition_to_speaking in ground arith
act-IsConsistent (installs_tts stream) s v = unfold install_tts_stream in ground arith
act-IsConsistent (installs_pacer pacer) s v = unfold install_pacer in ground arith
act-IsConsistent (closes w) s v = unfold close close_with_reason in ground arith
act-IsConsistent _ s v = ground arith

run-IsConsistent :
    (s : Session) (actions : List Action) → IsConsistent s → IsConsistent (run s actions)
unfolding run
run-IsConsistent s [] v = v
run-IsConsistent s (a ∷ rest) v = run-IsConsistent (act a s) rest (act-IsConsistent a s v)

close_history :
    (w : World) (s : Session)
    → ((close w s).config ≡ s.config)
      × (((close w s).history ≡ s.history) ⊎ ((close w s).history ≡ []))
unfolding close close_with_reason
close_history w s = ground arith

close-IsRemembered : (w : World) (s : Session) → IsRemembered s → IsRemembered (close w s)
close-IsRemembered w s v =
    let (same, change) = close_history w s in
    elim change [
      | inl kept ↦ record { turns = rw kept v.turns; limited = rw (kept, same) v.limited }
      | inr empty ↦ record { turns = rw empty no_turns; limited = rw (empty, same) (omega arith) }
    ]

act-IsRemembered : (a : Action) (s : Session) → IsRemembered s → IsRemembered (act a s)
unfolding act
act-IsRemembered (handles w ev) s v = handle_event-IsRemembered w ev s v
act-IsRemembered (speaks gen) s v =
    unfold transition_to_speaking in record { turns = v.turns; limited = v.limited }
act-IsRemembered (installs_tts stream) s v =
    unfold install_tts_stream in record { turns = v.turns; limited = v.limited }
act-IsRemembered (installs_pacer pacer) s v =
    unfold install_pacer in record { turns = v.turns; limited = v.limited }
act-IsRemembered (closes w) s v = close-IsRemembered w s v
act-IsRemembered _ s v = record { turns = v.turns; limited = v.limited }

run-IsRemembered :
    (s : Session) (actions : List Action) → IsRemembered s → IsRemembered (run s actions)
unfolding run
run-IsRemembered s [] v = v
run-IsRemembered s (a ∷ rest) v = run-IsRemembered (act a s) rest (act-IsRemembered a s v)

either-IsConsistent :
    (b : Bool) (s t : Session) → IsConsistent s → IsConsistent t → IsConsistent (if b then s else t)
either-IsConsistent true s t v u = v
either-IsConsistent false s t v u = u

loop-IsConsistent :
    (s : Session) (evs : List (World × Event))
    → IsConsistent s
    → IsConsistent (supervisor_loop s evs)
unfolding supervisor_loop is_closed
loop-IsConsistent s [] v = v
loop-IsConsistent s ((w, ev) ∷ evs) v =
    let next = handle_event w ev s in
    let v' = handle_event-IsConsistent w ev s v in
    either-IsConsistent (is_closed next.state) next (supervisor_loop next evs) v'
      (loop-IsConsistent next evs v')

-- Closed for good, with nothing of a turn left.
abbrev pub IsOver : Session → Type 0
IsOver t =
    (t.state ≡ closed)
    × (t.ctx_done ≡ true)
    × (t.history ≡ [])
    × (t.turn_cancel ≡ none)
    × (t.asr_stream ≡ none)
    × (t.listening_timer ≡ none)

-- `closeWithReason` at the end, after a loop of which only the invariant is known.
closed_at_last :
    (w : World) (s : Session)
    → IsConsistent s
    → IsOver (close_with_reason w normal_closure session_finished s)
unfolding close_with_reason
closed_at_last w s v =
    (ground arith, ground arith, ground arith, ground arith, ground arith, ground arith)

module _ (config : Config) (has_asr_client has_conn : Bool) (opus_made : Option (Unit {0}))
    (writer : Option (Writer Frame)) where
  -- A session as `Run` starts it.
  abbrev pub started : Session
  started = start_hello_timer (new_session config has_asr_client has_conn opus_made writer)

  started-IsConsistent : IsConsistent started
  unfolding new_session start_hello_timer
  started-IsConsistent = ground arith

  -- In every interleaving of client messages, timers, results, faults, the steps of the other goroutines and
  -- calls of `Close`, where no such call comes in the middle of a handler, a session that has just been
  -- started stays consistent, and its history stays whole turns, no more than configured.
  pub run_sound :
      (actions : List Action)
      → IsConsistent (run started actions) × IsRemembered (run started actions)
  unfolding new_session start_hello_timer
  run_sound actions = (
    run-IsConsistent started actions started-IsConsistent,
    run-IsRemembered started actions (record { turns = no_turns; limited = omega arith }),
  )

  -- Whatever events a new session gets, and however its loop ends, `Run` leaves it closed, with its context
  -- done, no history, no turn that could still be cancelled, no ASR stream and no listening timer; and so does
  -- its last close after any interleaving of events, the steps of other goroutines and their calls of `Close`,
  -- where no such call comes in the middle of a handler.
  pub run_session_closed :
      (w : World) (evs : List (World × Event)) (actions : List Action)
      → IsOver (run_session w (new_session config has_asr_client has_conn opus_made writer) evs)
        × IsOver (close_with_reason w normal_closure session_finished (run started actions))
  unfolding run_session
  run_session_closed w evs actions = (
    closed_at_last w (supervisor_loop started evs)
        (loop-IsConsistent started evs started-IsConsistent),
    closed_at_last w (run started actions) (run-IsConsistent started actions started-IsConsistent),
  )
