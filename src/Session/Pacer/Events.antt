-- ===== src/Session/Pacer/Events.antt =====
-- What may happen to a pacer, in any order: calls of the orchestration and of the session, the session's
-- turn moving on, the steps of `Stop`, the context cancelled by it or from outside, the queue drained, rounds
-- of `Run`.
use xiaozhi_esp32_golang_ser.Prelude.{ℕ, Bool, List, [], ◌∷◌}
use xiaozhi_esp32_golang_ser.Session.Message.{Text}
use xiaozhi_esp32_golang_ser.Session.Pacer.{
  DownlinkPacer, Round, enqueue, finish_input, set_stopped, cancel, drain_queue, pace, later,
}

pub data Event : Type 0 where
  enqueues : Bool → List ℕ → Event
  finishes : List Text → Event
  stops cancels drains : Event
  moves_on : ℕ → Event
  paces : Round → Event

unfoldable pub step : DownlinkPacer → Event → DownlinkPacer
step p (enqueues sees_cancel packet) = (enqueue sees_cancel packet p).0
step p (finishes texts) = finish_input texts p
step p stops = set_stopped p
step p cancels = cancel p
step p drains = drain_queue p
step p (moves_on n) = later n p
step p (paces w) = pace w p

unfoldable pub run : DownlinkPacer → List Event → DownlinkPacer
run p [] = p
run p (e ∷ es) = run (step p e) es
