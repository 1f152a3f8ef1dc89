-- ===== src/Ai/AsrStream/Calls.antt =====
-- The calls of `ASRStream` (internal/ai/bailian/asr.go): `WritePCM`, `Finish` and `Result`, and the steps of a
-- run. A call that writes is two steps, for the other goroutines go on in between: it takes `writeMu` and
-- checks the stream, and then the connection answers. `json.Marshal` does not fail on these messages.
use xiaozhi_esp32_golang_ser.Prelude.{
  ℕ, Bool, true, Option, none, some, List, [], ◌∷◌, if◌then◌else◌,
}
use xiaozhi_esp32_golang_ser.Session.Message.{Text}
use xiaozhi_esp32_golang_ser.Ai.Task.{
  TaskError, stream_closed, input_finished, write_failed, keep_first, is_set,
}
use xiaozhi_esp32_golang_ser.Ai.AsrStream.{
  audio, finish_task, Frame, AsrStream, record_error, read_frame, close,
}

-- A call that takes `writeMu` waits for it, returns at once, or holds it and writes.
pub data Lock : Type 0 where
  waits holds : Lock
  returns : Option TaskError → Lock

-- What `WritePCM` checks before its lock.
unfoldable pub pcm_refusal : AsrStream → Option TaskError
pcm_refusal s =
    if s.closed then some stream_closed else if s.finished then some input_finished else s.err

unfoldable pub lock_pcm : List ℕ → AsrStream → AsrStream × Lock
unfolding is_set
lock_pcm pcm s =
    if is_set s.writing
    then (s, waits)
    else if s.closed
    then (s, returns (some stream_closed))
    else elim s.err [
      | some e ↦ (s, returns (some e))
      | none ↦ (record s { writing = some (audio pcm) }, holds)
    ]

unfoldable pub lock_finish : AsrStream → AsrStream × Lock
unfolding is_set
lock_finish s =
    if is_set s.writing
    then (s, waits)
    else if s.closed
    then (s, returns (some stream_closed))
    else if s.finished
    then (record s { finish_called = true }, returns none)
    else elim s.err [
      | some e ↦ (record s { finish_called = true }, returns (some e))
      | none ↦ (record s { finish_called = true; writing = some finish_task }, holds)
    ]

-- What the connection answers to a write, and the rest of the call.
unfoldable pub complete : Option ℕ → AsrStream → AsrStream × Option TaskError
unfolding record_error
complete result s = elim s.writing [
  | none ↦ (s, none)
  | some r ↦ elim result [
    | none ↦ (record s { writing = none; sent = r ∷ s.sent }, none)
    | some e ↦ (record_error (write_failed e) (record s { writing = none }), some (write_failed e))
  ]
]

-- How a call that nobody disturbs ends.
pub data Outcome : Type 0 where
  blocks : Outcome
  gives : Option TaskError → Outcome

unfoldable pub go_on : Option ℕ → AsrStream × Lock → AsrStream × Outcome
unfolding complete
go_on result (s, waits) = (s, blocks)
go_on result (s, returns e) = (s, gives e)
go_on result (s, holds) = let r = complete result s in (r.0, gives r.1)

unfoldable pub write_pcm : List ℕ → Option ℕ → AsrStream → AsrStream × Outcome
unfolding pcm_refusal lock_pcm go_on
write_pcm [] result s = (s, gives none)
write_pcm (b ∷ pcm) result s = elim (pcm_refusal s) [
  | some e ↦ (s, gives (some e))
  | none ↦ go_on result (lock_pcm (b ∷ pcm) s)
]

unfoldable pub finish : Option ℕ → AsrStream → AsrStream × Outcome
unfolding lock_finish go_on
finish result s = go_on result (lock_finish s)

-- The cases of the `select` of `Result`.
pub data Pick : Type 0 where
  sees_ready sees_finished sees_caller sees_stream : Pick

pub data Answer : Type 0 where
  answer_waits : Answer
  answers : Text → Option TaskError → Answer

unfoldable pub settled : AsrStream → Option TaskError → Answer
settled s otherwise = elim s.err [
  | some e ↦ answers [] (some e)
  | none ↦ answers s.final_text otherwise
]

-- `Result`, where `finish_called` was read before and the `select` looks at one case; a case that is not
-- ready leaves it waiting.
unfoldable pub result : Bool → Option TaskError → Pick → AsrStream → Answer
unfolding settled
result called caller sees_ready s =
    if (if called then s.task_finished_closed else s.vad_ready)
    then settled s none
    else answer_waits
result called caller sees_finished s =
    if s.task_finished_closed then settled s none else answer_waits
result called caller sees_caller s = elim caller [
  | some e ↦ answers [] (some e)
  | none ↦ answer_waits
]
result called caller sees_stream s = elim s.ctx_err [
  | some e ↦ settled s (some e)
  | none ↦ answer_waits
]

-- The steps of the stream's goroutines.
pub data Event : Type 0 where
  reads : Frame → Event
  locks_pcm : List ℕ → Event
  locks_finish closes : Event
  writes : Option ℕ → Event
  parent_ends : TaskError → Event

unfoldable pub step : AsrStream → Event → AsrStream
unfolding keep_first
step s (reads frame) = read_frame frame s
step s (locks_pcm pcm) = (lock_pcm pcm s).0
step s locks_finish = (lock_finish s).0
step s closes = close s
step s (writes answer) = (complete answer s).0
step s (parent_ends e) = record s { ctx_err = keep_first s.ctx_err e }

unfoldable pub run : AsrStream → List Event → AsrStream
run s [] = s
run s (e ∷ es) = run (step s e) es
