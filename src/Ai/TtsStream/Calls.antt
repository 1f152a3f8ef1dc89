-- ===== src/Ai/TtsStream/Calls.antt =====
-- The calls of `TTSStream` (internal/ai/bailian/tts.go): `SendSentence`, `Finish`, `NextPCM` and `Cancel`,
-- and the steps of a run. A call that writes is two steps, for the other goroutines go on in between: it
-- takes `writeMu` and checks the stream, and then the connection answers. `json.Marshal` does not fail on
-- these messages, and the error of closing the connection is left out.
use xiaozhi_esp32_golang_ser.Prelude.{
  ℕ, true, not, ◌||◌, ◌&&◌, Option, none, some, List, [], ◌∷◌, ◌++◌, ltb, if◌then◌else◌,
}
use xiaozhi_esp32_golang_ser.Session.Message.{Text}
use xiaozhi_esp32_golang_ser.Ai.Task.{
  TaskError, first_audio_timeout, sentence_timeout, stream_closed, write_failed, is_set,
}
use xiaozhi_esp32_golang_ser.Ai.TtsStream.{
  Chunk, Request, continue_task, finish_task, cancel_task, Frame, TtsStream, end_ctx, record_error,
  timeout_or_fallback_err, handle_first_audio_timeout, handle_sentence_timeout,
  reset_sentence_timer, stop_timers, read_frame, push_pending, give_up_pending, refusal, close,
}

-- A call that takes `writeMu` waits for it, returns at once, or holds it and writes.
pub data Lock : Type 0 where
  waits holds : Lock
  returns : Option TaskError → Lock

unfoldable pub start_write : Request → TtsStream → TtsStream
start_write r s = record s { writing = some r }

-- `SendSentence` from its lock to the write.
unfoldable pub lock_sentence : Text → TtsStream → TtsStream × Lock
unfolding refusal start_write is_set
lock_sentence text s = if is_set s.writing then (s, waits) else elim (refusal s) [
  | some e ↦ (s, returns (some e))
  | none ↦ (start_write (continue_task text) s, holds)
]

-- `Finish` from its lock to the write.
unfoldable pub lock_finish : TtsStream → TtsStream × Lock
unfolding start_write is_set
lock_finish s =
    if is_set s.writing
    then (s, waits)
    else if s.closed
    then (s, returns (some stream_closed))
    else if s.finished
    then (s, returns none)
    else elim s.err [
      | some e ↦ (s, returns (some e))
      | none ↦ (start_write finish_task (record s { finished = true }), holds)
    ]

-- `Cancel` up to the write.
unfoldable pub lock_cancel : TtsStream → TtsStream × Lock
unfolding start_write is_set stop_timers close
lock_cancel s =
    if is_set s.writing
    then (stop_timers s, waits)
    else if s.closed || s.finished
    then (close (stop_timers s), returns none)
    else (start_write cancel_task (stop_timers s), holds)

-- The timer for the first audio starts behind the first sentence.
unfoldable pub start_first_audio_timer : TtsStream → TtsStream
start_first_audio_timer s = if s.first_audio_sent then s else record s {
  first_audio_sent = true;
  first_audio_timer =
      s.first_audio_timer || (ltb 0 s.first_audio_limit && not s.first_audio_received);
}

-- What the connection answers to a write, and the rest of the call.
unfoldable pub written : Request → Option ℕ → TtsStream → TtsStream × Option TaskError
unfolding start_first_audio_timer reset_sentence_timer record_error close
written (continue_task text) none s = (
  reset_sentence_timer (start_first_audio_timer (record s { sent = continue_task text ∷ s.sent })),
  none,
)
written finish_task none s = (reset_sentence_timer (record s { sent = finish_task ∷ s.sent }), none)
written cancel_task none s = (close (record s { sent = cancel_task ∷ s.sent }), none)
written cancel_task (some e) s = (close s, none)
written (continue_task text) (some e) s = (record_error (write_failed e) s, some (write_failed e))
written finish_task (some e) s = (record_error (write_failed e) s, some (write_failed e))

unfoldable pub complete : Option ℕ → TtsStream → TtsStream × Option TaskError
unfolding written
complete result s = elim s.writing [
  | some r ↦ written r result (record s { writing = none })
  | none ↦ (s, none)
]

-- How a call that nobody disturbs ends.
pub data Outcome : Type 0 where
  blocks : Outcome
  gives : Option TaskError → Outcome

unfoldable pub go_on : Option ℕ → TtsStream × Lock → TtsStream × Outcome
unfolding complete
go_on result (s, waits) = (s, blocks)
go_on result (s, returns e) = (s, gives e)
go_on result (s, holds) = let r = complete result s in (r.0, gives r.1)

-- The contexts that both calls look at first: the caller's, then the stream's.
unfoldable pub ctx_refusal : Option TaskError → TtsStream → Option TaskError
unfolding timeout_or_fallback_err
ctx_refusal (some e) s = some e
ctx_refusal none s = elim s.ctx_err [ some e ↦ some (timeout_or_fallback_err s e) | none ↦ none ]

unfoldable pub send_sentence : Option TaskError → Text → Option ℕ → TtsStream → TtsStream × Outcome
unfolding ctx_refusal refusal lock_sentence go_on
send_sentence ctx_err [] result s = (s, gives none)
send_sentence ctx_err (c ∷ text) result s = elim (ctx_refusal ctx_err s) [
  | some e ↦ (s, gives (some e))
  | none ↦ elim (refusal s) [
    | some e ↦ (s, gives (some e))
    | none ↦ go_on result (lock_sentence (c ∷ text) s)
  ]
]

unfoldable pub finish : Option TaskError → Option ℕ → TtsStream → TtsStream × Outcome
unfolding ctx_refusal lock_finish go_on
finish ctx_err result s = elim (ctx_refusal ctx_err s) [
  | some e ↦ (s, gives (some e))
  | none ↦ go_on result (lock_finish s)
]

unfoldable pub cancel : Option ℕ → TtsStream → TtsStream × Outcome
unfolding lock_cancel go_on
cancel result s = go_on result (lock_cancel s)

-- The cases of the `select` of `NextPCM`.
pub data Pick : Type 0 where
  sees_pcm sees_caller sees_stream : Pick

pub data Next : Type 0 where
  next_waits eof : Next
  chunk : Chunk → Next
  fails : TaskError → Next

-- The channel is closed and empty.
unfoldable pub end_of_pcm : TtsStream → Next
end_of_pcm s =
    if s.first_audio_timed_out
    then fails first_audio_timeout
    else if s.sentence_timed_out
    then fails sentence_timeout
    else if s.closed
    then fails stream_closed
    else elim s.err [ some e ↦ fails e | none ↦ elim s.ctx_err [ some e ↦ fails e | none ↦ eof ] ]

-- The stream's context is done with `e`, and no chunk waits.
unfoldable pub end_of_ctx : TaskError → TtsStream → Next
end_of_ctx e s =
    if s.first_audio_timed_out
    then fails first_audio_timeout
    else if s.sentence_timed_out
    then fails sentence_timeout
    else if s.closed
    then fails stream_closed
    else elim s.err [ some old ↦ fails old | none ↦ fails e ]

unfoldable pub take_chunk : List Chunk → Next → TtsStream → TtsStream × Next
take_chunk [] otherwise s = (s, otherwise)
take_chunk (c ∷ rest) otherwise s =
    (record s { pcm = rest; delivered = s.delivered ++ c ∷ [] }, chunk c)

-- `NextPCM`, where the `select` looks at one case; a case that is not ready leaves it waiting.
unfoldable pub next_pcm : Option TaskError → Pick → TtsStream → TtsStream × Next
unfolding take_chunk end_of_pcm end_of_ctx
next_pcm caller sees_pcm s = take_chunk s.pcm (if s.pcm_closed then end_of_pcm s else next_waits) s
next_pcm caller sees_caller s = (s, elim caller [ some e ↦ fails e | none ↦ next_waits ])
next_pcm caller sees_stream s = elim s.ctx_err [
  | none ↦ (s, next_waits)
  | some e ↦ take_chunk s.pcm (end_of_ctx e s) s
]

-- The steps of the stream's goroutines.
pub data Event : Type 0 where
  reads : Frame → Event
  pushes gives_up first_audio_fires sentence_fires : Event
  locks_sentence : Text → Event
  locks_finish locks_cancel closes : Event
  writes : Option ℕ → Event
  takes : Option TaskError → Pick → Event
  parent_ends : TaskError → Event

unfoldable pub step : TtsStream → Event → TtsStream
step s (reads frame) = read_frame frame s
step s pushes = push_pending s
step s gives_up = give_up_pending s
step s first_audio_fires = handle_first_audio_timeout s
step s sentence_fires = handle_sentence_timeout s
step s (locks_sentence text) = (lock_sentence text s).0
step s locks_finish = (lock_finish s).0
step s locks_cancel = (lock_cancel s).0
step s closes = close s
step s (writes result) = (complete result s).0
step s (takes caller pick) = (next_pcm caller pick s).0
step s (parent_ends e) = end_ctx e s

unfoldable pub run : TtsStream → List Event → TtsStream
run s [] = s
run s (e ∷ es) = run (step s e) es
