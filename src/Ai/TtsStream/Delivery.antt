-- ===== src/Ai/TtsStream/Delivery.antt =====
-- The audio of a stream: what `readLoop` reads comes to `NextPCM` in order, and its end is told apart from
-- a failure.
use xiaozhi_esp32_golang_ser.Prelude.{
  ℕ, ◌≤◌, ◌≡◌, inl, inr, true, false, ◌||◌, Option, none, some, List, [], ◌∷◌, ◌++◌, length,
  length-append, append-nil, append_assoc, arith, Option-cases,
}
use xiaozhi_esp32_golang_ser.Ai.Task.{TaskError, is_set, Header, keep_first}
use xiaozhi_esp32_golang_ser.Ai.TtsStream.{
  Chunk, Request, Frame, TtsStream, new_tts_stream, end_ctx, record_error, close_conn,
  handle_first_audio_timeout, handle_sentence_timeout, reset_sentence_timer, stop_timers, leave,
  take_audio, take_event, take_frame, read_frame, push_pending, give_up_pending, close,
}
use xiaozhi_esp32_golang_ser.Ai.TtsStream.Calls.{
  lock_sentence, lock_finish, lock_cancel, start_write, written, complete, start_first_audio_timer,
  next_pcm, take_chunk, Pick, Event, step, run,
}

unfoldable pub waiting : Option Chunk → List Chunk
waiting none = []
waiting (some c) = c ∷ []

-- The channel is bounded; the chunks given to the caller, those in the channel and the one at the `select`
-- are those received, in order; a loop that has left has a reason, and one that left a chunk behind had
-- its context done.
pub record IsDelivery (s : TtsStream) : Type 0 where
  pub bounded : length s.pcm ≤ s.capacity
  pub in_order : s.delivered ++ (s.pcm ++ waiting s.pending) ≡ s.received
  pub has_reason : s.pcm_closed ≡ true → s.ended || (is_set s.err || is_set s.ctx_err) ≡ true
  pub lost_chunk : s.pcm_closed ≡ true → is_set s.pending ≡ true → is_set s.ctx_err ≡ true
  pub ended_leaves : s.ended ≡ true → s.pcm_closed ≡ true

-- The parts that a step may change and leave the invariant: none of the audio, and errors only come.
record Keeps (s t : TtsStream) : Type 0 where
  same_capacity : t.capacity ≡ s.capacity
  same_pcm : t.pcm ≡ s.pcm
  same_pending : t.pending ≡ s.pending
  same_received : t.received ≡ s.received
  same_delivered : t.delivered ≡ s.delivered
  same_end : t.pcm_closed ≡ s.pcm_closed
  same_ended : t.ended ≡ s.ended
  err_stays : is_set s.err ≡ true → is_set t.err ≡ true
  ctx_stays : is_set s.ctx_err ≡ true → is_set t.ctx_err ≡ true

close-Keeps : (s : TtsStream) → Keeps s (close s)
unfolding close stop_timers end_ctx close_conn keep_first is_set
close-Keeps s = ground arith

sentence_timeout-Keeps : (s : TtsStream) → Keeps s (handle_sentence_timeout s)
unfolding handle_sentence_timeout record_error end_ctx close_conn keep_first is_set
sentence_timeout-Keeps s = ground arith

lock_cancel-Keeps : (s : TtsStream) → Keeps s (lock_cancel s).0
unfolding lock_cancel start_write close stop_timers end_ctx close_conn keep_first is_set
lock_cancel-Keeps s = ground arith

first_audio_timeout-Keeps : (s : TtsStream) → Keeps s (handle_first_audio_timeout s)
unfolding handle_first_audio_timeout record_error end_ctx close_conn keep_first is_set
first_audio_timeout-Keeps s = ground arith

lock_sentence-Keeps : (s : TtsStream) (words : List ℕ) → Keeps s (lock_sentence words s).0
unfolding lock_sentence start_write
lock_sentence-Keeps s words = ground arith

lock_finish-Keeps : (s : TtsStream) → Keeps s (lock_finish s).0
unfolding lock_finish start_write
lock_finish-Keeps s = ground arith

start_timers-Keeps : (s : TtsStream) → Keeps s (reset_sentence_timer (start_first_audio_timer s))
unfolding reset_sentence_timer start_first_audio_timer
start_timers-Keeps s = ground arith

written-Keeps : (s : TtsStream) (r : Request) (result : Option ℕ) → Keeps s (written r result s).0
unfolding written reset_sentence_timer start_first_audio_timer close stop_timers end_ctx close_conn
    record_error keep_first is_set
written-Keeps s r result = ground arith

complete-Keeps : (s : TtsStream) (result : Option ℕ) → Keeps s (complete result s).0
unfolding complete
complete-Keeps s result = grind (arith, written-Keeps)

parent-Keeps : (s : TtsStream) (e : TaskError) → Keeps s (end_ctx e s)
unfolding end_ctx keep_first is_set
parent-Keeps s e = ground arith

Keeps-IsDelivery : (s t : TtsStream) → Keeps s t → IsDelivery s → IsDelivery t
Keeps-IsDelivery s t k v = ground arith

push_pending-IsDelivery : (s : TtsStream) → IsDelivery s → IsDelivery (push_pending s)
unfolding push_pending waiting is_set
push_pending-IsDelivery s v = elim (Option-cases s.pending) [
  | inl e ↦ ground (arith)
  | inr (c, e) ↦ ground (arith, length-append s.pcm (c ∷ []), append-nil (s.pcm ++ c ∷ []))
]

take_audio-IsDelivery :
    (s : TtsStream) (c : Chunk)
    → s.pending ≡ none
    → s.pcm_closed ≡ false
    → IsDelivery s
    → IsDelivery (take_audio c s)
unfolding take_audio reset_sentence_timer waiting is_set
take_audio-IsDelivery s c e f v =
    ground (arith, append-nil s.pcm, append_assoc s.delivered s.pcm (c ∷ []))

take_event-IsDelivery :
    (s : TtsStream) (h : Header) → s.pending ≡ none → IsDelivery s → IsDelivery (take_event h s)
unfolding take_event leave stop_timers close_conn record_error keep_first waiting is_set
take_event-IsDelivery s h e v = ground arith

read_frame-IsDelivery :
    (s : TtsStream) (frame : Frame) → IsDelivery s → IsDelivery (read_frame frame s)
unfolding read_frame take_frame leave stop_timers close_conn record_error keep_first waiting is_set
read_frame-IsDelivery s frame v = grind (arith, take_event-IsDelivery, take_audio-IsDelivery)

give_up-IsDelivery : (s : TtsStream) → IsDelivery s → IsDelivery (give_up_pending s)
unfolding give_up_pending leave stop_timers close_conn is_set
give_up-IsDelivery s v = ground arith

next_pcm-IsDelivery :
    (s : TtsStream) (caller : Option TaskError) (pick : Pick)
    → IsDelivery s
    → IsDelivery (next_pcm caller pick s).0
unfolding next_pcm take_chunk
next_pcm-IsDelivery s caller pick v = grind (arith, append_assoc)

step-IsDelivery : (s : TtsStream) (e : Event) → IsDelivery s → IsDelivery (step s e)
unfolding step
step-IsDelivery s (Event.reads frame) v = read_frame-IsDelivery s frame v
step-IsDelivery s Event.pushes v = push_pending-IsDelivery s v
step-IsDelivery s Event.gives_up v = give_up-IsDelivery s v
step-IsDelivery s Event.first_audio_fires v = Keeps-IsDelivery s _ (first_audio_timeout-Keeps s) v
step-IsDelivery s Event.sentence_fires v = Keeps-IsDelivery s _ (sentence_timeout-Keeps s) v
step-IsDelivery s (Event.locks_sentence words) v =
    Keeps-IsDelivery s _ (lock_sentence-Keeps s words) v
step-IsDelivery s Event.locks_finish v = Keeps-IsDelivery s _ (lock_finish-Keeps s) v
step-IsDelivery s Event.locks_cancel v = Keeps-IsDelivery s _ (lock_cancel-Keeps s) v
step-IsDelivery s Event.closes v = Keeps-IsDelivery s _ (close-Keeps s) v
step-IsDelivery s (Event.writes result) v = Keeps-IsDelivery s _ (complete-Keeps s result) v
step-IsDelivery s (Event.takes caller pick) v = next_pcm-IsDelivery s caller pick v
step-IsDelivery s (Event.parent_ends e) v = Keeps-IsDelivery s _ (parent-Keeps s e) v

run-IsDelivery : (s : TtsStream) (es : List Event) → IsDelivery s → IsDelivery (run s es)
unfolding run
run-IsDelivery s [] v = v
run-IsDelivery s (e ∷ es) v = run-IsDelivery (step s e) es (step-IsDelivery s e v)

-- In every interleaving of the read loop, the timers, the requests, the reader of the audio, `Cancel`,
-- `Close` and the end of the parent's context: at most `capacity` chunks wait in the channel; the chunks
-- that `NextPCM` gave, those in the channel and the one the loop holds are the non-empty binary frames
-- read, in order; a loop that has left saw `task-finished`, an error or the end of the context; and it
-- left a chunk behind only if the context was done.
pub run-new_tts_stream-IsDelivery :
    (capacity first_audio sentence : ℕ) (es : List Event)
    → IsDelivery (run (new_tts_stream capacity first_audio sentence) es)
run-new_tts_stream-IsDelivery capacity first_audio sentence es = run-IsDelivery _ es start
  where
    start : IsDelivery (new_tts_stream capacity first_audio sentence)
    start = unfold new_tts_stream waiting in ground arith
