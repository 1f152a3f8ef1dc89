-- ===== src/Audio/AsrQueue.antt =====
-- `ASRAudioQueue` of internal/audio/queue.go: a bounded queue of PCM frames and the one worker that writes
-- them to the ASR stream. The channel is the list `queue`, oldest first; `finished` also says that it is
-- closed. The stream is not modelled: `written` and `stream_finishes` record the calls made on it, and
-- each step of the worker takes what the call returned. `accepted` is a history variable: the frames
-- that `Push` has put into the channel. The logger is left out.
pub mod Laws
use xiaozhi_esp32_golang_ser.Prelude.{
  ℕ, suc, ◌+◌, Bool, true, false, ◌&&◌, ◌||◌, Option, none, some, List, [], ◌∷◌, ◌++◌, length, ltb,
  ◌==◌, if◌then◌else◌,
}

abbrev pub default_asr_pcm_queue_capacity : ℕ
default_asr_pcm_queue_capacity = 100

-- What `Push` may return: the two sentinels, the cancelled context, or the worker's error.
pub data QueueError : Type 0 where
  queue_full queue_closed context_canceled : QueueError
  stream_error : ℕ → QueueError

pub record AsrAudioQueue : Type 0 where
  pub has_stream : Bool
  pub capacity : ℕ
  pub queue : List (List ℕ)
  pub ctx_done : Bool
  pub closed : Bool
  pub finished : Bool
  pub worker_err : Option QueueError
  pub done : Bool
  pub written : List (List ℕ)
  pub stream_finishes : ℕ
  pub accepted : List (List ℕ)

unfoldable pub new_asr_audio_queue : Bool → ℕ → AsrAudioQueue
new_asr_audio_queue has_stream capacity = record {
  has_stream = has_stream;
  capacity = if capacity == 0 then default_asr_pcm_queue_capacity else capacity;
  queue = [];
  ctx_done = false;
  closed = false;
  finished = false;
  worker_err = none;
  done = false;
  written = [];
  stream_finishes = 0;
  accepted = [];
}

unfoldable pub push : AsrAudioQueue → List ℕ → AsrAudioQueue × Option QueueError
push q [] = (q, none)
push q (b ∷ pcm) = if q.closed || q.finished then (q, some queue_closed) else elim q.worker_err [
  | some e ↦ (q, some e)
  | none ↦
      if q.ctx_done
      then (q, some context_canceled)
      else if ltb (length q.queue) q.capacity
      then (
        record q { queue = q.queue ++ (b ∷ pcm) ∷ []; accepted = q.accepted ++ (b ∷ pcm) ∷ [] },
        none,
      )
      else (q, some queue_full)
]

unfoldable pub finish : AsrAudioQueue → AsrAudioQueue
finish q = if q.closed || q.finished then q else record q { finished = true }

-- What a call on the stream returned: nothing, a cancelled context, or another error.
pub data StreamResult : Type 0 where
  fine canceled : StreamResult
  failed : ℕ → StreamResult

keep_first : Option QueueError → ℕ → Option QueueError
keep_first none code = some (stream_error code)
keep_first (some e) code = some e

-- The worker returns after an error; only one that is no cancellation is kept.
stop_after : AsrAudioQueue → StreamResult → AsrAudioQueue
unfolding keep_first
stop_after q fine = q
stop_after q canceled = record q { done = true }
stop_after q (failed code) = record q { done = true; worker_err = keep_first q.worker_err code }

-- A frame received from the channel.
receive : AsrAudioQueue → List ℕ → List (List ℕ) → StreamResult → AsrAudioQueue
unfolding stop_after
receive q pcm rest result =
    if q.has_stream
    then stop_after (record q { queue = rest; written = q.written ++ pcm ∷ [] }) result
    else record q { queue = rest }

-- The channel is closed and empty: `Finish` the stream, once, and return.
conclude : AsrAudioQueue → StreamResult → AsrAudioQueue
unfolding stop_after
conclude q result =
    if q.has_stream
    then record (stop_after q result) { done = true; stream_finishes = q.stream_finishes + 1 }
    else record q { done = true }

worker_round : AsrAudioQueue → List (List ℕ) → StreamResult → AsrAudioQueue
unfolding receive conclude
worker_round q (pcm ∷ rest) result = receive q pcm rest result
worker_round q [] result = if q.finished then conclude q result else q

-- One round of the worker's loop. Where the context is done and the channel is ready too, `select` takes
-- either: `sees_cancel` is its choice.
unfoldable pub worker_step : AsrAudioQueue → Bool → StreamResult → AsrAudioQueue
unfolding worker_round
worker_step q sees_cancel result =
    if q.done
    then q
    else if q.ctx_done && sees_cancel
    then record q { done = true }
    else worker_round q q.queue result

-- `Close` cancels the context and waits for the worker, which returns at its next round.
unfoldable pub close : AsrAudioQueue → AsrAudioQueue
close q = if q.closed then q else record q { closed = true; ctx_done = true; done = true }
