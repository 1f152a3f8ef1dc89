-- ===== src/Ai/TtsStream/Failing.antt =====
-- How a TTS stream fails and how it ends: what stays true of it from then on, and what its callers see.
use xiaozhi_esp32_golang_ser.Prelude.{
  ℕ, ◌≡◌, ◌≢◌, ◌⊎◌, inl, inr, Bool, true, false, ◌||◌, Option, none, some, List, [], ◌∷◌, arith,
  Option-cases,
}
use xiaozhi_esp32_golang_ser.Ai.Task.{TaskError, canceled, first_audio_timeout, is_set, keep_first}
use xiaozhi_esp32_golang_ser.Ai.TtsStream.{
  Request, Frame, TtsStream, end_ctx, record_error, close_conn, timeout_or_fallback_err,
  handle_first_audio_timeout, handle_sentence_timeout, reset_sentence_timer, stop_timers, leave,
  take_audio, take_event, take_frame, read_frame, push_pending, give_up_pending, close, refusal,
}
use xiaozhi_esp32_golang_ser.Ai.TtsStream.Calls.{
  lock_sentence, lock_finish, lock_cancel, start_write, written, complete, start_first_audio_timer,
  ctx_refusal, send_sentence, finish, Outcome, gives, next_pcm, take_chunk, Next, end_of_pcm,
  end_of_ctx, eof, fails, chunk, next_waits, Pick, sees_pcm, sees_caller, sees_stream, Event, step,
  run,
}

-- What no step takes back.
record Stays (s t : TtsStream) : Type 0 where
  error_stays : (e : TaskError) → s.err ≡ some e → t.err ≡ some e
  ctx_stays : (e : TaskError) → s.ctx_err ≡ some e → t.ctx_err ≡ some e
  closed_stays : s.closed ≡ true → t.closed ≡ true
  finished_stays : s.finished ≡ true → t.finished ≡ true
  timeout_stays : s.first_audio_timed_out ≡ true → t.first_audio_timed_out ≡ true

close-Stays : (s : TtsStream) → Stays s (close s)
unfolding close stop_timers end_ctx close_conn keep_first
close-Stays s = ground arith

read_frame-Stays : (s : TtsStream) (frame : Frame) → Stays s (read_frame frame s)
unfolding read_frame take_frame take_event take_audio reset_sentence_timer leave stop_timers
    close_conn record_error keep_first
read_frame-Stays s frame = ground arith

first_audio_timeout-Stays : (s : TtsStream) → Stays s (handle_first_audio_timeout s)
unfolding handle_first_audio_timeout record_error end_ctx close_conn keep_first
first_audio_timeout-Stays s = ground arith

sentence_timeout-Stays : (s : TtsStream) → Stays s (handle_sentence_timeout s)
unfolding handle_sentence_timeout record_error end_ctx close_conn keep_first
sentence_timeout-Stays s = ground arith

select-Stays : (s : TtsStream) → Stays s (push_pending s) × Stays s (give_up_pending s)
unfolding push_pending give_up_pending leave stop_timers close_conn
select-Stays s = ground arith

next_pcm-Stays :
    (s : TtsStream) (caller : Option TaskError) (pick : Pick) → Stays s (next_pcm caller pick s).0
unfolding next_pcm take_chunk
next_pcm-Stays s caller pick = ground arith

lock_sentence-Stays : (s : TtsStream) (words : List ℕ) → Stays s (lock_sentence words s).0
unfolding lock_sentence start_write
lock_sentence-Stays s words = ground arith

lock_finish-Stays : (s : TtsStream) → Stays s (lock_finish s).0
unfolding lock_finish start_write
lock_finish-Stays s = ground arith

lock_cancel-Stays : (s : TtsStream) → Stays s (lock_cancel s).0
unfolding lock_cancel start_write close stop_timers end_ctx close_conn keep_first
lock_cancel-Stays s = ground arith

written-Stays : (s : TtsStream) (r : Request) (result : Option ℕ) → Stays s (written r result s).0
unfolding written reset_sentence_timer start_first_audio_timer close stop_timers end_ctx close_conn
    record_error keep_first
written-Stays s r result = ground arith

complete-Stays : (s : TtsStream) (result : Option ℕ) → Stays s (complete result s).0
unfolding complete
complete-Stays s result = elim (Option-cases s.writing) [
  | inl e ↦ ground arith
  | inr (r, e) ↦ ground (arith, written-Stays (record s { writing = none }) r result)
]

step-Stays : (s : TtsStream) (e : Event) → Stays s (step s e)
unfolding step
step-Stays s (Event.reads frame) = read_frame-Stays s frame
step-Stays s Event.pushes = (select-Stays s).0
step-Stays s Event.gives_up = (select-Stays s).1
step-Stays s Event.first_audio_fires = first_audio_timeout-Stays s
step-Stays s Event.sentence_fires = sentence_timeout-Stays s
step-Stays s (Event.locks_sentence words) = lock_sentence-Stays s words
step-Stays s Event.locks_finish = lock_finish-Stays s
step-Stays s Event.locks_cancel = lock_cancel-Stays s
step-Stays s Event.closes = close-Stays s
step-Stays s (Event.writes result) = complete-Stays s result
step-Stays s (Event.takes caller pick) = next_pcm-Stays s caller pick
step-Stays s (Event.parent_ends e) = unfold end_ctx keep_first in ground arith

Stays-trans : (s t u : TtsStream) → Stays s t → Stays t u → Stays s u
Stays-trans s t u h k = record {
  error_stays = λ e g. k.error_stays e (h.error_stays e g);
  ctx_stays = λ e g. k.ctx_stays e (h.ctx_stays e g);
  closed_stays = λ g. k.closed_stays (h.closed_stays g);
  finished_stays = λ g. k.finished_stays (h.finished_stays g);
  timeout_stays = λ g. k.timeout_stays (h.timeout_stays g);
}

run-Stays : (s : TtsStream) (es : List Event) → Stays s (run s es)
unfolding run
run-Stays s [] = ground arith
run-Stays s (e ∷ es) = Stays-trans s (step s e) _ (step-Stays s e) (run-Stays (step s e) es)

-- A call that sends nothing and gives an error, or has not come to its lock.
unfoldable pub IsRefused : TtsStream → TtsStream × Outcome → Type 0
IsRefused s r = (r.0 ≡ s) × (r.1 ≢ gives none)

now-IsRefused :
    (s : TtsStream) (ctx_err : Option TaskError) (c : ℕ) (words : List ℕ) (result : Option ℕ)
    → s.closed || (s.finished || is_set s.err) ≡ true
    → IsRefused s (send_sentence ctx_err (c ∷ words) result s)
unfolding IsRefused send_sentence refusal is_set
now-IsRefused s ctx_err c words result h = ground arith

Stays-ends :
    (s t : TtsStream)
    → Stays s t
    → s.closed || (s.finished || is_set s.err) ≡ true
    → t.closed || (t.finished || is_set t.err) ≡ true
unfolding is_set
Stays-ends s t k h = elim (Option-cases s.err) [
  | inl e ↦ ground arith
  | inr (old, e) ↦ ground (arith, k.error_stays old e)
]

-- From a stream that is closed, whose input is finished or that has an error, whatever happens then, every
-- `SendSentence` of a text gives an error and leaves the stream as it is.
pub send_sentence-IsRefused :
    (s : TtsStream) (es : List Event) (ctx_err : Option TaskError) (c : ℕ) (words : List ℕ)
    (result : Option ℕ)
    → s.closed || (s.finished || is_set s.err) ≡ true
    → IsRefused (run s es) (send_sentence ctx_err (c ∷ words) result (run s es))
send_sentence-IsRefused s es ctx_err c words result h =
    now-IsRefused (run s es) ctx_err c words result (Stays-ends s _ (run-Stays s es) h)

-- A chunk that came all the same, or the timeout of the first audio.
unfoldable pub is_late : Next → Bool
is_late (chunk c) = true
is_late next_waits = false
is_late eof = false
is_late (fails first_audio_timeout) = true
is_late (fails e) = false

-- What the callers of a stream see whose first audio did not come in time.
pub record IsTimedOut (s : TtsStream) : Type 0 where
  pub next_from_pcm :
      (caller : Option TaskError)
      → (is_late (next_pcm caller sees_pcm s).1 ≡ true) ⊎ ((s.pcm ≡ []) × (s.pcm_closed ≡ false))
  pub next_from_ctx : (caller : Option TaskError) → is_late (next_pcm caller sees_stream s).1 ≡ true
  pub next_from_caller : (e : TaskError) → (next_pcm (some e) sees_caller s).1 ≡ fails e
  pub sends_nothing :
      (c : ℕ) (words : List ℕ) (result : Option ℕ)
      → send_sentence none (c ∷ words) result s ≡ (s, gives (some first_audio_timeout))
  pub finishes_nothing :
      (result : Option ℕ) → finish none result s ≡ (s, gives (some first_audio_timeout))

late-IsTimedOut :
    (s : TtsStream) (e : TaskError)
    → s.first_audio_timed_out ≡ true
    → s.ctx_err ≡ some e
    → IsTimedOut s
unfolding next_pcm take_chunk end_of_pcm end_of_ctx is_late send_sentence finish ctx_refusal
    timeout_or_fallback_err
late-IsTimedOut s e h k = record {
  next_from_pcm = λ caller. ground arith;
  next_from_ctx = λ caller. ground arith;
  next_from_caller = λ e. ground arith;
  sends_nothing = λ c words result. ground arith;
  finishes_nothing = λ result. ground arith;
}

fired_lem :
    (s : TtsStream)
    → s.first_audio_received ≡ false
    → ((handle_first_audio_timeout s).first_audio_timed_out ≡ true)
      × ((e : TaskError) × ((handle_first_audio_timeout s).ctx_err ≡ some e))
unfolding handle_first_audio_timeout record_error end_ctx close_conn keep_first
fired_lem s h = elim (Option-cases s.ctx_err) [
  | inl e ↦ (ground arith, (canceled, ground arith))
  | inr (old, e) ↦ (ground arith, (old, ground arith))
]

-- Once the timer for the first audio runs off on a stream without audio, whatever happens then:
-- `SendSentence` and `Finish`, of a caller whose own context goes on, give the timeout and send nothing. The
-- `select` of `NextPCM` always finds the end of the stream's context, which gives the timeout or a chunk that
-- came all the same, as the channel does unless it is empty and open; a caller whose context ends may get that
-- error.
pub late_first_audio-IsTimedOut :
    (s : TtsStream) (es : List Event)
    → s.first_audio_received ≡ false
    → IsTimedOut (run (handle_first_audio_timeout s) es)
late_first_audio-IsTimedOut s es h =
    let fired = fired_lem s h in
    let stays = run-Stays (handle_first_audio_timeout s) es in
    late-IsTimedOut _ fired.1.0 (stays.timeout_stays fired.0) (stays.ctx_stays fired.1.0 fired.1.1)
