-- ===== src/Audio/AsrQueue/Laws.antt =====
-- The queue bounds its backlog and hands the frames on in order, in every interleaving of its calls with
-- the worker.
use xiaozhi_esp32_golang_ser.Prelude.{
  ℕ, ◌≤◌, ◌<◌, ◌≡◌, ◌≢◌, ◌&&◌, Bool-cases, refl, ap, sym, ◌∙◌, ◌⊎◌, inl, inr, Bool, true, false,
  none, List, [], ◌∷◌, ◌++◌, length, length-append, append_assoc, arith,
}
use xiaozhi_esp32_golang_ser.Audio.AsrQueue.{
  AsrAudioQueue, new_asr_audio_queue, push, finish, worker_step, worker_round, close, StreamResult,
}

-- What may happen to a queue: calls from the session, rounds of the worker, its context cancelled.
pub data Event : Type 0 where
  pushes : List ℕ → Event
  finishes closes cancels : Event
  works : Bool → StreamResult → Event

unfoldable pub step : AsrAudioQueue → Event → AsrAudioQueue
step q (pushes pcm) = (push q pcm).0
step q finishes = finish q
step q closes = close q
step q cancels = record q { ctx_done = true }
step q (works sees_cancel result) = worker_step q sees_cancel result

unfoldable pub run : AsrAudioQueue → List Event → AsrAudioQueue
run q [] = q
run q (e ∷ es) = run (step q e) es

-- The backlog is bounded; the frames written, then those waiting, are the frames accepted, in order; the
-- stream is finished once at most, after its last frame, and only by a worker that has returned.
pub record IsOrderly (q : AsrAudioQueue) : Type 0 where
  pub streaming : q.has_stream ≡ true
  pub bounded : length q.queue ≤ q.capacity
  pub in_order : q.written ++ q.queue ≡ q.accepted
  pub finished_once : q.stream_finishes ≤ 1
  pub finished_last :
      0 < q.stream_finishes
      → (q.queue ≡ []) × (q.done ≡ true) × ((q.finished ≡ true) ⊎ (q.closed ≡ true))

appended :
    (w u acc : List (List ℕ)) (x : List ℕ) → w ++ u ≡ acc → w ++ (u ++ x ∷ []) ≡ acc ++ x ∷ []
appended w u acc x h = sym (append_assoc w u (x ∷ [])) ∙ ap (λ l. l ++ x ∷ []) h

moved : (w u : List (List ℕ)) (x : List ℕ) → (w ++ x ∷ []) ++ u ≡ w ++ (x ∷ u)
moved w u x = append_assoc w (x ∷ []) u

push-IsOrderly : (q : AsrAudioQueue) (pcm : List ℕ) → IsOrderly q → IsOrderly (push q pcm).0
unfolding push
push-IsOrderly q [] v = v
push-IsOrderly q (b ∷ pcm) v =
    ground (
      arith,
      appended q.written q.queue q.accepted (b ∷ pcm),
      length-append q.queue ((b ∷ pcm) ∷ []),
    )

worker_round-IsOrderly :
    (q : AsrAudioQueue) (queue : List (List ℕ)) (result : StreamResult)
    → q.queue ≡ queue
    → q.done ≡ false
    → IsOrderly q
    → IsOrderly (worker_round q queue result)
unfolding worker_round
worker_round-IsOrderly q [] result same busy v = ground arith
worker_round-IsOrderly q (pcm ∷ rest) result same busy v = ground (arith, moved q.written rest pcm)

pub step-IsOrderly : (q : AsrAudioQueue) (e : Event) → IsOrderly q → IsOrderly (step q e)
unfolding step
step-IsOrderly q (pushes pcm) v = push-IsOrderly q pcm v
step-IsOrderly q finishes v = unfold finish in ground arith
step-IsOrderly q closes v = unfold close in ground arith
step-IsOrderly q cancels v = ground arith
step-IsOrderly q (works c r) v =
    unfold worker_step in
    elim (Bool-cases q.done) [
      | inl d ↦ simp d v
      | inr b ↦ simp b (elim (Bool-cases (q.ctx_done && c)) [
        | inl e ↦ simp e (ground arith)
        | inr e ↦ simp e (worker_round-IsOrderly q q.queue r refl b v)
      ])
    ]

run-IsOrderly : (q : AsrAudioQueue) (es : List Event) → IsOrderly q → IsOrderly (run q es)
unfolding run
run-IsOrderly q [] v = v
run-IsOrderly q (e ∷ es) v = run-IsOrderly (step q e) es (step-IsOrderly q e v)

-- In every interleaving of pushes, worker rounds, `Finish`, `Close` and cancellation, from a new queue with
-- a stream: the backlog stays within the capacity; the frames written to the stream, then those still
-- waiting, are exactly the frames accepted, in order; and the stream's `Finish` is called at most once,
-- after the last frame, by a worker that has returned.
pub run-new_queue-IsOrderly :
    (capacity : ℕ) (es : List Event) → IsOrderly (run (new_asr_audio_queue true capacity) es)
run-new_queue-IsOrderly capacity es = run-IsOrderly _ es start
  where
    start : IsOrderly (new_asr_audio_queue true capacity)
    start = unfold new_asr_audio_queue in ground arith

-- Either `Push` accepts a frame: then the queue is open and has room, and the frame joins the end of the
-- backlog. Or it refuses it with an error, and the queue is unchanged.
pub push_cases :
    (q : AsrAudioQueue) (b : ℕ) (pcm : List ℕ)
    → (((push q (b ∷ pcm)).1 ≡ none)
        × ((push q (b ∷ pcm)).0.queue ≡ q.queue ++ (b ∷ pcm) ∷ [])
        × (q.closed ≡ false)
        × (q.finished ≡ false)
        × (length q.queue < q.capacity))
      ⊎ (((push q (b ∷ pcm)).1 ≢ none) × ((push q (b ∷ pcm)).0 ≡ q))
unfolding push
push_cases q b pcm = ground arith
