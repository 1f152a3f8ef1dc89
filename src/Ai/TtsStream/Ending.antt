-- ===== src/Ai/TtsStream/Ending.antt =====
-- The end of the audio of a TTS stream: it is told apart from a failure, and comes after every chunk.
use xiaozhi_esp32_golang_ser.Prelude.{
  ℕ, zero, suc, ◌≡◌, refl, subst, true, false, ◌||◌, Option, none, List, [], ◌∷◌, ◌++◌, length,
  append-nil, arith,
}
use xiaozhi_esp32_golang_ser.Ai.Task.{TaskError, is_set}
use xiaozhi_esp32_golang_ser.Ai.TtsStream.{Chunk, TtsStream, new_tts_stream}
use xiaozhi_esp32_golang_ser.Ai.TtsStream.Calls.{
  next_pcm, take_chunk, Next, end_of_pcm, end_of_ctx, eof, next_waits, chunk, Pick, sees_pcm,
  sees_caller, sees_stream, Event, run,
}
use xiaozhi_esp32_golang_ser.Ai.TtsStream.Delivery.{
  waiting, IsDelivery, run-new_tts_stream-IsDelivery,
}

-- What holds where a reader sees the end of the audio.
pub record IsComplete (s : TtsStream) : Type 0 where
  pub server_ended : s.ended ≡ true
  pub all_delivered : s.delivered ≡ s.received
  pub no_error : s.err ≡ none
  pub not_closed : s.closed ≡ false
  pub in_time : s.first_audio_timed_out || s.sentence_timed_out ≡ false

end_of_pcm-eof :
    (s : TtsStream)
    → end_of_pcm s ≡ eof
    → (s.err ≡ none)
      × ((s.ctx_err ≡ none)
          × ((s.closed ≡ false) × (s.first_audio_timed_out || s.sentence_timed_out ≡ false)))
unfolding end_of_pcm
end_of_pcm-eof s h = ground arith

next_pcm-eof :
    (s : TtsStream) (caller : Option TaskError) (pick : Pick)
    → (next_pcm caller pick s).1 ≡ eof
    → (s.pcm ≡ []) × ((s.pcm_closed ≡ true) × (end_of_pcm s ≡ eof))
unfolding next_pcm take_chunk end_of_ctx
next_pcm-eof s caller sees_pcm h = ground arith
next_pcm-eof s caller sees_caller h = ground arith
next_pcm-eof s caller sees_stream h = ground arith

complete_lem :
    (s : TtsStream)
    → IsDelivery s
    → (s.pcm ≡ []) × ((s.pcm_closed ≡ true) × (end_of_pcm s ≡ eof))
    → IsComplete s
unfolding is_set waiting
complete_lem s v h = ground (arith, end_of_pcm-eof s h.1.1, append-nil s.delivered)

-- In every interleaving, `NextPCM` answers `io.EOF` only where the service has ended the task, every chunk
-- received was given to the caller before, and the stream has no error, no timeout and was not closed.
pub next_pcm-eof-IsComplete :
    (capacity first_audio sentence : ℕ) (es : List Event) (caller : Option TaskError) (pick : Pick)
    → (next_pcm caller pick (run (new_tts_stream capacity first_audio sentence) es)).1 ≡ eof
    → IsComplete (run (new_tts_stream capacity first_audio sentence) es)
next_pcm-eof-IsComplete capacity first_audio sentence es caller pick h =
    complete_lem _ (run-new_tts_stream-IsDelivery capacity first_audio sentence es)
      (next_pcm-eof _ caller pick h)

-- `NextPCM` again and again, until it gives no chunk.
unfoldable pub collect : ℕ → TtsStream → List Chunk × Next
collect zero s = ([], next_waits)
collect (suc n) s =
    let (t, answer) = next_pcm none sees_pcm s in
    elim answer [ chunk c ↦ let rest = collect n t in (c ∷ rest.0, rest.1) | other ↦ ([], other) ]

collect_from :
    (s : TtsStream) (cs : List Chunk)
    → s.pcm ≡ cs
    → s.pcm_closed ≡ true
    → end_of_pcm s ≡ eof
    → collect (suc (length cs)) s ≡ (cs, eof)
unfolding collect next_pcm take_chunk end_of_pcm
collect_from s [] e f g = ground arith
collect_from s (c ∷ cs) e f g =
    ground
      (arith, collect_from (record s { pcm = cs; delivered = s.delivered ++ c ∷ [] }) cs refl f g)

collect_lem :
    (s : TtsStream)
    → s.pcm_closed ≡ true
    → (s.err ≡ none) × (s.ctx_err ≡ none)
    → s.closed || (s.first_audio_timed_out || s.sentence_timed_out) ≡ false
    → collect (suc (length s.pcm)) s ≡ (s.pcm, eof)
unfolding end_of_pcm
collect_lem s e f g = collect_from s s.pcm refl e (ground arith)

all_given :
    (s : TtsStream)
    → IsDelivery s
    → s.pcm_closed ≡ true
    → s.ctx_err ≡ none
    → s.delivered ++ s.pcm ≡ s.received
unfolding is_set waiting
all_given s v e f = ground (arith, append-nil s.pcm)

-- In every interleaving, once the service has ended the task of a stream that has no error or timeout and
-- is not closed or cancelled, calls of `NextPCM` give the caller every chunk that waits, then the end of the
-- audio; with those given before, they are all the chunks received, in order.
pub collect-run :
    (capacity first_audio sentence : ℕ) (es : List Event) (s : TtsStream)
    → run (new_tts_stream capacity first_audio sentence) es ≡ s
    → s.ended ≡ true
    → (s.err ≡ none) × (s.ctx_err ≡ none)
    → s.closed || (s.first_audio_timed_out || s.sentence_timed_out) ≡ false
    → (collect (suc (length s.pcm)) s ≡ (s.pcm, eof)) × (s.delivered ++ s.pcm ≡ s.received)
collect-run capacity first_audio sentence es s e f g h =
    let v = subst IsDelivery e (run-new_tts_stream-IsDelivery capacity first_audio sentence es) in
    let left = v.ended_leaves f in (collect_lem s left g h, all_given s v left g.1)
