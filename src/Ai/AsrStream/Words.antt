-- ===== src/Ai/AsrStream/Words.antt =====
-- The text that an ASR stream gives, against a description of it that looks at the messages only.
use xiaozhi_esp32_golang_ser.Prelude.{
  ℕ, ◌≡◌, ◌⊎◌, refl, sym, ◌∙◌, Bool, true, false, Option, none, some, List, [], ◌∷◌, arith, All,
  if◌then◌else◌,
}
use xiaozhi_esp32_golang_ser.Session.Message.{Text}
use xiaozhi_esp32_golang_ser.Ai.Task.{
  task_finished, task_failed, result_generated, event_of, TaskError,
}
use xiaozhi_esp32_golang_ser.Ai.AsrStream.{
  Frame, lost, binary, text, Sentence, Response, AsrStream, new_asr_stream, mark_vad_ready,
  mark_finished, or_else, update_partial_text, update_final_text, end_sentence, take_result,
  sentence_words, settle_text, leave, take_response, take_frame, read_frame,
}
use xiaozhi_esp32_golang_ser.Ai.AsrStream.Calls.{
  lock_pcm, lock_finish, complete, result, settled, sees_ready, sees_finished, Pick, answers, Event,
  step, run,
}

-- The text of a message: of the whole output, or else of its sentence.
unfoldable pub words_of : Response → Text
unfolding or_else sentence_words
words_of r = or_else r.output (sentence_words r.sentence)

unfoldable pub ends_sentence : Option Sentence → Bool
ends_sentence none = false
ends_sentence (some sentence) = sentence.sentence_end

-- The text of a result that ends a sentence, and of one that does not.
unfoldable pub final_words : Frame → Text
unfolding event_of words_of ends_sentence
final_words (text (some r)) = elim (event_of r.header) [
  | result_generated ↦ if ends_sentence r.sentence then words_of r else []
  | e ↦ []
]
final_words other = []

unfoldable pub partial_words : Frame → Text
unfolding event_of words_of ends_sentence
partial_words (text (some r)) = elim (event_of r.header) [
  | result_generated ↦ if ends_sentence r.sentence then [] else words_of r
  | e ↦ []
]
partial_words other = []

-- The last text that is not empty.
unfoldable pub latest : (Frame → Text) → List Frame → Text
unfolding or_else
latest f [] = []
latest f (x ∷ xs) = or_else (latest f xs) (f x)

-- A frame that does not end the loop.
unfoldable pub goes_on : Frame → Bool
unfolding event_of
goes_on (lost e) = false
goes_on binary = true
goes_on (text none) = true
goes_on (text (some r)) = elim (event_of r.header) [
  | task_finished ↦ false
  | task_failed ↦ false
  | e ↦ true
]

-- A step that keeps the stream open: audio and `Finish` are written, results come.
unfoldable pub is_quiet : Event → Bool
is_quiet (Event.reads frame) = goes_on frame
is_quiet (Event.writes (some e)) = false
is_quiet Event.closes = false
is_quiet other = true

unfoldable pub frames : List Event → List Frame
frames [] = []
frames (Event.reads frame ∷ es) = frame ∷ frames es
frames (other ∷ es) = frames es

or_else_nil : (a : Text) → or_else a [] ≡ a
unfolding or_else
or_else_nil [] = refl
or_else_nil (c ∷ cs) = refl

or_else_assoc : (a b c : Text) → or_else (or_else a b) c ≡ or_else a (or_else b c)
unfolding or_else
or_else_assoc [] b c = refl
or_else_assoc (d ∷ ds) b c = refl

-- What a quiet step from `s` to `t` does, the texts of the frame being `final` and `partial`.
record Takes (final partial : Text) (s t : AsrStream) : Type 0 where
  final_set : t.final_text ≡ or_else final s.final_text
  partial_set : t.partial_text ≡ or_else partial s.partial_text
  stays_in : t.left ≡ s.left
  no_error : t.err ≡ s.err

read_frame-Takes :
    (s : AsrStream) (frame : Frame)
    → goes_on frame ≡ true
    → s.left ≡ false
    → Takes (final_words frame) (partial_words frame) s (read_frame frame s)
unfolding goes_on final_words partial_words read_frame take_frame take_response take_result
    end_sentence update_partial_text update_final_text mark_vad_ready or_else words_of ends_sentence
    sentence_words
read_frame-Takes s frame h e = ground arith

other-Takes : (s : AsrStream) → Takes [] [] s (lock_finish s).0 × Takes [] [] s (complete none s).0
unfolding lock_finish complete or_else
other-Takes s = ground arith

lock_pcm-Takes : (s : AsrStream) (pcm : List ℕ) → Takes [] [] s (lock_pcm pcm s).0
unfolding lock_pcm or_else
lock_pcm-Takes s pcm = ground arith

Takes-trans :
    (f p g q : Text) (s t u : AsrStream)
    → Takes f p s t
    → Takes g q t u
    → Takes (or_else g f) (or_else q p) s u
Takes-trans f p g q s t u h k =
    ground (arith, or_else_assoc g f s.final_text, or_else_assoc q p s.partial_text)

step-Takes :
    (s : AsrStream) (e : Event)
    → is_quiet e ≡ true
    → s.left ≡ false
    → Takes
        (latest final_words (frames (e ∷ [])))
        (latest partial_words (frames (e ∷ [])))
        s
        (step s e)
unfolding step is_quiet frames latest or_else
step-Takes s (Event.reads frame) h k = read_frame-Takes s frame h k
step-Takes s (Event.locks_pcm pcm) h k = lock_pcm-Takes s pcm
step-Takes s Event.locks_finish h k = (other-Takes s).0
step-Takes s Event.closes h k = ground arith
step-Takes s (Event.writes none) h k = (other-Takes s).1
step-Takes s (Event.writes (some e)) h k = ground arith
step-Takes s (Event.parent_ends e) h k = ground arith

latest-frames :
    (f : Frame → Text) (e : Event) (es : List Event)
    → latest f (frames (e ∷ es)) ≡ or_else (latest f (frames es)) (latest f (frames (e ∷ [])))
unfolding latest frames or_else
latest-frames f (Event.reads frame) es = refl
latest-frames f (Event.locks_pcm pcm) es = sym (or_else_nil _)
latest-frames f Event.locks_finish es = sym (or_else_nil _)
latest-frames f Event.closes es = sym (or_else_nil _)
latest-frames f (Event.writes answer) es = sym (or_else_nil _)
latest-frames f (Event.parent_ends e) es = sym (or_else_nil _)

run-Takes :
    (s : AsrStream) (es : List Event)
    → All (λ e. is_quiet e ≡ true) es
    → s.left ≡ false
    → Takes (latest final_words (frames es)) (latest partial_words (frames es)) s (run s es)
unfolding run
run-Takes s [] h k = unfold latest frames or_else in ground arith
run-Takes s (e ∷ es) h k =
    let first = step-Takes s e h.0 k in
    let rest = run-Takes (step s e) es h.1 (first.stays_in ∙ k) in
    rw (latest-frames final_words e es, latest-frames partial_words e es)
      (Takes-trans _ _ _ _ s (step s e) (run (step s e) es) first rest)

settled_text :
    (s : AsrStream) (r : Response) (caller : Option TaskError) (pick : Pick)
    → s.left ≡ false
    → s.err ≡ none
    → event_of r.header ≡ task_finished
    → (pick ≡ sees_ready) ⊎ (pick ≡ sees_finished)
    → result true caller pick (read_frame (text (some r)) s)
      ≡ answers (or_else (words_of r) (or_else s.final_text s.partial_text)) none
unfolding result settled read_frame take_frame take_response settle_text leave mark_finished
    update_final_text or_else words_of
settled_text s r caller pick e f g here = ground arith

-- In every interleaving of reading results with writing audio and `Finish`, where no write fails and nobody
-- closes the stream, once the task has ended `Result`, where its `select` sees that, gives, without an error: the text of the message that
-- ended it, where it has one, or else the last text that ended a sentence, or else the last partial text.
pub result_lem :
    (es : List Event) (r : Response) (caller : Option TaskError) (pick : Pick)
    → All (λ e. is_quiet e ≡ true) es
    → event_of r.header ≡ task_finished
    → (pick ≡ sees_ready) ⊎ (pick ≡ sees_finished)
    → result true caller pick (read_frame (text (some r)) (run new_asr_stream es))
      ≡ answers
          (or_else
            (words_of r)
            (or_else (latest final_words (frames es)) (latest partial_words (frames es))))
          none
unfolding new_asr_stream
result_lem es r caller pick h g here =
    let t = run-Takes new_asr_stream es h refl in
    settled_text (run new_asr_stream es) r caller pick t.stays_in t.no_error g here
    ∙ rw (t.final_set ∙ or_else_nil _, t.partial_set ∙ or_else_nil _)
