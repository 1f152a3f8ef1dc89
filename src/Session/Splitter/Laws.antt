-- ===== src/Session/Splitter/Laws.antt =====
-- What `Feed` and `Flush` promise.
use xiaozhi_esp32_golang_ser.Prelude.{
  ℕ, suc, ◌<◌, ◌≡◌, ◌≢◌, refl, sym, ap, ◌∙◌, not, List, [], ◌∷◌, ◌++◌, length, keep-append,
  append_assoc, append-nil, arith, flatten, flatten-append, All,
}
use xiaozhi_esp32_golang_ser.Session.Splitter.{
  is_space, SentenceSplitter, new_sentence_splitter, split, feed, flush, trim_space,
  max_sentence_runes,
}
use xiaozhi_esp32_golang_ser.Session.Splitter.Loop.{
  visible, visible-trim_space, visible-add_sentence, split_loop-visible, split_loop-IsDone, IsDone,
  IsDone-short,
}
use xiaozhi_esp32_golang_ser.Session.Splitter.Shape.{IsSentence, split_loop-IsSentence}

pub visible-append : (a b : List ℕ) → visible (a ++ b) ≡ visible a ++ visible b
visible-append a b = keep-append (λ r. not (is_space r)) a b

-- `Feed` loses and reorders nothing but white space: apart from it, the sentences it gives, then the new
-- buffer, spell the old buffer, then the chunk.
pub feed-visible :
    (s : SentenceSplitter) (chunk : List ℕ)
    → visible (flatten (feed s chunk).1) ++ visible (feed s chunk).0.buffer
      ≡ visible s.buffer ++ visible chunk
unfolding feed split flatten
feed-visible s [] = sym (append-nil (visible s.buffer))
feed-visible s (r ∷ chunk) =
    split_loop-visible _ (s.buffer ++ (r ∷ chunk)) ∙ visible-append s.buffer (r ∷ chunk)

-- Each sentence that `Feed` gives has text, no white space at its ends, and past its first thirty runes
-- only sentence punctuation and closing marks.
pub feed-IsSentence : (s : SentenceSplitter) (chunk : List ℕ) → All IsSentence (feed s chunk).1
unfolding feed split
feed-IsSentence s [] = tt
feed-IsSentence s (r ∷ chunk) = split_loop-IsSentence _ (s.buffer ++ (r ∷ chunk))

-- After `Feed` of a chunk that is not empty the loop has ended by its own test: the buffer holds no
-- complete sentence, no white space at its front, and fewer than thirty runes.
pub feed_settles :
    (s : SentenceSplitter) (chunk : List ℕ)
    → chunk ≢ []
    → let rest = (feed s chunk).0.buffer in IsDone rest × (length rest < max_sentence_runes)
unfolding feed split
feed_settles s [] h = absurd (h refl)
feed_settles s (r ∷ chunk) h =
    let done =
      split_loop-IsDone (suc (length (s.buffer ++ (r ∷ chunk)))) (s.buffer ++ (r ∷ chunk))
        (omega arith) in
    (done, IsDone-short done)

-- The sentences of a reply, the way the answer loop reads it: `Feed` for each chunk, then `Flush`.
unfoldable pub feed_all : SentenceSplitter → List (List ℕ) → List (List ℕ)
feed_all s [] = (flush s).1
feed_all s (c ∷ cs) = let one = feed s c in one.1 ++ feed_all one.0 cs

pub flush-visible : (s : SentenceSplitter) → visible (flatten (flush s).1) ≡ visible s.buffer
unfolding flush flatten
flush-visible s =
    visible-add_sentence (trim_space s.buffer) [] ∙ append-nil _ ∙ visible-trim_space s.buffer

feed_all-visible :
    (s : SentenceSplitter) (cs : List (List ℕ))
    → visible (flatten (feed_all s cs)) ≡ visible s.buffer ++ visible (flatten cs)
unfolding feed_all flatten
feed_all-visible s [] = flush-visible s ∙ sym (append-nil (visible s.buffer))
feed_all-visible s (c ∷ cs) =
    ap visible (flatten-append (feed s c).1 (feed_all (feed s c).0 cs))
    ∙ visible-append (flatten (feed s c).1) _
    ∙ ap (◌++◌ (visible (flatten (feed s c).1))) (feed_all-visible (feed s c).0 cs)
    ∙ sym (
        append_assoc (visible (flatten (feed s c).1)) (visible (feed s c).0.buffer)
          (visible (flatten cs)))
    ∙ ap (λ v. v ++ visible (flatten cs)) (feed-visible s c)
    ∙ append_assoc (visible s.buffer) (visible c) (visible (flatten cs))
    ∙ ap (◌++◌ (visible s.buffer)) (sym (visible-append c (flatten cs)))

-- A whole reply: however it is cut into chunks, the sentences of a new splitter, the flushed rest
-- included, spell the reply up to white space.
pub reply-visible :
    (cs : List (List ℕ))
    → visible (flatten (feed_all new_sentence_splitter cs)) ≡ visible (flatten cs)
unfolding new_sentence_splitter
reply-visible cs = feed_all-visible new_sentence_splitter cs
