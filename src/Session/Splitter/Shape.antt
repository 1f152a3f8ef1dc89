-- ===== src/Session/Splitter/Shape.antt =====
-- The shape of a sentence that `split` gives.
use xiaozhi_esp32_golang_ser.Prelude.{
  ℕ, zero, suc, ◌+◌, ◌<◌, ◌≡◌, ◌≢◌, refl, subst, ◌⊎◌, Bool, true, false, some, List, [], ◌∷◌, take,
  drop, All, arith, Bool-cases, Option-cases, inl, inr,
}
use xiaozhi_esp32_golang_ser.Session.Splitter.{
  is_space, drop_spaces, trim_right, trim_space, trailing_run, scan, find_end, add_sentence,
  split_loop, max_sentence_runes, is_empty, is_trailing_punctuation, content_after,
}

abbrev pub IsTrailing : ℕ → Type 0
IsTrailing r = is_trailing_punctuation r ≡ true

-- A sentence has text, no white space at its ends, and past thirty runes only punctuation.
pub record IsSentence (s : List ℕ) : Type 0 where
  pub text : s ≢ []
  pub front : drop_spaces s ≡ s
  pub back : trim_right s ≡ s
  pub limited : All IsTrailing (drop max_sentence_runes s)

trim_right-trim_right : (rs : List ℕ) → trim_right (trim_right rs) ≡ trim_right rs
unfolding trim_right is_empty
trim_right-trim_right [] = refl
trim_right-trim_right (r ∷ rs) = ground (arith, trim_right-trim_right rs)

drop_spaces-trim_right :
    (rs : List ℕ) → drop_spaces (trim_right (drop_spaces rs)) ≡ trim_right (drop_spaces rs)
unfolding drop_spaces
drop_spaces-trim_right [] = unfold trim_right in refl
drop_spaces-trim_right (r ∷ rs) = elim (Bool-cases (is_space r)) [
  | inl e ↦ rw e (drop_spaces-trim_right rs)
  | inr e ↦ rw e (unfold trim_right in ground (arith))
]

drop_spaces-take :
    (n : ℕ) (rs : List ℕ) → drop_spaces (take n (drop_spaces rs)) ≡ take n (drop_spaces rs)
unfolding drop_spaces
drop_spaces-take zero [] = refl
drop_spaces-take (suc n) [] = refl
drop_spaces-take zero (r ∷ rs) = ground arith
drop_spaces-take (suc n) (r ∷ rs) = ground (arith, drop_spaces-take (suc n) rs)

All-trim_right : (rs : List ℕ) → All IsTrailing rs → All IsTrailing (trim_right rs)
unfolding trim_right is_empty
All-trim_right [] h = tt
All-trim_right (r ∷ rs) h = ground (arith, All-trim_right rs h.1)

limited-trim_right :
    (n : ℕ) (rs : List ℕ) → All IsTrailing (drop n rs) → All IsTrailing (drop n (trim_right rs))
unfolding trim_right is_empty
limited-trim_right zero rs h = All-trim_right rs h
limited-trim_right (suc n) [] h = tt
limited-trim_right (suc n) (r ∷ rs) h = ground (arith, limited-trim_right n rs h)

All-drop : (n : ℕ) (rs : List ℕ) → All IsTrailing rs → All IsTrailing (drop n rs)
All-drop zero rs h = h
All-drop (suc n) [] h = tt
All-drop (suc n) (r ∷ rs) h = All-drop n rs h.1

All-trailing_run : (rs : List ℕ) → All IsTrailing (take (trailing_run rs) rs)
unfolding trailing_run
All-trailing_run [] = tt
All-trailing_run (r ∷ rs) = ground (arith, All-trailing_run rs)

drop-nil : (n : ℕ) → All IsTrailing (drop n [])
drop-nil zero = tt
drop-nil (suc n) = tt

drop-take : (n : ℕ) (rs : List ℕ) → All IsTrailing (drop n (take n rs))
drop-take zero rs = tt
drop-take (suc n) [] = tt
drop-take (suc n) (r ∷ rs) = drop-take n rs

-- `k` runes on, the scan's end is reached; those past the limit, `j` runes away, are punctuation.
abbrev EndsIn : ℕ → ℕ → List ℕ → ℕ → Type 0
EndsIn j i rest n = (k : ℕ) × (n ≡ i + k) × All IsTrailing (drop j (take k rest))

-- Below the limit the scan ends behind a run of punctuation, or goes on.
scan_cases :
    (buffer : List ℕ) (i : ℕ) (c : Bool) (r : ℕ) (rest : List ℕ) (n : ℕ)
    → i < max_sentence_runes
    → scan buffer i c (r ∷ rest) ≡ some n
    → (n ≡ i + 1 + trailing_run rest) ⊎ (scan buffer (i + 1) (content_after c r) rest ≡ some n)
unfolding scan
scan_cases buffer i c r rest n below h = ground arith

scan-EndsIn :
    (buffer : List ℕ) (j i : ℕ) (has_content : Bool) (rest : List ℕ) (n : ℕ)
    → i + j ≡ max_sentence_runes
    → scan buffer i has_content rest ≡ some n
    → EndsIn j i rest n
scan-EndsIn buffer j i c [] n at h = absurd (unfold scan in (cc))
scan-EndsIn buffer zero i c (r ∷ rest) n at h = (0, unfold scan in (ground arith), tt)
scan-EndsIn buffer (suc j) i c (r ∷ rest) n at h =
    elim (scan_cases buffer i c r rest n (omega arith) h) [
      | inl e ↦ (
        suc (trailing_run rest),
        omega arith,
        All-drop j (take (trailing_run rest) rest) (All-trailing_run rest),
      )
      | inr e ↦
          let (k, far, marks) =
            scan-EndsIn buffer j (i + 1) (content_after c r) rest n (omega arith) e in
          (suc k, omega arith, marks)
    ]

-- A cut that reaches past the limit takes only punctuation from there on.
find_end_limited :
    (buffer : List ℕ) (n : ℕ)
    → find_end buffer ≡ some n
    → All IsTrailing (drop max_sentence_runes (take n buffer))
find_end_limited buffer n h = elim (Option-cases (scan buffer 0 false buffer)) [
  | inl e ↦
      let same : n ≡ max_sentence_runes = (unfold find_end in ground arith) in
      rw same (drop-take max_sentence_runes buffer)
  | inr (m, e) ↦
      let (k, far, marks) = scan-EndsIn buffer max_sentence_runes 0 false buffer m refl e in
      let same : n ≡ k = (unfold find_end in ground arith) in rw same marks
]

-- What is cut from the front of a buffer without white space there.
cut-IsSentence :
    (buffer : List ℕ) (n : ℕ) (r : ℕ) (rs : List ℕ)
    → find_end (drop_spaces buffer) ≡ some n
    → trim_space (take n (drop_spaces buffer)) ≡ r ∷ rs
    → IsSentence (r ∷ rs)
unfolding trim_space
cut-IsSentence buffer n r rs h e = record {
  text = λ p. cc;
  front = rw (← e) (drop_spaces-trim_right (take n (drop_spaces buffer)));
  back = rw (← e) (trim_right-trim_right (drop_spaces (take n (drop_spaces buffer))));
  limited =
      subst (λ s. All IsTrailing (drop max_sentence_runes s)) e
        (limited-trim_right max_sentence_runes _
          (rw (drop_spaces-take n buffer) (find_end_limited (drop_spaces buffer) n h)));
}

add_sentence-All :
    (s : List ℕ) (ss : List (List ℕ))
    → ((r : ℕ) (rs : List ℕ) → s ≡ r ∷ rs → IsSentence (r ∷ rs))
    → All IsSentence ss
    → All IsSentence (add_sentence s ss)
unfolding add_sentence
add_sentence-All [] ss h k = k
add_sentence-All (r ∷ rs) ss h k = (h r rs refl, k)

pub split_loop-IsSentence : (fuel : ℕ) (buffer : List ℕ) → All IsSentence (split_loop fuel buffer).0
unfolding split_loop
split_loop-IsSentence zero buffer = tt
split_loop-IsSentence (suc fuel) buffer = elim (Option-cases (find_end (drop_spaces buffer))) [
  | inl e ↦ rw (e, split_loop) tt
  | inr (n, e) ↦
      rw (e, split_loop)
        (add_sentence-All (trim_space (take n (drop_spaces buffer))) _
          (λ r rs p. cut-IsSentence buffer n r rs e p)
          (split_loop-IsSentence fuel (drop n (drop_spaces buffer))))
]
