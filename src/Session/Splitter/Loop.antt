-- ===== src/Session/Splitter/Loop.antt =====
-- The loop of `split`: it ends by its test, and keeps every rune that is not white space.
use xiaozhi_esp32_golang_ser.Prelude.{
  ℕ, zero, suc, ◌+◌, ◌≤◌, ◌<◌, ◌≡◌, ◌≢◌, refl, sym, ap, ◌∙◌, Bool, false, not, none, some, List, [],
  ◌∷◌, ◌++◌, length, take, drop, keep, keep-append, take-append-drop, length-drop, append_assoc,
  arith, flatten, Option-cases, inl, inr,
}
use xiaozhi_esp32_golang_ser.Session.Splitter.{
  is_space, drop_spaces, trim_right, trim_space, scan, find_end, add_sentence, split_loop,
  max_sentence_runes, is_empty, content_after,
}

-- The runes that are not white space.
abbrev pub visible : List ℕ → List ℕ
visible = keep (λ r. not (is_space r))

visible-drop_spaces : (rs : List ℕ) → visible (drop_spaces rs) ≡ visible rs
unfolding drop_spaces
visible-drop_spaces [] = refl
visible-drop_spaces (r ∷ rs) = ground (arith, visible-drop_spaces rs)

visible-trim_right : (rs : List ℕ) → visible (trim_right rs) ≡ visible rs
unfolding trim_right is_empty
visible-trim_right [] = refl
visible-trim_right (r ∷ rs) = ground (arith, visible-trim_right rs)

pub visible-trim_space : (rs : List ℕ) → visible (trim_space rs) ≡ visible rs
unfolding trim_space
visible-trim_space rs = visible-trim_right (drop_spaces rs) ∙ visible-drop_spaces rs

pub visible-add_sentence :
    (s : List ℕ) (ss : List (List ℕ))
    → visible (flatten (add_sentence s ss)) ≡ visible s ++ visible (flatten ss)
unfolding add_sentence flatten
visible-add_sentence [] ss = refl
visible-add_sentence (r ∷ rs) ss = keep-append (λ r. not (is_space r)) (r ∷ rs) (flatten ss)

visible_cut : (n : ℕ) (b : List ℕ) → visible (take n b) ++ visible (drop n b) ≡ visible b
visible_cut n b =
    sym (keep-append (λ r. not (is_space r)) (take n b) (drop n b))
    ∙ ap visible (take-append-drop n b)

-- One round: what is cut off goes to the sentences.
round :
    (n : ℕ) (b : List ℕ) (ss : List (List ℕ)) (left : List ℕ)
    → visible (flatten ss) ++ visible left ≡ visible (drop n b)
    → visible (flatten (add_sentence (trim_space (take n b)) ss)) ++ visible left ≡ visible b
round n b ss left h =
    ap (λ v. v ++ visible left)
      (visible-add_sentence (trim_space (take n b)) ss
        ∙ ap (λ v. v ++ visible (flatten ss)) (visible-trim_space (take n b)))
    ∙ append_assoc (visible (take n b)) (visible (flatten ss)) (visible left)
    ∙ ap (◌++◌ (visible (take n b))) h
    ∙ visible_cut n b

-- Whatever the fuel, the loop only moves text from the buffer to the sentences.
pub split_loop-visible :
    (fuel : ℕ) (buffer : List ℕ)
    → visible (flatten (split_loop fuel buffer).0) ++ visible (split_loop fuel buffer).1
      ≡ visible buffer
unfolding split_loop flatten
split_loop-visible zero buffer = refl
split_loop-visible (suc fuel) buffer = elim (Option-cases (find_end (drop_spaces buffer))) [
  | inl e ↦ rw (e, split_loop) (visible-drop_spaces buffer)
  | inr (n, e) ↦
      rw (e, split_loop)
        (round n (drop_spaces buffer) _ _ (split_loop-visible fuel (drop n (drop_spaces buffer)))
          ∙ visible-drop_spaces buffer)
]

scan_pos :
    (buffer : List ℕ) (i : ℕ) (has_content : Bool) (rest : List ℕ) (n : ℕ)
    → scan buffer i has_content rest ≡ some n
    → 0 < n
unfolding scan
scan_pos buffer i c [] n h = cc
scan_pos buffer i c (r ∷ rest) n h =
    ground (arith, scan_pos buffer (i + 1) (content_after c r) rest n)

find_end_pos : (buffer : List ℕ) (n : ℕ) → find_end buffer ≡ some n → 0 < n
unfolding find_end
find_end_pos buffer n h = ground (arith, scan_pos buffer 0 false buffer n)

find_end-nil : (n : ℕ) → find_end [] ≢ some n
unfolding find_end scan
find_end-nil n h = cc

-- A cut takes a rune at least.
length-drop-lt :
    (buffer : List ℕ) (n : ℕ) → find_end buffer ≡ some n → length (drop n buffer) < length buffer
length-drop-lt [] n h = absurd (find_end-nil n h)
length-drop-lt (r ∷ rs) n h = omega (arith, find_end_pos (r ∷ rs) n h, length-drop n (r ∷ rs))

pub length-drop_spaces : (rs : List ℕ) → length (drop_spaces rs) ≤ length rs
unfolding drop_spaces
length-drop_spaces [] = omega arith
length-drop_spaces (r ∷ rs) = ground (arith, length-drop_spaces rs)

pub drop_spaces-drop_spaces : (rs : List ℕ) → drop_spaces (drop_spaces rs) ≡ drop_spaces rs
unfolding drop_spaces
drop_spaces-drop_spaces [] = refl
drop_spaces-drop_spaces (r ∷ rs) = ground (arith, drop_spaces-drop_spaces rs)

-- No cut is left to make, and no white space at the front.
pub record IsDone (buffer : List ℕ) : Type 0 where
  pub uncut : find_end buffer ≡ none
  pub front : drop_spaces buffer ≡ buffer

pub split_loop-IsDone :
    (fuel : ℕ) (buffer : List ℕ) → length buffer < fuel → IsDone (split_loop fuel buffer).1
unfolding split_loop
split_loop-IsDone zero buffer h = elim h [ ]
split_loop-IsDone (suc fuel) buffer h = elim (Option-cases (find_end (drop_spaces buffer))) [
  | inl e ↦ rw (e, split_loop) (record { uncut = e; front = drop_spaces-drop_spaces buffer })
  | inr (n, e) ↦
      rw (e, split_loop)
        (split_loop-IsDone fuel (drop n (drop_spaces buffer))
          (omega (arith, length-drop-lt (drop_spaces buffer) n e, length-drop_spaces buffer)))
]

pub IsDone-short : {buffer : List ℕ} → IsDone buffer → length buffer < max_sentence_runes
unfolding find_end
IsDone-short d = ground (arith, d.uncut)

pub trim_space-nil : trim_space [] ≡ []
unfolding trim_space trim_right drop_spaces
trim_space-nil = refl
