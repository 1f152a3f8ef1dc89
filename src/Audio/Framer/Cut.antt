-- ===== src/Audio/Framer/Cut.antt =====
-- The loop that cuts frames: what it produces is the only way to cut a stream into whole frames.
use xiaozhi_esp32_golang_ser.Prelude.{
  ℕ, zero, suc, ◌≤◌, ◌<◌, ◌≡◌, refl, sym, ap, ◌∙◌, List, [], ◌∷◌, ◌++◌, length, take, drop, All,
  append_assoc, arith, Bool-cases, inl, inr, leb, leb→le, leb→lt, length-append, length-take,
  length-drop, take-append-drop, flatten, flatten-append, All-append,
}
use xiaozhi_esp32_golang_ser.Audio.Framer.{cut_frames}

-- `s` is cut into whole frames and a rest shorter than a frame.
pub record IsCut (size : ℕ) (s : List ℕ) (frames : List (List ℕ)) (rest : List ℕ) : Type 0 where
  pub spells : flatten frames ++ rest ≡ s
  pub whole : All (λ (f : List ℕ). length f ≡ size) frames
  pub short : length rest < size

pub cut_frames-IsCut :
    (fuel size : ℕ) (buf : List ℕ)
    → 0 < size
    → length buf < fuel
    → IsCut size buf (cut_frames fuel size buf).0 (cut_frames fuel size buf).1
unfolding cut_frames flatten
cut_frames-IsCut zero size buf p h = elim h [ ]
cut_frames-IsCut (suc fuel) size buf p h = elim (Bool-cases (leb size (length buf))) [
  | inl e ↦
      let room : size ≤ length buf = leb→le _ _ e in
      let ih = cut_frames-IsCut fuel size (drop size buf) p (omega (arith, length-drop size buf)) in
      rw e (record {
        spells =
            append_assoc (take size buf) _ _
            ∙ ap (◌++◌ (take size buf)) ih.spells
            ∙ take-append-drop size buf;
        whole = (omega (arith, length-take size buf), ih.whole);
        short = ih.short;
      })
  | inr e ↦ rw e (record { spells = refl; whole = tt; short = leb→lt _ _ e })
]

-- Lists that agree and start with parts of one length agree part by part.
append_split {ℓ} :
    {A : Type ℓ} (xs ys us vs : List A)
    → length xs ≡ length ys
    → xs ++ us ≡ ys ++ vs
    → (xs ≡ ys) × (us ≡ vs)
append_split [] [] us vs h e = (refl, e)
append_split [] (y ∷ ys) us vs h e = absurd (omega arith)
append_split (x ∷ xs) [] us vs h e = absurd (omega arith)
append_split (x ∷ xs) (y ∷ ys) us vs h e =
    let r = append_split xs ys us vs (omega arith) (cc) in (cc (r.0), r.1)

-- There is one way to cut a stream.
pub IsCut-unique :
    (size : ℕ) (s : List ℕ) (fs gs : List (List ℕ)) (r t : List ℕ)
    → IsCut size s fs r
    → IsCut size s gs t
    → (fs ≡ gs) × (r ≡ t)
unfolding flatten
IsCut-unique size s [] [] r t h k = (refl, h.spells ∙ sym k.spells)
IsCut-unique size s [] (g ∷ gs) r t h k = absurd (
    omega (
      arith,
      h.short,
      k.whole.0,
      ap length (h.spells ∙ sym k.spells ∙ append_assoc g _ _),
      length-append g (flatten gs ++ t),
    ))
IsCut-unique size s (f ∷ fs) [] r t h k = absurd (
    omega (
      arith,
      k.short,
      h.whole.0,
      ap length (k.spells ∙ sym h.spells ∙ append_assoc f _ _),
      length-append f (flatten fs ++ r),
    ))
IsCut-unique size s (f ∷ fs) (g ∷ gs) r t h k =
    let same =
      sym (append_assoc f (flatten fs) r)
      ∙ h.spells
      ∙ sym k.spells
      ∙ append_assoc g (flatten gs) t in
    let parts = append_split f g _ _ (h.whole.0 ∙ sym k.whole.0) same in
    let rest =
      IsCut-unique size (flatten gs ++ t) fs gs r t
        (record { spells = parts.1; whole = h.whole.1; short = h.short })
        (record { spells = refl; whole = k.whole.1; short = k.short }) in
    (cc (parts.0, rest.0), rest.1)

-- A cut goes on from the rest of the one before.
pub IsCut-append :
    (size : ℕ) (s u : List ℕ) (fs gs : List (List ℕ)) (r t : List ℕ)
    → IsCut size s fs r
    → IsCut size (r ++ u) gs t
    → IsCut size (s ++ u) (fs ++ gs) t
IsCut-append size s u fs gs r t h k = record {
  spells = rw (flatten-append fs gs) (
      append_assoc (flatten fs) (flatten gs) t
      ∙ ap (◌++◌ (flatten fs)) k.spells
      ∙ sym (append_assoc (flatten fs) r u)
      ∙ ap (λ v. v ++ u) h.spells);
  whole = All-append _ fs gs h.whole k.whole;
  short = k.short;
}
