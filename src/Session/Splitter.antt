-- ===== src/Session/Splitter.antt =====
-- `SentenceSplitter` of internal/session/splitter.go. A rune is its code point, and a chunk of text the
-- list of its runes.
pub mod Loop
pub mod Shape
pub mod Laws
use xiaozhi_esp32_golang_ser.Prelude.{
  ℕ, zero, suc, ◌+◌, ◌-◌, Bool, true, false, not, ◌&&◌, ◌||◌, Option, none, some, List, [], ◌∷◌,
  ◌++◌, length, take, drop, ltb, leb, ◌==◌, if◌then◌else◌, get_elem?,
}

abbrev pub max_sentence_runes : ℕ
max_sentence_runes = 30

pub record SentenceSplitter : Type 0 where
  pub buffer : List ℕ

unfoldable pub new_sentence_splitter : SentenceSplitter
new_sentence_splitter = record { buffer = [] }

unfoldable pub one_of : List ℕ → ℕ → Bool
one_of [] r = false
one_of (x ∷ xs) r = r == x || one_of xs r

-- `unicode.IsSpace`: the runes of Latin-1, and those above it with the property White_Space.
unfoldable pub is_space : ℕ → Bool
unfolding one_of
is_space r =
    one_of (0x9 ∷ 0xa ∷ 0xb ∷ 0xc ∷ 0xd ∷ 0x20 ∷ 0x85 ∷ 0xa0 ∷ 0x1680 ∷ []) r
    || leb 0x2000 r && leb r 0x200a
    || one_of (0x2028 ∷ 0x2029 ∷ 0x202f ∷ 0x205f ∷ 0x3000 ∷ []) r

abbrev sentence_punctuation : List ℕ
sentence_punctuation =
    0x3002 ∷ 0xff01 ∷ 0xff1f ∷ 0xff1b ∷ 0xff0c ∷ 0x3001 ∷ 0xff1a ∷ 0x21 ∷ 0x3f ∷ 0x3b ∷ 0x2c ∷ 0x3a
    ∷ 0xa ∷ 0xd ∷ 0x2026 ∷ 0x2014 ∷ 0xff5e ∷ 0x7e ∷ 0x2e ∷ []

abbrev closing_punctuation : List ℕ
closing_punctuation =
    0x22 ∷ 0x27 ∷ 0x201d ∷ 0x2019 ∷ 0xff09 ∷ 0x29 ∷ 0x300d ∷ 0x300f ∷ 0x5d ∷ 0x7d ∷ 0x3e ∷ 0x300b
    ∷ []

pub is_sentence_punctuation : ℕ → Bool
unfolding one_of
is_sentence_punctuation r = one_of sentence_punctuation r

pub is_trailing_punctuation : ℕ → Bool
unfolding one_of is_sentence_punctuation
is_trailing_punctuation r = is_sentence_punctuation r || one_of closing_punctuation r

-- A digit stands at `idx`; false past the end.
digit_at : List ℕ → ℕ → Bool
digit_at buffer idx = elim (get_elem? buffer idx) [
  | none ↦ false
  | some r ↦ leb 0x30 r && leb r 0x39
]

rune_at : List ℕ → ℕ → ℕ → Bool
rune_at buffer idx c = elim (get_elem? buffer idx) [ none ↦ false | some r ↦ r == c ]

pub is_period_decimal_point : List ℕ → ℕ → Bool
unfolding digit_at rune_at
is_period_decimal_point buffer idx =
    if not (rune_at buffer idx 0x2e)
    then false
    else if idx == 0 || not (digit_at buffer (idx - 1))
    then false
    else if ltb (idx + 1) (length buffer) && digit_at buffer (idx + 1)
    then true
    else idx + 1 == length buffer && ltb (length buffer) max_sentence_runes

-- The loop that skips white space at the front.
unfoldable pub drop_spaces : List ℕ → List ℕ
drop_spaces [] = []
drop_spaces (r ∷ rs) = let rest = drop_spaces rs in if is_space r then rest else r ∷ rs

unfoldable pub is_empty : List ℕ → Bool
is_empty [] = true
is_empty (r ∷ rs) = false

unfoldable pub trim_right : List ℕ → List ℕ
unfolding is_empty
trim_right [] = []
trim_right (r ∷ rs) =
    let rest = trim_right rs in if is_space r && is_empty rest then [] else r ∷ rest

-- `strings.TrimSpace`.
unfoldable pub trim_space : List ℕ → List ℕ
trim_space rs = trim_right (drop_spaces rs)

-- The loop that takes in the punctuation behind the end of a sentence: how many runes it takes.
pub trailing_run : List ℕ → ℕ
trailing_run [] = 0
trailing_run (r ∷ rs) =
    let rest = trailing_run rs in if is_trailing_punctuation r then suc rest else 0

-- `hasContent` behind rune `r`.
pub content_after : Bool → ℕ → Bool
content_after has_content r =
    has_content || not (is_sentence_punctuation r) && not (is_trailing_punctuation r)

-- The scan for the end of a sentence, at index `i` with the runes from there on; `none` for -1.
pub scan : List ℕ → ℕ → Bool → List ℕ → Option ℕ
scan buffer i has_content [] = none
scan buffer i has_content (r ∷ rest) =
    let content = content_after has_content r in
    let next = scan buffer (i + 1) content rest in
    if leb max_sentence_runes i
    then some max_sentence_runes
    else if content && is_sentence_punctuation r
    then (if is_period_decimal_point buffer i then next else some (i + 1 + trailing_run rest))
    else next

-- Where to cut: the scan's answer, or the length limit; `none` where the loop breaks off.
pub find_end : List ℕ → Option ℕ
find_end buffer = elim (scan buffer 0 false buffer) [
  | some split_end ↦ some split_end
  | none ↦ if leb max_sentence_runes (length buffer) then some max_sentence_runes else none
]

pub add_sentence : List ℕ → List (List ℕ) → List (List ℕ)
add_sentence [] sentences = sentences
add_sentence (r ∷ rs) sentences = (r ∷ rs) ∷ sentences

-- The loop of `split`, on fuel: the sentences, and the buffer that is left.
pub split_loop : ℕ → List ℕ → List (List ℕ) × List ℕ
unfolding add_sentence
split_loop zero buffer = ([], buffer)
split_loop (suc fuel) buffer =
    let b = drop_spaces buffer in
    elim (find_end b) [
      | none ↦ ([], b)
      | some split_end ↦
          let more = split_loop fuel (drop split_end b) in
          (add_sentence (trim_space (take split_end b)) more.0, more.1)
    ]

-- Each round takes a rune at least, so the runes buffered bound the rounds.
pub split : List ℕ → List (List ℕ) × List ℕ
split buffer = split_loop (suc (length buffer)) buffer

unfoldable pub feed : SentenceSplitter → List ℕ → SentenceSplitter × List (List ℕ)
feed s [] = (s, [])
feed s (r ∷ chunk) =
    let done = split (s.buffer ++ (r ∷ chunk)) in (record { buffer = done.1 }, done.0)

unfoldable pub flush : SentenceSplitter → SentenceSplitter × List (List ℕ)
unfolding add_sentence
flush s = (record { buffer = [] }, add_sentence (trim_space s.buffer) [])
