-- ===== src/Ai/LlmStream/Grouping.antt =====
-- The table of tool calls, against the fragments put together by their index.
use xiaozhi_esp32_golang_ser.Prelude.{
  ℕ, ◌≡◌, refl, sym, ap, ◌∙◌, Bool, true, false, Option, none, some, List, [], ◌∷◌, ◌++◌, arith,
  ◌==◌, if◌then◌else◌, Bool-cases, Option-cases, inl, inr,
}
use xiaozhi_esp32_golang_ser.Session.Message.{Text}
use xiaozhi_esp32_golang_ser.Session.Orchestration.{ToolCall}
use xiaozhi_esp32_golang_ser.Ai.LlmStream.{
  Fragment, Calls, empty_call, lookup, replace, or_old, merge, add_fragment,
}

-- Of fragments that are given newest first: whether there is one of the index, the newest id of one, and
-- the names and arguments of all of them, joined.
abbrev pub occurs : ℕ → List Fragment → Bool
occurs i [] = false
occurs i (f ∷ older) = if f.index == i then true else occurs i older

abbrev pub newest_id : ℕ → List Fragment → Text
newest_id i [] = []
newest_id i (f ∷ older) =
    if f.index == i
    then elim f.id [ [] ↦ newest_id i older | ◌∷◌ c cs ↦ c ∷ cs ]
    else newest_id i older

abbrev pub names : ℕ → List Fragment → Text
names i [] = []
names i (f ∷ older) = if f.index == i then names i older ++ f.name else names i older

abbrev pub all_arguments : ℕ → List Fragment → Text
all_arguments i [] = []
all_arguments i (f ∷ older) =
    if f.index == i then all_arguments i older ++ f.arguments else all_arguments i older

abbrev pub whole_call : ℕ → List Fragment → ToolCall
whole_call i seen = record {
  id = newest_id i seen;
  name = names i seen;
  arguments = all_arguments i seen;
}

-- The call that the fragments of an index make.
abbrev pub called : ℕ → List Fragment → Option ToolCall
called i seen = if occurs i seen then some (whole_call i seen) else none

whole_call_unseen :
    (i : ℕ) (seen : List Fragment) → occurs i seen ≡ false → whole_call i seen ≡ empty_call
whole_call_unseen i [] h = refl
whole_call_unseen i (f ∷ older) h = ground (arith, whole_call_unseen i older)

merge_whole :
    (f : Fragment) (older : List Fragment)
    → merge f (whole_call f.index older) ≡ whole_call f.index (f ∷ older)
unfolding merge or_old
merge_whole f older = ground arith

-- The indices, in the order in which they first came.
abbrev pub firsts : List Fragment → List ℕ
firsts [] = []
firsts (f ∷ older) = elim (called f.index older) [
  | none ↦ firsts older ++ f.index ∷ []
  | some call ↦ firsts older
]

abbrev pub calls_of : List ℕ → List Fragment → List ToolCall
calls_of [] seen = []
calls_of (i ∷ is) seen = elim (called i seen) [
  | some call ↦ call ∷ calls_of is seen
  | none ↦ calls_of is seen
]

-- The table and the order agree with the fragments.
pub record Holds (seen : List Fragment) (c : Calls) : Type 0 where
  pub table : (i : ℕ) → lookup i c.by_index ≡ called i seen
  pub order : c.indices ≡ firsts seen

lookup-replace :
    (i j : ℕ) (call old : ToolCall) (table : List (ℕ × ToolCall))
    → lookup j table ≡ some old
    → lookup i (replace j call table) ≡ (if j == i then some call else lookup i table)
unfolding lookup replace
lookup-replace i j call old [] h = ground arith
lookup-replace i j call old ((k, c) ∷ table) h = ground (arith, lookup-replace i j call old table)

called_at :
    (i : ℕ) (f : Fragment) (seen : List Fragment)
    → called i (f ∷ seen)
      ≡ (if f.index == i then some (merge f (whole_call f.index seen)) else called i seen)
called_at i f seen = elim (Bool-cases (f.index == i)) [
  | inl e ↦ ground (arith, merge_whole f seen)
  | inr e ↦ ground arith
]

pub add_fragment-Holds :
    (f : Fragment) (seen : List Fragment) (c : Calls)
    → Holds seen c
    → Holds (f ∷ seen) (add_fragment f c)
unfolding add_fragment lookup
add_fragment-Holds f seen c v = elim (Option-cases (lookup f.index c.by_index)) [
  | inl e ↦
      let unseen : whole_call f.index seen ≡ empty_call =
        whole_call_unseen f.index seen (ground (arith, v.table f.index)) in
      record {
        table = λ i. ground (arith, v.table i, called_at i f seen, unseen);
        order = ground (arith, v.order, v.table f.index);
      }
  | inr (call, e) ↦
      let same : call ≡ whole_call f.index seen = ground (arith, v.table f.index) in
      let added : (add_fragment f c).by_index ≡ replace f.index (merge f call) c.by_index =
        ground arith in
      record {
        table = λ i.
            ap (lookup i) added
            ∙ lookup-replace i f.index (merge f call) call c.by_index e
            ∙ ap (λ o. if f.index == i then some (merge f call) else o) (v.table i)
            ∙ ap (λ x. if f.index == i then some (merge f x) else called i seen) same
            ∙ sym (called_at i f seen);
        order = ground (arith, v.order, v.table f.index);
      }
]
