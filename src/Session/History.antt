-- ===== src/Session/History.antt =====
-- The conversation history of a session and the messages for the language model, from
-- internal/session/orchestration.go. A message of the history has a role and a content.
use xiaozhi_esp32_golang_ser.Prelude.{
  ℕ, zero, suc, ◌-◌, ◌*◌, ◌≤◌, ◌≡◌, refl, List, [], ◌∷◌, ◌++◌, length, drop, ltb, ◌==◌,
  if◌then◌else◌, arith, length-drop, Bool-cases, inl, inr, ltb→lt, ◌≢◌,
}
use xiaozhi_esp32_golang_ser.Session.Message.{Text}

pub data Role : Type 0 where
  system user assistant : Role

pub record ChatMessage : Type 0 where
  pub role : Role
  pub content : Text

abbrev pub default_max_history_turns : ℕ
default_max_history_turns = 6

-- A setting that is not positive, 0 here, is replaced by its default.
abbrev pub or_default : ℕ → ℕ → ℕ
or_default setting default = if setting == 0 then default else setting

abbrev turn : Text → Text → List ChatMessage
turn user_text assistant_text =
    record { role = user; content = user_text }
    ∷ record { role = assistant; content = assistant_text }
    ∷ []

trim_history : ℕ → List ChatMessage → List ChatMessage
trim_history max_messages history =
    if ltb max_messages (length history)
    then drop (length history - max_messages) history
    else history

-- `AppendHistory`, with the setting `MaxHistoryTurns`.
unfoldable pub append_history : ℕ → List ChatMessage → Text → Text → List ChatMessage
unfolding trim_history
append_history max_turns history [] assistant_text = history
append_history max_turns history (u ∷ user_text) [] = history
append_history max_turns history (u ∷ user_text) (a ∷ assistant_text) =
    trim_history (or_default max_turns default_max_history_turns * 2)
      (history ++ turn (u ∷ user_text) (a ∷ assistant_text))

system_message : Text → List ChatMessage
system_message [] = []
system_message (c ∷ prompt) = record { role = system; content = c ∷ prompt } ∷ []

-- `buildLLMMessages`, with the setting `SystemPrompt`.
unfoldable pub build_llm_messages : Text → List ChatMessage → Text → List ChatMessage
unfolding system_message
build_llm_messages prompt history user_text =
    system_message prompt ++ (history ++ record { role = user; content = user_text } ∷ [])

-- A history is made of whole turns, each a question and its answer, both not empty.
pub data IsTurns : List ChatMessage → Type 0 where
  no_turns : IsTurns []
  more_turns :
      (u : ℕ) (us : Text) (a : ℕ) (ans : Text) {rest : List ChatMessage}
      → IsTurns rest
      → IsTurns (
          record { role = user; content = u ∷ us }
          ∷ record { role = assistant; content = a ∷ ans }
          ∷ rest)

IsTurns-drop_turn :
    (m n : ChatMessage) {rest : List ChatMessage} → IsTurns (m ∷ n ∷ rest) → IsTurns rest
IsTurns-drop_turn m n (more_turns u us a ans h) = h

not-IsTurns-single : (m : ChatMessage) → ¬ IsTurns (m ∷ [])
not-IsTurns-single m h = absurd (omega (arith, go h))
  where
    go : {l : List ChatMessage} → IsTurns l → length l ≢ 1
    go no_turns = λ e. absurd (omega arith)
    go (more_turns u us a ans h) = λ e. absurd (omega arith)

IsTurns-turn :
    (history : List ChatMessage) (u : ℕ) (us : Text) (a : ℕ) (ans : Text)
    → IsTurns history
    → IsTurns (history ++ turn (u ∷ us) (a ∷ ans))
IsTurns-turn history u us a ans no_turns = more_turns u us a ans no_turns
IsTurns-turn history u us a ans (more_turns v vs b bs {rest = rest} h) =
    more_turns v vs b bs (IsTurns-turn rest u us a ans h)

-- Dropping whole turns leaves whole turns.
IsTurns-drop :
    (k : ℕ) (history : List ChatMessage) → IsTurns history → IsTurns (drop (k * 2) history)
IsTurns-drop zero history h = h
IsTurns-drop (suc k) [] h = let e : suc k * 2 ≡ suc (suc (k * 2)) = omega arith in rw e no_turns
IsTurns-drop (suc k) (m ∷ []) h = absurd (not-IsTurns-single m h)
IsTurns-drop (suc k) (m ∷ n ∷ rest) h =
    let e : suc k * 2 ≡ suc (suc (k * 2)) = omega arith in
    rw e (IsTurns-drop k rest (IsTurns-drop_turn m n h))

length-IsTurns : {history : List ChatMessage} → IsTurns history → (k : ℕ) × (length history ≡ k * 2)
length-IsTurns no_turns = (0, refl)
length-IsTurns (more_turns u us a ans h) = let (k, e) = length-IsTurns h in (suc k, omega arith)

trim_lem :
    (turns : ℕ) (history : List ChatMessage)
    → IsTurns history
    → IsTurns (trim_history (turns * 2) history)
      × (length (trim_history (turns * 2) history) ≤ turns * 2)
      × ((dropped : ℕ) × (trim_history (turns * 2) history ≡ drop (dropped * 2) history))
unfolding trim_history
trim_lem turns history h = elim (Bool-cases (ltb (turns * 2) (length history))) [
  | inl e ↦
      let (k, even) = length-IsTurns h in
      let cut : length history - turns * 2 ≡ (k - turns) * 2 = omega arith in
      rw e (
        rw cut (
          IsTurns-drop (k - turns) history h,
          omega (arith, length-drop ((k - turns) * 2) history, ltb→lt _ _ e),
          (k - turns, refl),
        ))
  | inr e ↦ rw e (h, ground arith, (0, refl))
]

-- A turn with both texts joins the end of the history. Whole turns at the front, and only those, are then
-- dropped, so that no more than the configured number of turns is left.
pub append_history_lem :
    (max_turns : ℕ) (history : List ChatMessage) (u : ℕ) (us : Text) (a : ℕ) (ans : Text)
    → IsTurns history
    → let kept = append_history max_turns history (u ∷ us) (a ∷ ans) in
      IsTurns kept
      × (length kept ≤ or_default max_turns default_max_history_turns * 2)
      × ((dropped : ℕ) × (kept ≡ drop (dropped * 2) (history ++ turn (u ∷ us) (a ∷ ans))))
unfolding append_history
append_history_lem max_turns history u us a ans h =
    let whole = IsTurns-turn history u us a ans h in
    trim_lem (or_default max_turns default_max_history_turns) _ whole
