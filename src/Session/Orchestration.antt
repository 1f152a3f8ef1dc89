-- ===== src/Session/Orchestration.antt =====
-- `orchestrateLLMAndTTS` of internal/session/orchestration.go, the goroutine that answers a turn: it streams
-- the reply of the language model, cuts it into sentences and has them spoken. What the streams, the writer
-- and the tools answer is its input, `World`; what it does outside itself is its log, newest first. The
-- turn may end at any moment under it: `ctx_left` and `turn_left` count the checks of the context and of
-- the session's generation that still find it going, without limit for `none`. The session has a
-- writer.
pub mod Pipeline
pub mod Outputs
pub mod Order
pub mod Spoken
pub mod Reply
pub mod Success
pub mod Pcm
mod Tests
use xiaozhi_esp32_golang_ser.Prelude.{
  ℕ, zero, suc, Bool, true, false, ◌||◌, Option, none, some, List, [], ◌∷◌, ◌++◌, map,
  if◌then◌else◌,
}
use xiaozhi_esp32_golang_ser.Session.Message.{Text, encode_tts_sentence_start_message}
use xiaozhi_esp32_golang_ser.Session.Splitter.{SentenceSplitter, feed}
use xiaozhi_esp32_golang_ser.Session.Mcp.{CallResult}
use xiaozhi_esp32_golang_ser.Session.History.{ChatMessage}

-- An error is the context's, or another.
pub data Failure : Type 0 where
  canceled generation_mismatch not_encoded clients_missing : Failure
  failed : ℕ → Failure

pub record ToolCall : Type 0 where
  pub id : Text
  pub name : Text
  pub arguments : Text

-- A message for the model: of the conversation, the assistant's tool calls, or a tool's result.
pub data Prompt : Type 0 where
  chat : ChatMessage → Prompt
  calls : Text → List ToolCall → Prompt
  tool_result : Text → Text → Prompt

-- `writes_start` is the message tts.sentence_start, `speaks` a sentence for the TTS stream, `reports` a fatal
-- error event.
pub data Output : Type 0 where
  opens_tts starts_pacer finishes_tts stops_pacer closes_llm : Output
  opens_llm : List Prompt → Bool → Output
  writes_start speaks : Text → Output
  calls_tool : ToolCall → Output
  reports : Failure → Output
  finishes_input : Text → Text → Output

-- What `Recv` gives; the end of the list is io.EOF.
pub data Received : Type 0 where
  chunk : Text → Received
  read_failed : Failure → Received

-- The last of it: what `pcmDone` gives, or the context ends first.
pub data PcmDone : Type 0 where
  pcm_ok pcm_failed pcm_canceled : PcmDone

pub record World : Type 0 where
  pub has_llm : Bool
  pub has_tts : Bool
  pub session_id : Text
  pub user_text : Text
  pub messages : List ChatMessage
  pub tts_created : Option Failure
  pub llm_created : Option Failure
  pub replies : List Received
  pub tool_calls : List ToolCall
  pub allowed_tools : List Text
  pub tool_answer : List Output → ToolCall → Option CallResult
  pub tool_error : List Output → ToolCall → Text
  pub quoted : Text → Text
  pub llm_created_again : Option Failure
  pub replies_again : List Received
  pub text_sent : List Output → Option Failure
  pub sentence_sent : List Output → Option Failure
  pub tts_finished : Option Failure
  pub pcm_done : PcmDone

pub record Task : Type 0 where
  pub ctx_left : Option ℕ
  pub turn_left : Option ℕ
  pub splitter : SentenceSplitter
  pub assistant_text : Text
  pub log : List Output

unfoldable pub count_down : Option ℕ → Option ℕ
count_down none = none
count_down (some zero) = some zero
count_down (some (suc n)) = some n

unfoldable pub is_spent : Option ℕ → Bool
is_spent none = false
is_spent (some zero) = true
is_spent (some (suc n)) = false

-- `ctx.Err() != nil`, `s.Generation() > gen`, and either; the checks are counted by `seen_…`.
abbrev pub ctx_over : Task → Bool
ctx_over t = is_spent t.ctx_left

abbrev pub turn_over : Task → Bool
turn_over t = is_spent t.turn_left

abbrev pub is_over : Task → Bool
is_over t = ctx_over t || turn_over t

abbrev pub seen_ctx : Task → Task
seen_ctx t = record t { ctx_left = count_down t.ctx_left }

abbrev pub seen_turn : Task → Task
seen_turn t = record t { turn_left = count_down t.turn_left }

abbrev pub seen : Task → Task
seen t = record t { ctx_left = count_down t.ctx_left; turn_left = count_down t.turn_left }

abbrev pub note : Output → Task → Task
note o t = record t { log = o ∷ t.log }

-- An error of a call, unless the context was cancelled or the turn is over.
unfoldable pub give_up : Failure → Task → Task
give_up canceled t = t
give_up f t = if is_over t then seen t else note (reports f) (seen t)

-- The same where only the context is looked at.
unfoldable pub give_up_ctx : Failure → Task → Task
give_up_ctx canceled t = t
give_up_ctx f t = if ctx_over t then seen_ctx t else note (reports f) (seen_ctx t)

module _ (w : World) where
  unfoldable pub speak : Text → Task × Option Failure → Task × Option Failure
  speak sentence (t, some f) = (t, some f)
  speak sentence (t, none) = elim (w.sentence_sent t.log) [
    | some f ↦ (t, some f)
    | none ↦ (note (speaks sentence) t, none)
  ]

  unfoldable pub write_start : Text → Task → Task × Option Failure
  write_start sentence t = elim (encode_tts_sentence_start_message w.session_id sentence) [
    | none ↦ (t, some not_encoded)
    | some m ↦ elim (w.text_sent t.log) [
      | some f ↦ (t, some f)
      | none ↦ (note (writes_start sentence) t, none)
    ]
  ]

  -- First the text, then the sentence for the TTS stream.
  unfoldable pub send_sentence : Text → Task → Task × Option Failure
  unfolding speak write_start
  send_sentence sentence t =
      if ctx_over t
      then (seen_ctx t, some canceled)
      else if turn_over t
      then (seen t, some generation_mismatch)
      else speak sentence (write_start sentence (seen t))

  -- The sentences one after the other; whether all went out.
  unfoldable pub deliver : List Text → Task → Task × Bool
  unfolding send_sentence give_up
  deliver [] t = (t, true)
  deliver (sentence ∷ rest) t = elim ((send_sentence sentence t).1) [
    | some f ↦ (give_up f (send_sentence sentence t).0, false)
    | none ↦ deliver rest (send_sentence sentence t).0
  ]

  -- A chunk joins the answer, and the splitter cuts off its sentences.
  unfoldable pub take_chunk : Text → Task → Task × Bool
  unfolding deliver
  take_chunk [] t = (t, true)
  take_chunk (r ∷ text) t =
      let fed = feed t.splitter (r ∷ text) in
      deliver fed.1 (record t { assistant_text = t.assistant_text ++ (r ∷ text); splitter = fed.0 })

  -- The loop over `Recv`; whether it got to the end of the stream.
  unfoldable pub consume : List Received → Task → Task × Bool
  unfolding take_chunk give_up
  consume [] t = (t, true)
  consume (read_failed f ∷ rest) t = (give_up f t, false)
  consume (chunk text ∷ rest) t = elim (is_over t) [
    | true ↦ (seen t, false)
    | false ↦ elim ((take_chunk text (seen t)).1) [
      | false ↦ ((take_chunk text (seen t)).0, false)
      | true ↦ consume rest (take_chunk text (seen t)).0
    ]
  ]
