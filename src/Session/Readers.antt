-- ===== src/Session/Readers.antt =====
-- The goroutines of internal/session/session.go that post events to the supervisor: `readLoop`, the readers of
-- a recognition's result, and the exported `Post` functions. A post fails where the session's context is
-- done and the `select` sees that: `drops` is its choice. The log is left out.
pub mod Loop
pub mod Results
mod Tests
use xiaozhi_esp32_golang_ser.Prelude.{
  ℕ, Bool, true, false, ◌||◌, Option, none, some, List, [], ◌∷◌, ◌++◌, if◌then◌else◌,
}
use xiaozhi_esp32_golang_ser.Audio.AsrQueue.{QueueError, context_canceled}
use xiaozhi_esp32_golang_ser.Session.Message.{Text, ClientMessage}
use xiaozhi_esp32_golang_ser.Session.Message.Parse.{
  Decoded, ParseError, Parsed, ok, err, parse_client_message, codes,
}
use xiaozhi_esp32_golang_ser.Session.Core.{
  State, connected, Event, TimeoutReason, CloseCode, normal_closure, policy_violation,
}
use xiaozhi_esp32_golang_ser.Ai.Task.{TaskError, canceled}
use xiaozhi_esp32_golang_ser.Ai.AsrStream.Calls.{Answer, answer_waits, answers}

-- The events that come to the channel, oldest first, and whether the last one did.
unfoldable pub post_event : Bool → Event → List Event × Bool
post_event drops e = if drops then ([], false) else (e ∷ [], true)

unfoldable pub post_client_text : Bool → Option ClientMessage → List Event × Bool
unfolding post_event
post_client_text drops none = ([], false)
post_client_text drops (some m) = post_event drops (Event.client_text (some m))

unfoldable pub post_client_audio : Bool → List ℕ → List Event × Bool
unfolding post_event
post_client_audio drops bytes = post_event drops (Event.client_audio bytes)

unfoldable pub post_asr_final : Bool → ℕ → Text → List Event × Bool
unfolding post_event
post_asr_final drops gen text = post_event drops (Event.asr_final gen text)

unfoldable pub post_tts_started : Bool → ℕ → List Event × Bool
unfolding post_event
post_tts_started drops gen = post_event drops (Event.tts_started gen)

-- The texts of the turn are optional.
unfoldable pub post_turn_finished : Bool → ℕ → List Text → List Event × Bool
unfolding post_event
post_turn_finished drops gen [] = post_event drops (Event.turn_finished gen [] [])
post_turn_finished drops gen (user ∷ []) = post_event drops (Event.turn_finished gen user [])
post_turn_finished drops gen (user ∷ assistant ∷ rest) =
    post_event drops (Event.turn_finished gen user assistant)

unfoldable pub post_abort : Bool → Text → List Event × Bool
unfolding post_event
post_abort drops reason = post_event drops (Event.aborts reason)

unfoldable pub post_error : Bool → ℕ → Option Text → Bool → List Event × Bool
unfolding post_event
post_error drops gen e fatal = post_event drops (Event.error gen e fatal none)

unfoldable pub post_timeout : Bool → ℕ → TimeoutReason → List Event × Bool
unfolding post_event
post_timeout drops gen reason = post_event drops (Event.timeout gen reason)

unfoldable pub post_close : Bool → Option CloseCode → Text → List Event × Bool
unfolding post_event
post_close drops code reason = post_event drops (Event.close_request code reason)

pub data Incoming : Type 0 where
  binary text : List ℕ → Incoming

-- A round of `readLoop`: whether the context is done at its start, what the connection gave, an error being
-- `none`, the state of the session then, and whether the post is dropped.
pub record Round : Type 0 where
  pub ctx_done : Bool
  pub message : Option Incoming
  pub seen : State
  pub drops : Bool

module _ (unmarshal : List ℕ → Decoded) (text_of : ParseError → Text) where
  -- What a message is posted as, and whether the loop goes on. A message that is read before the hello was
  -- accepted counts as a hello.
  unfoldable pub text_event : List ℕ → Event × Bool
  text_event bytes = elim (parse_client_message unmarshal bytes) [
    | ok m ↦ (Event.client_text (some m), true)
    | err e ↦ (Event.error 0 (some (text_of e)) true (some policy_violation), false)
  ]

  unfoldable pub message_event : State → Incoming → Event × Bool
  unfolding text_event
  message_event connected (binary bytes) = (Event.client_hello none, true)
  message_event connected (text bytes) = (Event.client_hello (some bytes), true)
  message_event s (binary bytes) = (Event.client_audio bytes, true)
  message_event s (text bytes) = text_event bytes

  unfoldable pub posts : Round → Incoming → List Event
  unfolding message_event post_event
  posts r m = (post_event r.drops (message_event r.seen m).0).0

  unfoldable pub read_rounds : List Round → List Event
  unfolding posts message_event
  read_rounds [] = []
  read_rounds (r ∷ rounds) =
      let rest = read_rounds rounds in
      if r.ctx_done then [] else elim r.message [
        | none ↦ []
        | some m ↦ if (message_event r.seen m).1 then posts r m ++ rest else posts r m
      ]

  -- The loop posts the end of the connection at last.
  unfoldable pub read_loop : List Round → Bool → List Event
  unfolding read_rounds post_event
  read_loop rounds drops =
      read_rounds rounds
      ++ (post_event drops
          (Event.close_request (some normal_closure) (codes "client disconnected"))).0

-- The end of a recognition: `ctx_done` is `ctx.Err() != nil` where the code asks.
unfoldable pub report_result : (TaskError → Text) → Bool → ℕ → Answer → List Event
report_result error_text ctx_done gen answer_waits = []
report_result error_text ctx_done gen (answers words none) = Event.asr_final gen words ∷ []
report_result error_text ctx_done gen (answers words (some canceled)) = []
report_result error_text ctx_done gen (answers words (some e)) =
    if ctx_done then [] else Event.error gen (some (error_text e)) true none ∷ []

unfoldable pub read_asr_result_auto : (TaskError → Text) → Bool → ℕ → Answer → List Event
unfolding report_result
read_asr_result_auto error_text ctx_done gen answer = report_result error_text ctx_done gen answer

-- What ends the wait for the audio queue: the context, or the queue, with its error.
pub data QueueEnd : Type 0 where
  ctx_ends : QueueEnd
  queue_done : Option QueueError → QueueEnd

-- The reader of a manual turn waits for the queue, where there is one, before the result.
unfoldable pub read_asr_result_manual :
    (TaskError → Text) → (QueueError → Text) → Option QueueEnd → Bool → ℕ → Answer → List Event
unfolding report_result
read_asr_result_manual error_text queue_text none ctx_done gen answer =
    report_result error_text ctx_done gen answer
read_asr_result_manual error_text queue_text (some ctx_ends) ctx_done gen answer = []
read_asr_result_manual error_text queue_text (some (queue_done none)) ctx_done gen answer =
    report_result error_text ctx_done gen answer
read_asr_result_manual error_text queue_text (some (queue_done (some context_canceled))) ctx_done
      gen answer =
    report_result error_text ctx_done gen answer
read_asr_result_manual error_text queue_text (some (queue_done (some e))) ctx_done gen answer =
    if ctx_done then [] else Event.error gen (some (queue_text e)) true none ∷ []
