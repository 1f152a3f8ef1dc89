-- ===== src/Session/Orchestration/Pipeline.antt =====
-- The rest of `orchestrateLLMAndTTS`: the tools, the second reply, and the end of the turn.
use xiaozhi_esp32_golang_ser.Prelude.{
  ℕ, Bool, true, false, ◌||◌, ◌&&◌, Option, none, some, List, [], ◌∷◌, ◌++◌, map, if◌then◌else◌,
}
use xiaozhi_esp32_golang_ser.Session.Message.{Text}
use xiaozhi_esp32_golang_ser.Session.Message.Parse.{codes}
use xiaozhi_esp32_golang_ser.Session.Mcp.{is_mcp_tool_allowed, call_mcp_tool}
use xiaozhi_esp32_golang_ser.Session.Splitter.{new_sentence_splitter, flush}
use xiaozhi_esp32_golang_ser.Session.Orchestration.{
  clients_missing, reports, ToolCall, Prompt, chat, calls, tool_result, opens_tts, starts_pacer,
  finishes_tts, stops_pacer, closes_llm, opens_llm, calls_tool, finishes_input, pcm_ok, pcm_failed,
  pcm_canceled, World, Task, ctx_over, turn_over, is_over, seen_ctx, seen_turn, seen, note, give_up,
  give_up_ctx, deliver, consume,
}

unfoldable pub new_task : Option ℕ → Option ℕ → Task
new_task ctx_left turn_left = record {
  ctx_left = ctx_left;
  turn_left = turn_left;
  splitter = new_sentence_splitter;
  assistant_text = [];
  log = [];
}

module _ (w : World) where
  unfoldable pub tool_text : ToolCall → Task → Text
  tool_text call t =
      if is_mcp_tool_allowed call.name w.allowed_tools
      then elim (call_mcp_tool w.allowed_tools call.name (w.tool_answer t.log call)) [
        | some text ↦ text
        | none ↦ codes "Error: " ++ w.tool_error t.log call
      ]
      else codes "Error: tool "
        ++ w.quoted call.name
        ++ codes " is not authorized in current session"

  unfoldable pub call_tool : ToolCall → Task → Task
  call_tool call t =
      if is_mcp_tool_allowed call.name w.allowed_tools then note (calls_tool call) t else t

  -- Each call, or its refusal, adds its result to the messages; `none` if the turn ends on the way.
  unfoldable pub run_tools : List ToolCall → List Prompt → Task → Task × Option (List Prompt)
  unfolding tool_text call_tool
  run_tools [] messages t = (t, some messages)
  run_tools (call ∷ rest) messages t = elim (is_over t) [
    | true ↦ (seen t, none)
    | false ↦
        run_tools rest (messages ++ tool_result call.id (tool_text call (seen t)) ∷ [])
          (call_tool call (seen t))
  ]

  unfoldable pub finish_turn : Task → Task × Bool
  finish_turn t = elim w.pcm_done [
    | pcm_failed ↦ (t, false)
    | pcm_canceled ↦ (t, false)
    | pcm_ok ↦
        if turn_over t
        then (seen_turn t, false)
        else (note (finishes_input w.user_text t.assistant_text) (seen_turn t), true)
  ]

  unfoldable pub finish_tts : Task → Task × Bool
  unfolding finish_turn give_up
  finish_tts t = if is_over t then (seen t, false) else elim w.tts_finished [
    | some f ↦ (give_up f (seen t), false)
    | none ↦ finish_turn (note finishes_tts (seen t))
  ]

  -- The rest of the reply is flushed, and the input of the TTS stream ended.
  unfoldable pub finish_reply : Task → Task × Bool
  unfolding finish_tts
  finish_reply t =
      if is_over t
      then (seen t, false)
      else let flushed = flush t.splitter in
        let sent = deliver w flushed.1 (record (seen t) { splitter = flushed.0 }) in
        if sent.1 then finish_tts sent.0 else sent

  unfoldable pub after_reply : Task × Bool → Task × Bool
  unfolding finish_reply
  after_reply (t, false) = (t, false)
  after_reply (t, true) = finish_reply t

  -- The stream is closed when all is over.
  abbrev pub closing : Task × Bool → Task × Bool
  closing r = (note closes_llm r.0, r.1)

  unfoldable pub reply_again : List Prompt → Task → Task × Bool
  unfolding after_reply give_up_ctx
  reply_again messages t = if is_over t then (seen t, false) else elim w.llm_created_again [
    | some f ↦ (give_up_ctx f (seen t), false)
    | none ↦ closing (
        after_reply (
          consume w w.replies_again
            (note (opens_llm messages false) (record (seen t) { assistant_text = [] }))))
  ]

  unfoldable pub after_tools : Task × Option (List Prompt) → Task × Bool
  unfolding reply_again
  after_tools (t, none) = (t, false)
  after_tools (t, some messages) = reply_again messages t

  -- A reply that asks for tools is answered with their results, and replied to again.
  unfoldable pub use_tools : List ToolCall → Task → Task × Bool
  unfolding finish_reply after_tools run_tools
  use_tools [] t = finish_reply t
  use_tools (call ∷ more) t =
      after_tools (
        run_tools (call ∷ more) (map chat w.messages ++ calls t.assistant_text (call ∷ more) ∷ [])
          t)

  unfoldable pub after_first : Task × Bool → Task × Bool
  unfolding use_tools
  after_first (t, false) = (t, false)
  after_first (t, true) = if is_over t then (seen t, false) else use_tools w.tool_calls (seen t)

  unfoldable pub reply : Task → Task × Bool
  unfolding after_first give_up_ctx
  reply t = elim w.llm_created [
    | some f ↦ (give_up_ctx f t, false)
    | none ↦
        closing (after_first (consume w w.replies (note (opens_llm (map chat w.messages) true) t)))
  ]

  -- A pipeline that fails stops the pacer.
  unfoldable pub leave : Task × Bool → Task × Bool
  leave (t, true) = (t, true)
  leave (t, false) = (note stops_pacer t, false)

  unfoldable pub start_pipeline : Task → Task × Bool
  unfolding leave reply give_up_ctx
  start_pipeline t = if ctx_over t then (seen_ctx t, false) else elim w.tts_created [
    | some f ↦ (give_up_ctx f (seen_ctx t), false)
    | none ↦ leave (reply (note starts_pacer (note opens_tts (seen_ctx t))))
  ]

  -- Without clients there is nothing to do; with one of them alone the turn fails.
  unfoldable pub orchestrate_llm_and_tts : Task → Task × Bool
  unfolding start_pipeline
  orchestrate_llm_and_tts t =
      if w.has_llm && w.has_tts
      then start_pipeline t
      else if w.has_llm || w.has_tts
      then (note (reports clients_missing) t, false)
      else (t, false)
