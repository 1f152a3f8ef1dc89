-- ===== src/Session/Orchestration/Success.antt =====
-- A turn in which nothing fails ends well.
use xiaozhi_esp32_golang_ser.Prelude.{
  ◌≡◌, ◌≢◌, refl, Bool, true, false, Option, none, some, List, [], ◌∷◌, ◌++◌, All, arith, map,
}
use xiaozhi_esp32_golang_ser.Session.Message.{
  Text, ServerMessage, encode_tts_sentence_start_message,
}
use xiaozhi_esp32_golang_ser.Session.Splitter.{feed, flush}
use xiaozhi_esp32_golang_ser.Session.Orchestration.{
  ToolCall, Prompt, Output, Received, chunk, read_failed, World, Task, chat, calls, tool_result,
  opens_tts, starts_pacer, finishes_tts, opens_llm, writes_start, count_down, is_spent, is_over,
  seen_ctx, seen, note, pcm_ok, speak, write_start, send_sentence, take_chunk, deliver, consume,
}
use xiaozhi_esp32_golang_ser.Session.Orchestration.Pipeline.{
  new_task, tool_text, call_tool, run_tools, finish_turn, finish_tts, finish_reply, after_reply,
  reply_again, after_tools, use_tools, after_first, reply, leave, start_pipeline,
  orchestrate_llm_and_tts,
}

-- `Recv` gives text.
abbrev pub IsText : Received → Type 0
IsText (chunk text) = Unit {0}
IsText (read_failed f) = ⊥

-- Nothing fails: the session has both clients and an id, the streams open, give text and take sentences, and the writer
-- takes messages.
pub record IsFriendly (w : World) : Type 0 where
  pub clients : (w.has_llm ≡ true) × (w.has_tts ≡ true)
  pub has_id : w.session_id ≢ []
  pub opens : (w.tts_created ≡ none) × (w.llm_created ≡ none) × (w.llm_created_again ≡ none)
  pub texts : All IsText w.replies × All IsText w.replies_again
  pub sends : (log : List Output) → (w.text_sent log ≡ none) × (w.sentence_sent log ≡ none)
  pub ends : (w.tts_finished ≡ none) × (w.pcm_done ≡ pcm_ok)

-- Nothing ends the turn.
record IsFree (t : Task) : Type 0 where
  ctx_free : t.ctx_left ≡ none
  turn_free : t.turn_left ≡ none

module _ (w : World) where
  abbrev Goes : Task × Bool → Type 0
  Goes r = (r.1 ≡ true) × IsFree r.0

  seen-IsFree : (t : Task) → IsFree t → (is_over t ≡ false) × IsFree (seen t)
  unfolding count_down is_spent
  seen-IsFree t free = ground arith

  encoded :
      (sid text : Text)
      → sid ≢ []
      → (m : ServerMessage) × (encode_tts_sentence_start_message sid text ≡ some m)
  unfolding encode_tts_sentence_start_message
  encoded [] text h = absurd (h refl)
  encoded (c ∷ sid) text h = (_, refl)

  send_sentence_goes :
      (text : Text) (t : Task)
      → IsFriendly w
      → IsFree t
      → ((send_sentence w text t).1 ≡ none) × IsFree (send_sentence w text t).0
  unfolding send_sentence speak write_start
  send_sentence_goes text t nice free =
      let saw = seen-IsFree t free in
      let (m, e) = encoded w.session_id text nice.has_id in
      ground (arith, e, nice.sends t.log, nice.sends (writes_start text ∷ t.log))

  deliver-Goes : (texts : List Text) (t : Task) → IsFriendly w → IsFree t → Goes (deliver w texts t)
  unfolding deliver
  deliver-Goes [] t nice free = (refl, free)
  deliver-Goes (text ∷ texts) t nice free =
      let sent = send_sentence_goes text t nice free in
      ground (arith, deliver-Goes texts (send_sentence w text t).0 nice sent.1)

  take_chunk-Goes : (text : Text) (t : Task) → IsFriendly w → IsFree t → Goes (take_chunk w text t)
  unfolding take_chunk
  take_chunk-Goes [] t nice free = (refl, free)
  take_chunk-Goes (r ∷ text) t nice free =
      let fed = feed t.splitter (r ∷ text) in
      deliver-Goes fed.1
        (record t { assistant_text = t.assistant_text ++ (r ∷ text); splitter = fed.0 }) nice
        (record { ctx_free = free.ctx_free; turn_free = free.turn_free })

  consume-Goes :
      (rs : List Received) (t : Task)
      → All IsText rs
      → IsFriendly w
      → IsFree t
      → Goes (consume w rs t)
  unfolding consume
  consume-Goes [] t texts nice free = (refl, free)
  consume-Goes (read_failed f ∷ rs) t texts nice free = elim texts.0 [ ]
  consume-Goes (chunk text ∷ rs) t texts nice free =
      let saw = seen-IsFree t free in
      let took = take_chunk-Goes text (seen t) nice saw.1 in
      ground (arith, consume-Goes rs (take_chunk w text (seen t)).0 texts.1 nice took.1)

  run_tools_goes :
      (cs : List ToolCall) (ms : List Prompt) (t : Task)
      → IsFree t
      → ((run_tools w cs ms t).1 ≢ none) × IsFree (run_tools w cs ms t).0
  unfolding run_tools call_tool
  run_tools_goes [] ms t free = (λ h. cc, free)
  run_tools_goes (c ∷ cs) ms t free =
      let saw = seen-IsFree t free in
      let called : IsFree (call_tool w c (seen t)) = ground arith in
      ground (
        arith,
        run_tools_goes cs (ms ++ tool_result c.id (tool_text w c (seen t)) ∷ [])
            (call_tool w c (seen t)) called,
      )

  finish_turn_goes : (t : Task) → IsFriendly w → IsFree t → (finish_turn w t).1 ≡ true
  unfolding finish_turn is_spent
  finish_turn_goes t nice free = ground (arith, nice.ends)

  finish_tts_goes : (t : Task) → IsFriendly w → IsFree t → (finish_tts w t).1 ≡ true
  unfolding finish_tts
  finish_tts_goes t nice free =
      let saw = seen-IsFree t free in
      ground (
        arith,
        nice.ends,
        finish_turn_goes (note finishes_tts (seen t)) nice
            (record { ctx_free = saw.1.ctx_free; turn_free = saw.1.turn_free }),
      )

  finish_reply_goes : (t : Task) → IsFriendly w → IsFree t → (finish_reply w t).1 ≡ true
  unfolding finish_reply
  finish_reply_goes t nice free =
      let saw = seen-IsFree t free in
      let flushed = flush t.splitter in
      let t' : Task = record (seen t) { splitter = flushed.0 } in
      let sent =
        deliver-Goes flushed.1 t' nice
          (record { ctx_free = saw.1.ctx_free; turn_free = saw.1.turn_free }) in
      ground (arith, finish_tts_goes (deliver w flushed.1 t').0 nice sent.1)

  after_reply-Goes : (r : Task × Bool) → IsFriendly w → Goes r → (after_reply w r).1 ≡ true
  unfolding after_reply
  after_reply-Goes (t, false) nice goes = goes.0
  after_reply-Goes (t, true) nice goes = finish_reply_goes t nice goes.1

  reply_again_goes :
      (ms : List Prompt) (t : Task) → IsFriendly w → IsFree t → (reply_again w ms t).1 ≡ true
  unfolding reply_again
  reply_again_goes ms t nice free =
      let saw = seen-IsFree t free in
      let t' : Task = note (opens_llm ms false) (record (seen t) { assistant_text = [] }) in
      let read =
        consume-Goes w.replies_again t' nice.texts.1 nice
          (record { ctx_free = saw.1.ctx_free; turn_free = saw.1.turn_free }) in
      ground (arith, nice.opens, after_reply-Goes (consume w w.replies_again t') nice read)

  after_tools_goes :
      (r : Task × Option (List Prompt))
      → IsFriendly w
      → (r.1 ≢ none) × IsFree r.0
      → (after_tools w r).1 ≡ true
  unfolding after_tools
  after_tools_goes (t, none) nice goes = absurd (goes.0 refl)
  after_tools_goes (t, some ms) nice goes = reply_again_goes ms t nice goes.1

  use_tools_goes :
      (cs : List ToolCall) (t : Task) → IsFriendly w → IsFree t → (use_tools w cs t).1 ≡ true
  unfolding use_tools
  use_tools_goes [] t nice free = finish_reply_goes t nice free
  use_tools_goes (c ∷ cs) t nice free =
      let ms : List Prompt = map chat w.messages ++ calls t.assistant_text (c ∷ cs) ∷ [] in
      after_tools_goes (run_tools w (c ∷ cs) ms t) nice (run_tools_goes (c ∷ cs) ms t free)

  after_first-Goes : (r : Task × Bool) → IsFriendly w → Goes r → (after_first w r).1 ≡ true
  unfolding after_first
  after_first-Goes (t, false) nice goes = goes.0
  after_first-Goes (t, true) nice goes =
      let saw = seen-IsFree t goes.1 in
      ground (arith, use_tools_goes w.tool_calls (seen t) nice saw.1)

  reply_goes : (t : Task) → IsFriendly w → IsFree t → (reply w t).1 ≡ true
  unfolding reply
  reply_goes t nice free =
      let t' : Task = note (opens_llm (map chat w.messages) true) t in
      let read =
        consume-Goes w.replies t' nice.texts.0 nice
          (record { ctx_free = free.ctx_free; turn_free = free.turn_free }) in
      ground (arith, nice.opens, after_first-Goes (consume w w.replies t') nice read)

start_pipeline_succeeds :
    (w : World) → IsFriendly w → (start_pipeline w (new_task none none)).1 ≡ true
unfolding start_pipeline new_task leave count_down is_spent
start_pipeline_succeeds w nice =
    let t : Task = note starts_pacer (note opens_tts (seen_ctx (new_task none none))) in
    ground (arith, nice.opens, reply_goes w t nice (record { ctx_free = refl; turn_free = refl }))

-- If nothing fails and nothing ends the turn, the goroutine ends it well, whatever tools the model calls.
pub orchestrate_llm_and_tts_succeeds :
    (w : World) → IsFriendly w → (orchestrate_llm_and_tts w (new_task none none)).1 ≡ true
unfolding orchestrate_llm_and_tts
orchestrate_llm_and_tts_succeeds w nice =
    ground (arith, nice.clients, start_pipeline_succeeds w nice)
