-- ===== src/Session/Orchestration/Order.antt =====
-- The order in which the answering goroutine does things.
use xiaozhi_esp32_golang_ser.Prelude.{
  ℕ, ◌≡◌, refl, Bool, true, false, Option, none, some, List, [], ◌∷◌, ◌++◌, arith, Bool-cases,
  Option-cases, inl, inr, map,
}
use xiaozhi_esp32_golang_ser.Session.Splitter.{flush}
use xiaozhi_esp32_golang_ser.Session.Orchestration.{
  ToolCall, Prompt, World, Task, chat, calls, tool_result, opens_tts, starts_pacer, finishes_tts,
  opens_llm, is_over, seen_ctx, seen, note, deliver, consume,
}
use xiaozhi_esp32_golang_ser.Session.Orchestration.Pipeline.{
  new_task, tool_text, call_tool, run_tools, finish_turn, finish_tts, finish_reply, after_reply,
  reply_again, after_tools, use_tools, after_first, reply, leave, start_pipeline,
  orchestrate_llm_and_tts,
}
use xiaozhi_esp32_golang_ser.Session.Orchestration.Outputs.{
  IsLive, IsMidway, IsMidway-IsLive, IsOver, IsProper, call_tool-IsLive, consume-IsMidway,
  deliver-IsMidway, give_up-IsMidway, give_up_ctx-IsMidway, is_reported, is_sealed, is_settled,
  seen-IsLive,
}

module _ (w : World) where
  run_tools-IsLive :
      (cs : List ToolCall) (ms : List Prompt) (t : Task)
      → IsLive w.allowed_tools t
      → IsLive w.allowed_tools (run_tools w cs ms t).0
  unfolding run_tools
  run_tools-IsLive [] ms t v = v
  run_tools-IsLive (c ∷ cs) ms t v = elim (Bool-cases (is_over t)) [
    | inl e ↦ ground arith
    | inr e ↦ ground (
      arith,
      run_tools-IsLive cs (ms ++ tool_result c.id (tool_text w c (seen t)) ∷ [])
          (call_tool w c (seen t)) (call_tool-IsLive w c (seen t) (seen-IsLive w t v)),
    )
  ]

  finish_turn-IsOver :
      (t : Task)
      → IsProper w.allowed_tools t.log
      → is_sealed t.log ≡ true
      → is_settled t.log ≡ false
      → is_reported t.log ≡ false
      → IsOver w.allowed_tools (finish_turn w t)
  unfolding finish_turn
  finish_turn-IsOver t p s u r = ground arith

  finish_tts-IsOver :
      (t : Task) → IsLive w.allowed_tools t → IsOver w.allowed_tools (finish_tts w t)
  unfolding finish_tts
  finish_tts-IsOver t v = elim (Option-cases w.tts_finished) [
    | inl e ↦ ground (
      arith,
      finish_turn-IsOver (note finishes_tts (seen t)) (v.unsealed, v.proper) refl v.unsettled
          v.unreported,
    )
    | inr (f, e) ↦
        ground
          (arith, give_up-IsMidway w.allowed_tools f (seen t) v.proper v.unsettled v.unreported)
  ]

  finish_reply-IsOver :
      (t : Task) → IsLive w.allowed_tools t → IsOver w.allowed_tools (finish_reply w t)
  unfolding finish_reply
  finish_reply-IsOver t v =
      let flushed = flush t.splitter in
      let t' : Task = record (seen t) { splitter = flushed.0 } in
      let m = deliver-IsMidway w flushed.1 t' (record {
        proper = v.proper;
        unsealed = v.unsealed;
        unsettled = v.unsettled;
        unreported = v.unreported;
      }) in
      elim (Bool-cases (deliver w flushed.1 t').1) [
        | inl e ↦ ground (
          arith,
          finish_tts-IsOver (deliver w flushed.1 t').0
              (IsMidway-IsLive w (deliver w flushed.1 t') m e),
        )
        | inr e ↦ ground arith
      ]

  after_reply-IsOver :
      (r : Task × Bool) → IsMidway w.allowed_tools r → IsOver w.allowed_tools (after_reply w r)
  unfolding after_reply
  after_reply-IsOver (t, false) m = ground arith
  after_reply-IsOver (t, true) m = finish_reply-IsOver t (IsMidway-IsLive w (t, true) m refl)

  reply_again-IsOver :
      (ms : List Prompt) (t : Task)
      → IsLive w.allowed_tools t
      → IsOver w.allowed_tools (reply_again w ms t)
  unfolding reply_again
  reply_again-IsOver ms t v =
      let t' : Task = note (opens_llm ms false) (record (seen t) { assistant_text = [] }) in
      let m = consume-IsMidway w w.replies_again t' (record {
        proper = (tt, v.proper);
        unsealed = v.unsealed;
        unsettled = v.unsettled;
        unreported = v.unreported;
      }) in
      let over = after_reply-IsOver (consume w w.replies_again t') m in
      elim (Option-cases w.llm_created_again) [
        | inl e ↦ ground arith
        | inr (f, e) ↦ ground (
          arith,
          give_up_ctx-IsMidway w.allowed_tools f (seen t) v.proper v.unsettled v.unreported,
        )
      ]

  after_tools-IsOver :
      (r : Task × Option (List Prompt))
      → IsLive w.allowed_tools r.0
      → IsOver w.allowed_tools (after_tools w r)
  unfolding after_tools
  after_tools-IsOver (t, none) v = ground arith
  after_tools-IsOver (t, some ms) v = reply_again-IsOver ms t v

  use_tools-IsOver :
      (cs : List ToolCall) (t : Task)
      → IsLive w.allowed_tools t
      → IsOver w.allowed_tools (use_tools w cs t)
  unfolding use_tools
  use_tools-IsOver [] t v = finish_reply-IsOver t v
  use_tools-IsOver (c ∷ cs) t v =
      let ms : List Prompt = map chat w.messages ++ calls t.assistant_text (c ∷ cs) ∷ [] in
      after_tools-IsOver (run_tools w (c ∷ cs) ms t) (run_tools-IsLive (c ∷ cs) ms t v)

  after_first-IsOver :
      (r : Task × Bool) → IsMidway w.allowed_tools r → IsOver w.allowed_tools (after_first w r)
  unfolding after_first
  after_first-IsOver (t, false) m = ground arith
  after_first-IsOver (t, true) m =
      let v = seen-IsLive w t (IsMidway-IsLive w (t, true) m refl) in
      ground (arith, use_tools-IsOver w.tool_calls (seen t) v)

  reply-IsOver : (t : Task) → IsLive w.allowed_tools t → IsOver w.allowed_tools (reply w t)
  unfolding reply
  reply-IsOver t v =
      let t' : Task = note (opens_llm (map chat w.messages) true) t in
      let m = consume-IsMidway w w.replies t' (record {
        proper = (tt, v.proper);
        unsealed = v.unsealed;
        unsettled = v.unsettled;
        unreported = v.unreported;
      }) in
      let over = after_first-IsOver (consume w w.replies t') m in
      elim (Option-cases w.llm_created) [
        | inl e ↦ ground arith
        | inr (f, e) ↦
            ground
              (arith, give_up_ctx-IsMidway w.allowed_tools f t v.proper v.unsettled v.unreported)
      ]

  leave-IsOver : (r : Task × Bool) → IsOver w.allowed_tools r → IsOver w.allowed_tools (leave w r)
  unfolding leave
  leave-IsOver (t, true) v = v
  leave-IsOver (t, false) v = ground arith

start_pipeline-IsOver :
    (w : World) (ctx_left turn_left : Option ℕ)
    → IsOver w.allowed_tools (start_pipeline w (new_task ctx_left turn_left))
unfolding start_pipeline new_task
start_pipeline-IsOver w ctx_left turn_left = elim (Option-cases w.tts_created) [
  | inl e ↦
      let t : Task = note starts_pacer (note opens_tts (seen_ctx (new_task ctx_left turn_left))) in
      ground (
        arith,
        leave-IsOver w (reply w t) (
            reply-IsOver w t (record {
              proper = (tt, (tt, tt));
              unsealed = refl;
              unsettled = refl;
              unreported = refl;
            })),
      )
  | inr (f, e) ↦ ground (
    arith,
    give_up_ctx-IsMidway w.allowed_tools f (seen_ctx (new_task ctx_left turn_left)) tt refl refl,
  )
]

-- However the streams, the writer and the tools answer, and whenever the turn ends: each sentence is spoken
-- right after its text was written, and before the TTS stream's input ends, once; one error is reported at
-- most; only tools that the device has are called; and the pacer's input is finished exactly if all went
-- well, once, after that of the TTS stream, with no error reported and the pacer not stopped.
pub orchestrate_llm_and_tts-IsOver :
    (w : World) (ctx_left turn_left : Option ℕ)
    → IsOver w.allowed_tools (orchestrate_llm_and_tts w (new_task ctx_left turn_left))
unfolding orchestrate_llm_and_tts new_task
orchestrate_llm_and_tts-IsOver w ctx_left turn_left =
    ground (arith, start_pipeline-IsOver w ctx_left turn_left)
