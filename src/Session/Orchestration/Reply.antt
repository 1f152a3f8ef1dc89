-- ===== src/Session/Orchestration/Reply.antt =====
-- What is spoken, and what the turn is remembered by, against what the model replied.
use xiaozhi_esp32_golang_ser.Prelude.{
  ℕ, ◌≡◌, refl, sym, ap, subst, ◌∙◌, Bool, true, false, Option, none, some, List, [], ◌∷◌, ◌++◌,
  flatten, arith, Bool-cases, Option-cases, inl, inr, map,
}
use xiaozhi_esp32_golang_ser.Session.Message.{Text}
use xiaozhi_esp32_golang_ser.Session.Splitter.{flush, new_sentence_splitter}
use xiaozhi_esp32_golang_ser.Session.Splitter.Loop.{visible}
use xiaozhi_esp32_golang_ser.Session.Splitter.Laws.{visible-append, flush-visible}
use xiaozhi_esp32_golang_ser.Session.Orchestration.{
  ToolCall, Prompt, World, Task, chat, calls, tool_result, opens_tts, starts_pacer, opens_llm,
  is_over, seen_ctx, seen, note, deliver, consume,
}
use xiaozhi_esp32_golang_ser.Session.Orchestration.Pipeline.{
  new_task, tool_text, call_tool, run_tools, finish_turn, finish_tts, finish_reply, after_reply,
  reply_again, after_tools, use_tools, after_first, reply, leave, start_pipeline,
  orchestrate_llm_and_tts,
}
use xiaozhi_esp32_golang_ser.Session.Orchestration.Spoken.{
  Finishes, Tells, answer, consume-Tells, deliver_says, heard, joined, last_of, spoken, told,
}

module _ (w : World) where
  finish_tts_says :
      (t : Task)
      → (finish_tts w t).1 ≡ true
      → (spoken (finish_tts w t).0.log ≡ spoken t.log)
        × (answer (finish_tts w t).0.log ≡ some (w.user_text, t.assistant_text))
  unfolding finish_tts finish_turn
  finish_tts_says t h = ground arith

  finish_reply_says : (t : Task) → Finishes (told t) w.user_text t.assistant_text (finish_reply w t)
  unfolding finish_reply told
  finish_reply_says t =
      let flushed = flush t.splitter in
      let t' : Task = record (seen t) { splitter = flushed.0 } in
      let sent = deliver w flushed.1 t' in
      elim (Bool-cases (is_over t)) [
        | inl e ↦ ground arith
        | inr e ↦ elim (Bool-cases sent.1) [
          | inl h ↦
              let said = deliver_says w flushed.1 t' h in
              let spoke : visible (spoken sent.0.log)
                  ≡ visible (spoken t.log) ++ visible t.splitter.buffer =
                ap visible said.0
                ∙ visible-append (spoken t.log) (flatten flushed.1)
                ∙ ap (◌++◌ (visible (spoken t.log))) (flush-visible t.splitter) in
              record {
                speaks_all = λ k. ground (arith, finish_tts_says sent.0, spoke);
                answers = λ k. ground (arith, finish_tts_says sent.0, said.2);
              }
          | inr h ↦ ground arith
        ]
      ]

  after_reply_says :
      (text : Text) (t : Task) (r : Task × Bool)
      → Tells text t r
      → Finishes (told t ++ visible text) w.user_text (t.assistant_text ++ text) (after_reply w r)
  unfolding after_reply
  after_reply_says text t (t', false) tells = record { speaks_all = λ h. cc; answers = λ h. cc }
  after_reply_says text t (t', true) tells =
      let done = finish_reply_says t' in
      record {
        speaks_all = λ h. done.speaks_all h ∙ tells.tells refl;
        answers = λ h. done.answers h ∙ ap (λ a. some (w.user_text, a)) (tells.keeps refl);
      }

  told-run_tools :
      (cs : List ToolCall) (ms : List Prompt) (t : Task) → told (run_tools w cs ms t).0 ≡ told t
  unfolding run_tools call_tool told
  told-run_tools [] ms t = refl
  told-run_tools (c ∷ cs) ms t = elim (Bool-cases (is_over t)) [
    | inl e ↦ ground arith
    | inr e ↦ ground (
      arith,
      told-run_tools cs (ms ++ tool_result c.id (tool_text w c (seen t)) ∷ [])
          (call_tool w c (seen t)),
    )
  ]

  reply_again_says :
      (ms : List Prompt) (t : Task)
      → Finishes
          (told t ++ visible (heard w.replies_again))
          w.user_text
          (heard w.replies_again)
          (reply_again w ms t)
  unfolding reply_again told
  reply_again_says ms t =
      let t' : Task = note (opens_llm ms false) (record (seen t) { assistant_text = [] }) in
      let done =
        after_reply_says (heard w.replies_again) t' (consume w w.replies_again t')
          (consume-Tells w w.replies_again t') in
      elim (Bool-cases (is_over t)) [
        | inl e ↦ ground arith
        | inr e ↦ elim (Option-cases w.llm_created_again) [
          | inl n ↦ record {
            speaks_all = λ k. ground (arith, done.speaks_all);
            answers = λ k. ground (arith, done.answers);
          }
          | inr (f, n) ↦ ground arith
        ]
      ]

  after_tools_says :
      (r : Task × Option (List Prompt))
      → Finishes
          (told r.0 ++ visible (heard w.replies_again))
          w.user_text
          (heard w.replies_again)
          (after_tools w r)
  unfolding after_tools
  after_tools_says (t, none) = record { speaks_all = λ h. cc; answers = λ h. cc }
  after_tools_says (t, some ms) = reply_again_says ms t

  use_tools_says :
      (cs : List ToolCall) (t : Task)
      → Finishes
          (joined cs (told t) (visible (heard w.replies_again)))
          w.user_text
          (last_of cs t.assistant_text (heard w.replies_again))
          (use_tools w cs t)
  unfolding use_tools
  use_tools_says [] t = finish_reply_says t
  use_tools_says (c ∷ cs) t =
      let ms : List Prompt = map chat w.messages ++ calls t.assistant_text (c ∷ cs) ∷ [] in
      subst
        (λ v.
          Finishes (v ++ visible (heard w.replies_again)) w.user_text (heard w.replies_again)
            (after_tools w (run_tools w (c ∷ cs) ms t)))
        (told-run_tools (c ∷ cs) ms t) (after_tools_says (run_tools w (c ∷ cs) ms t))

  after_first_says :
      (text : Text) (t : Task) (r : Task × Bool)
      → Tells text t r
      → Finishes
          (joined w.tool_calls (told t ++ visible text) (visible (heard w.replies_again)))
          w.user_text
          (last_of w.tool_calls (t.assistant_text ++ text) (heard w.replies_again))
          (after_first w r)
  unfolding after_first told
  after_first_says text t (t', false) tells = record { speaks_all = λ h. cc; answers = λ h. cc }
  after_first_says text t (t', true) tells =
      let done = use_tools_says w.tool_calls (seen t') in
      let again : Text = heard w.replies_again in
      elim (Bool-cases (is_over t')) [
        | inl e ↦ record { speaks_all = λ h. ground arith; answers = λ h. ground arith }
        | inr e ↦ record {
          speaks_all = λ h.
              ground (arith, done.speaks_all)
              ∙ ap (λ v. joined w.tool_calls v (visible again)) (tells.tells refl);
          answers = λ h.
              ground (arith, done.answers)
              ∙ ap (λ a. some (w.user_text, last_of w.tool_calls a again)) (tells.keeps refl);
        }
      ]

  reply_says :
      (t : Task)
      → Finishes
          (joined w.tool_calls
            (told t ++ visible (heard w.replies))
            (visible (heard w.replies_again)))
          w.user_text
          (last_of w.tool_calls (t.assistant_text ++ heard w.replies) (heard w.replies_again))
          (reply w t)
  unfolding reply told
  reply_says t =
      let t' : Task = note (opens_llm (map chat w.messages) true) t in
      let done =
        after_first_says (heard w.replies) t' (consume w w.replies t')
          (consume-Tells w w.replies t') in
      elim (Option-cases w.llm_created) [
        | inl n ↦ record {
          speaks_all = λ k. ground (arith, done.speaks_all);
          answers = λ k. ground (arith, done.answers);
        }
        | inr (f, n) ↦ record { speaks_all = λ k. ground arith; answers = λ k. ground arith }
      ]

joined-visible :
    (cs : List ToolCall) (a b : Text) → joined cs (visible a) (visible b) ≡ visible (joined cs a b)
joined-visible [] a b = refl
joined-visible (c ∷ cs) a b = sym (visible-append a b)

start_pipeline-visible :
    (w : World) (ctx_left turn_left : Option ℕ)
    → (start_pipeline w (new_task ctx_left turn_left)).1 ≡ true
    → let log = (start_pipeline w (new_task ctx_left turn_left)).0.log in
      (visible (spoken log)
        ≡ visible (joined w.tool_calls (heard w.replies) (heard w.replies_again)))
      × (answer log
          ≡ some (w.user_text, last_of w.tool_calls (heard w.replies) (heard w.replies_again)))
unfolding start_pipeline new_task leave new_sentence_splitter told
start_pipeline-visible w ctx_left turn_left h =
    let t : Task = note starts_pacer (note opens_tts (seen_ctx (new_task ctx_left turn_left))) in
    let done = reply_says w t in
    elim (Option-cases w.tts_created) [
      | inl e ↦
          let went : (reply w t).1 ≡ true = ground arith in
          let same : (start_pipeline w (new_task ctx_left turn_left)).0.log ≡ (reply w t).0.log =
            ground arith in
          (
            ap (λ l. visible (spoken l)) same
                ∙ done.speaks_all went
                ∙ joined-visible w.tool_calls (heard w.replies) (heard w.replies_again),
            ap answer same ∙ done.answers went,
          )
      | inr (f, e) ↦ ground arith
    ]

-- If the goroutine ends the turn well, the sentences spoken spell, up to white space, all that the model
-- replied, its first reply and, where that called tools, the second; and the pacer's input is finished with
-- the question and the last of these replies.
pub orchestrate_llm_and_tts-visible :
    (w : World) (ctx_left turn_left : Option ℕ)
    → (orchestrate_llm_and_tts w (new_task ctx_left turn_left)).1 ≡ true
    → let log = (orchestrate_llm_and_tts w (new_task ctx_left turn_left)).0.log in
      (visible (spoken log)
        ≡ visible (joined w.tool_calls (heard w.replies) (heard w.replies_again)))
      × (answer log
          ≡ some (w.user_text, last_of w.tool_calls (heard w.replies) (heard w.replies_again)))
unfolding orchestrate_llm_and_tts new_task
orchestrate_llm_and_tts-visible w ctx_left turn_left h =
    let t = new_task ctx_left turn_left in
    let went : (start_pipeline w t).1 ≡ true = ground arith in
    let same : orchestrate_llm_and_tts w t ≡ start_pipeline w t = ground arith in
    rw same (start_pipeline-visible w ctx_left turn_left went)
