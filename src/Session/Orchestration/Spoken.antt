-- ===== src/Session/Orchestration/Spoken.antt =====
-- What the answering goroutine speaks while it reads a reply.
use xiaozhi_esp32_golang_ser.Prelude.{
  ◌≡◌, sym, ap, ◌∙◌, Bool, true, Option, none, some, List, [], ◌∷◌, ◌++◌, append_assoc, append-nil,
  flatten, arith, Bool-cases, Option-cases, inl, inr,
}
use xiaozhi_esp32_golang_ser.Session.Message.{Text}
use xiaozhi_esp32_golang_ser.Session.Splitter.{feed}
use xiaozhi_esp32_golang_ser.Session.Splitter.Loop.{visible}
use xiaozhi_esp32_golang_ser.Session.Splitter.Laws.{visible-append, feed-visible}
use xiaozhi_esp32_golang_ser.Session.Orchestration.{
  ToolCall, Output, Received, chunk, read_failed, World, Task, speaks, finishes_input, is_over,
  seen, speak, write_start, send_sentence, take_chunk, deliver, consume,
}

-- The sentences spoken so far, joined.
abbrev pub spoken : List Output → Text
spoken [] = []
spoken (speaks text ∷ log) = spoken log ++ text
spoken (o ∷ log) = spoken log

-- What the pacer's input was finished with.
abbrev pub answer : List Output → Option (Text × Text)
answer [] = none
answer (finishes_input u a ∷ log) = some (u, a)
answer (o ∷ log) = answer log

-- The text of a stream.
abbrev pub heard : List Received → Text
heard [] = []
heard (read_failed f ∷ rest) = []
heard (chunk text ∷ rest) = text ++ heard rest

-- Two texts, the second only where there are tool calls; and the last of them.
abbrev pub joined : List ToolCall → Text → Text → Text
joined [] first second = first
joined (c ∷ cs) first second = first ++ second

abbrev pub last_of : List ToolCall → Text → Text → Text
last_of [] first second = first
last_of (c ∷ cs) first second = second

-- What is spoken and what still waits in the splitter.
unfoldable pub told : Task → Text
told t = visible (spoken t.log) ++ visible t.splitter.buffer

retold :
    (a fl b b' c : Text)
    → visible fl ++ b' ≡ b ++ c
    → visible (a ++ fl) ++ b' ≡ (visible a ++ b) ++ c
retold a fl b b' c h =
    ap (λ v. v ++ b') (visible-append a fl)
    ∙ append_assoc (visible a) (visible fl) b'
    ∙ ap (◌++◌ (visible a)) h
    ∙ sym (append_assoc (visible a) b c)

-- A step that goes on has told the text and added it to the answer.
pub record Tells (text : Text) (t : Task) (r : Task × Bool) : Type 0 where
  pub tells : r.1 ≡ true → told r.0 ≡ told t ++ visible text
  pub keeps : r.1 ≡ true → r.0.assistant_text ≡ t.assistant_text ++ text

-- A step that ends the turn well has spoken what `shown` is of, and finished the pacer's input with the
-- question and the answer.
pub record Finishes (shown question answered : Text) (r : Task × Bool) : Type 0 where
  pub speaks_all : r.1 ≡ true → visible (spoken r.0.log) ≡ shown
  pub answers : r.1 ≡ true → answer r.0.log ≡ some (question, answered)

module _ (w : World) where
  send_sentence_says :
      (text : Text) (t : Task)
      → (send_sentence w text t).1 ≡ none
      → (spoken (send_sentence w text t).0.log ≡ spoken t.log ++ text)
        × ((send_sentence w text t).0.splitter ≡ t.splitter)
        × ((send_sentence w text t).0.assistant_text ≡ t.assistant_text)
  unfolding send_sentence speak write_start
  send_sentence_says text t h = ground arith

  pub deliver_says :
      (texts : List Text) (t : Task)
      → (deliver w texts t).1 ≡ true
      → (spoken (deliver w texts t).0.log ≡ spoken t.log ++ flatten texts)
        × ((deliver w texts t).0.splitter ≡ t.splitter)
        × ((deliver w texts t).0.assistant_text ≡ t.assistant_text)
  unfolding deliver flatten
  deliver_says [] t h = ground (arith, append-nil (spoken t.log))
  deliver_says (text ∷ texts) t h = elim (Option-cases (send_sentence w text t).1) [
    | inl e ↦ ground (
      arith,
      send_sentence_says text t e,
      deliver_says texts (send_sentence w text t).0,
      append_assoc (spoken t.log) text (flatten texts),
    )
    | inr (f, e) ↦ ground arith
  ]

  take_chunk-Tells : (text : Text) (t : Task) → Tells text t (take_chunk w text t)
  unfolding take_chunk told
  take_chunk-Tells [] t = record {
    tells = λ h. sym (append-nil (told t));
    keeps = λ h. sym (append-nil t.assistant_text);
  }
  take_chunk-Tells (r ∷ text) t =
      let fed = feed t.splitter (r ∷ text) in
      let t' : Task = record t {
        assistant_text = t.assistant_text ++ (r ∷ text);
        splitter = fed.0;
      } in
      record {
        tells = λ h.
            let said = deliver_says fed.1 t' h in
            ap (λ v. visible v ++ visible (deliver w fed.1 t').0.splitter.buffer) said.0
            ∙ ap (λ v. visible (spoken t.log ++ flatten fed.1) ++ visible v.buffer) said.1
            ∙ retold (spoken t.log) (flatten fed.1) (visible t.splitter.buffer)
                (visible fed.0.buffer) (visible (r ∷ text)) (feed-visible t.splitter (r ∷ text));
        keeps = λ h. (deliver_says fed.1 t' h).2;
      }

  more_told :
      (text rest : Text) (t : Task) (q r : Task × Bool)
      → q.1 ≡ true
      → Tells text t q
      → Tells rest q.0 r
      → Tells (text ++ rest) t r
  more_told text rest t q r go a b = record {
    tells = λ h.
        b.tells h
        ∙ ap (λ v. v ++ visible rest) (a.tells go)
        ∙ append_assoc (told t) (visible text) (visible rest)
        ∙ ap (◌++◌ (told t)) (sym (visible-append text rest));
    keeps =
        λ h. b.keeps h ∙ ap (λ v. v ++ rest) (a.keeps go) ∙ append_assoc t.assistant_text text rest;
  }

  pub consume-Tells : (rs : List Received) (t : Task) → Tells (heard rs) t (consume w rs t)
  unfolding consume told
  consume-Tells [] t = record {
    tells = λ h. sym (append-nil (told t));
    keeps = λ h. sym (append-nil t.assistant_text);
  }
  consume-Tells (read_failed f ∷ rs) t = record { tells = λ h. cc; keeps = λ h. cc }
  consume-Tells (chunk text ∷ rs) t = elim (Bool-cases (is_over t)) [
    | inl e ↦ ground arith
    | inr e ↦ elim (Bool-cases (take_chunk w text (seen t)).1) [
      | inl h ↦
          let step = take_chunk w text (seen t) in
          let told_rest =
            more_told text (heard rs) (seen t) step (consume w rs step.0) h
              (take_chunk-Tells text (seen t)) (consume-Tells rs step.0) in
          record {
            tells = λ k. ground (arith, told_rest.tells);
            keeps = λ k. ground (arith, told_rest.keeps);
          }
      | inr h ↦ ground arith
    ]
  ]
