-- ===== src/Ai/LlmStream/Laws.antt =====
-- However its chunks are cut, the stream's tool calls are the fragments put together by their index.
use xiaozhi_esp32_golang_ser.Prelude.{
  ℕ, zero, suc, ◌≡◌, refl, sym, ap, subst, ◌⊎◌, ◌∙◌, false, ◌||◌, List, [], ◌∷◌, ◌++◌, append_assoc,
  append-nil, arith, inl, inr,
}
use xiaozhi_esp32_golang_ser.Session.Message.{Text}
use xiaozhi_esp32_golang_ser.Session.Orchestration.{ToolCall}
use xiaozhi_esp32_golang_ser.Ai.LlmStream.{
  Fragment, Chunk, no_choice, delta, StreamEnd, LlmError, Recv, text, eof, error, Calls, LlmStream,
  lookup, add_fragment, add_fragments, end_of, recv_from, recv, calls_at, tool_calls, is_some,
  new_llm_stream,
}
use xiaozhi_esp32_golang_ser.Ai.LlmStream.Grouping.{
  called, firsts, calls_of, Holds, add_fragment-Holds,
}

-- The fragments of chunks, put before those seen so far, newest first.
abbrev pub noted : List Fragment → List Fragment → List Fragment
noted [] seen = seen
noted (f ∷ fs) seen = noted fs (f ∷ seen)

abbrev pub fragments_of : List Chunk → List Fragment → List Fragment
fragments_of [] seen = seen
fragments_of (no_choice ∷ rest) seen = fragments_of rest seen
fragments_of (delta fs content ∷ rest) seen = fragments_of rest (noted fs seen)

abbrev pub text_of : List Chunk → Text
text_of [] = []
text_of (no_choice ∷ rest) = text_of rest
text_of (delta fs content ∷ rest) = content ++ text_of rest

abbrev add_chunks : List Chunk → Calls → Calls
add_chunks [] c = c
add_chunks (no_choice ∷ rest) c = add_chunks rest c
add_chunks (delta fs content ∷ rest) c = add_chunks rest (add_fragments fs c)

add_fragments-Holds :
    (fs seen : List Fragment) (c : Calls)
    → Holds seen c
    → Holds (noted fs seen) (add_fragments fs c)
unfolding add_fragments
add_fragments-Holds [] seen c v = v
add_fragments-Holds (f ∷ fs) seen c v =
    add_fragments-Holds fs (f ∷ seen) (add_fragment f c) (add_fragment-Holds f seen c v)

add_chunks-Holds :
    (cs : List Chunk) (seen : List Fragment) (c : Calls)
    → Holds seen c
    → Holds (fragments_of cs seen) (add_chunks cs c)
add_chunks-Holds [] seen c v = v
add_chunks-Holds (no_choice ∷ cs) seen c v = add_chunks-Holds cs seen c v
add_chunks-Holds (delta fs content ∷ cs) seen c v =
    add_chunks-Holds cs (noted fs seen) (add_fragments fs c) (add_fragments-Holds fs seen c v)

add_chunks-append :
    (xs ys : List Chunk) (c : Calls) → add_chunks (xs ++ ys) c ≡ add_chunks ys (add_chunks xs c)
add_chunks-append [] ys c = refl
add_chunks-append (no_choice ∷ xs) ys c = add_chunks-append xs ys c
add_chunks-append (delta fs t ∷ xs) ys c = add_chunks-append xs ys (add_fragments fs c)

text_of-append : (xs ys : List Chunk) → text_of (xs ++ ys) ≡ text_of xs ++ text_of ys
text_of-append [] ys = refl
text_of-append (no_choice ∷ xs) ys = text_of-append xs ys
text_of-append (delta fs t ∷ xs) ys =
    ap (◌++◌ t) (text_of-append xs ys) ∙ sym (append_assoc t (text_of xs) (text_of ys))

abbrev pub given : Recv → Text
given (text t) = t
given eof = []
given (error e) = []

-- From the chunks `cs` on, `s` has read `done` on its way to `s'`, and gave a text.
record Reads (cs : List Chunk) (s : LlmStream) (t : Text) (s' : LlmStream) : Type 0 where
  done : List Chunk
  chunks : cs ≡ done ++ s'.chunks
  gives : t ≡ text_of done
  keeps : s'.calls ≡ add_chunks done s.calls
  open_still : s'.closed ≡ s.closed

given-end_of : (e : StreamEnd) → given (end_of e) ≡ []
unfolding end_of
given-end_of e = ground arith

recv_from-Reads :
    (cs : List Chunk) (s : LlmStream) → Reads cs s (given (recv_from cs s).1) (recv_from cs s).0
unfolding recv_from
recv_from-Reads [] s = record {
  done = [];
  chunks = refl;
  gives = given-end_of s.ending;
  keeps = refl;
  open_still = refl;
}
recv_from-Reads (no_choice ∷ cs) s =
    let r = recv_from-Reads cs s in
    record {
      done = no_choice ∷ r.done;
      chunks = ap (◌∷◌ no_choice) r.chunks;
      gives = r.gives;
      keeps = r.keeps;
      open_still = r.open_still;
    }
recv_from-Reads (delta fs [] ∷ cs) s =
    let r = recv_from-Reads cs (record s {
      calls = add_fragments fs s.calls;
      first_token_received = s.first_token_received || is_some fs;
    }) in
    record {
      done = delta fs [] ∷ r.done;
      chunks = ap (◌∷◌ (delta fs [])) r.chunks;
      gives = r.gives;
      keeps = r.keeps;
      open_still = r.open_still;
    }
recv_from-Reads (delta fs (c ∷ content) ∷ cs) s = record {
  done = delta fs (c ∷ content) ∷ [];
  chunks = refl;
  gives = sym (append-nil (c ∷ content));
  keeps = refl;
  open_still = refl;
}

Recv-cases :
    (r : Recv) → ((t : Text) × (r ≡ text t)) ⊎ ((r ≡ eof) ⊎ ((x : LlmError) × (r ≡ error x)))
Recv-cases (text t) = inl (t, refl)
Recv-cases eof = inr (inl refl)
Recv-cases (error x) = inr (inr (x, refl))

new_Holds : Holds [] (record { by_index = []; indices = [] })
unfolding lookup
new_Holds = record { table = λ i. refl; order = refl }

-- A number of calls of `Recv`, up to the first that gives no text; the texts joined.
unfoldable pub recv_times : ℕ → LlmStream → LlmStream × Text
recv_times zero s = (s, [])
recv_times (suc n) s = elim ((recv s).1) [
  | text t ↦ ((recv_times n (recv s).0).0, t ++ (recv_times n (recv s).0).1)
  | eof ↦ ((recv s).0, [])
  | error e ↦ ((recv s).0, [])
]

Reads-refl : (s : LlmStream) → Reads s.chunks s [] s
Reads-refl s = record { done = []; chunks = refl; gives = refl; keeps = refl; open_still = refl }

Reads-append :
    (s s' s'' : LlmStream) (t u : Text)
    → Reads s.chunks s t s'
    → Reads s'.chunks s' u s''
    → Reads s.chunks s (t ++ u) s''
Reads-append s s' s'' t u a b = record {
  done = a.done ++ b.done;
  chunks = a.chunks ∙ ap (◌++◌ a.done) b.chunks ∙ sym (append_assoc a.done b.done s''.chunks);
  gives = ground (arith, a.gives, b.gives, text_of-append a.done b.done);
  keeps = b.keeps ∙ ap (add_chunks b.done) a.keeps ∙ sym (add_chunks-append a.done b.done s.calls);
  open_still = b.open_still ∙ a.open_still;
}

recv_usable : (s : LlmStream) → s.closed ≡ false → recv s ≡ recv_from s.chunks s
unfolding recv
recv_usable s usable = ground arith

recv-Reads : (s : LlmStream) → s.closed ≡ false → Reads s.chunks s (given (recv s).1) (recv s).0
recv-Reads s usable =
    subst (λ r. Reads s.chunks s (given r.1) r.0) (sym (recv_usable s usable))
      (recv_from-Reads s.chunks s)

recv_times-Reads :
    (n : ℕ) (s : LlmStream)
    → s.closed ≡ false
    → Reads s.chunks s (recv_times n s).1 (recv_times n s).0
unfolding recv_times
recv_times-Reads zero s usable = Reads-refl s
recv_times-Reads (suc n) s usable =
    let one = recv-Reads s usable in
    elim (Recv-cases (recv s).1) [
      | inl (t, e) ↦
          let rest = recv_times-Reads n (recv s).0 (one.open_still ∙ usable) in
          rw (e, recv_times)
            (Reads-append s (recv s).0 (recv_times n (recv s).0).0 t (recv_times n (recv s).0).1
              (subst (λ r. Reads s.chunks s (given r) (recv s).0) e one) rest)
      | inr (inl e) ↦ rw (e, recv_times) (subst (λ r. Reads s.chunks s (given r) (recv s).0) e one)
      | inr (inr (x, e)) ↦
          rw (e, recv_times) (subst (λ r. Reads s.chunks s (given r) (recv s).0) e one)
    ]

calls_at-called :
    (is : List ℕ) (seen : List Fragment) (table : List (ℕ × ToolCall))
    → ((i : ℕ) → lookup i table ≡ called i seen)
    → calls_at is table ≡ calls_of is seen
unfolding calls_at
calls_at-called [] seen table h = refl
calls_at-called (i ∷ is) seen table h = ground (arith, h i, calls_at-called is seen table h)

-- After any number of calls of `Recv` on a new stream: the texts given are the content of the chunks read,
-- in order, and the tool calls are, in the order in which their indices first came, the fragments of each
-- index put together, wherever the chunks are cut.
pub recv_times-called :
    (n : ℕ) (chunks : List Chunk) (ending : StreamEnd)
    → let r = recv_times n (new_llm_stream chunks ending) in
      (done : List Chunk) × (chunks ≡ done ++ r.0.chunks)
      × (r.1 ≡ text_of done)
      × (tool_calls r.0 ≡ calls_of (firsts (fragments_of done [])) (fragments_of done []))
unfolding new_llm_stream tool_calls
recv_times-called n chunks ending =
    let s = new_llm_stream chunks ending in
    let r = recv_times-Reads n s refl in
    let seen : List Fragment = fragments_of r.done [] in
    let v : Holds seen (recv_times n s).0.calls =
      subst (Holds seen) (sym r.keeps) (add_chunks-Holds r.done [] s.calls new_Holds) in
    (
      r.done,
      r.chunks,
      r.gives,
      ap (λ is. calls_at is (recv_times n s).0.calls.by_index) v.order
          ∙ calls_at-called (firsts seen) seen (recv_times n s).0.calls.by_index v.table,
    )
