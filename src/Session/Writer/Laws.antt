-- ===== src/Session/Writer/Laws.antt =====
-- The write queue bounds its backlog and never reorders messages, in every interleaving of its calls with
-- the write loop.
use mathlib.Core.List.{Sublistᴰ}
use mathlib.Core.List.Sublistᴰ.{slnil}
use xiaozhi_esp32_golang_ser.Prelude.{
  ℕ, ◌≤◌, ◌≡◌, ◌≢◌, refl, sym, ap, ◌∙◌, inl, inr, subst, Bool, true, ◌&&◌, Option, none, some, List,
  [], ◌∷◌, ◌++◌, length, take, length-append, append-nil, append_assoc, arith, Bool-cases, ltb,
  ltb→lt, ◌||◌, take-append-drop, drop,
}
use xiaozhi_esp32_golang_ser.Prelude.Sublists.{prefix_of, sublist_snoc}
use xiaozhi_esp32_golang_ser.Session.Writer.{
  Writer, WriteError, new_writer, enqueue, write_step, write_round, close_queue, stop,
  drain_pending, close_and_wait,
}

-- What may happen to a writer: a message with whether its sender is cancelled, rounds of the loop with
-- what the connection answered, the calls of the session, its context cancelled.
pub data Event {ℓ} (A : Type ℓ) : Type ℓ where
  sends : Bool → A → Event A
  writes : Bool → Option WriteError → Event A
  closes stops drains cancels : Event A
  awaits : ℕ → Event A

module _ {ℓ} {A : Type ℓ} where
  unfoldable pub step : Writer A → Event A → Writer A
  step w (sends ctx_done item) = (enqueue w ctx_done item).0
  step w (writes sees_cancel result) = write_step w sees_cancel result
  step w closes = close_queue w
  step w stops = stop w
  step w drains = drain_pending w
  step w cancels = record w { cancelled = true }
  step w (awaits flushed) = close_and_wait flushed w

  unfoldable pub run : Writer A → List (Event A) → Writer A
  run w [] = w
  run w (e ∷ es) = run (step w e) es

  -- The messages written, then those waiting, are among those accepted, in the same order, and the backlog
  -- is bounded.
  pub record IsOrderly (w : Writer A) : Type ℓ where
    pub bounded : length w.queue ≤ w.capacity
    pub in_order : Sublistᴰ (w.written ++ w.queue) w.accepted

  -- Part of the backlog is written, the rest given up: what is written stays in order.
  dropped :
      (w : Writer A) (taken rest : List A)
      → taken ++ rest ≡ w.queue
      → IsOrderly w
      → Sublistᴰ ((w.written ++ taken) ++ []) w.accepted
  dropped w taken rest e v =
      subst (λ (l : List A). Sublistᴰ l w.accepted) (sym (append-nil (w.written ++ taken)))
        (prefix_of v.in_order (w.written ++ taken) rest
          (ap (◌++◌ w.written) (sym e) ∙ sym (append_assoc w.written taken rest)))

  emptied : (w : Writer A) → IsOrderly w → Sublistᴰ (w.written ++ []) w.accepted
  emptied w v =
      subst (λ (l : List A). Sublistᴰ l w.accepted) (sym (append-nil w.written))
        (prefix_of v.in_order w.written w.queue refl)

  accepted-IsOrderly :
      (w : Writer A) (item : A)
      → IsOrderly w
      → Sublistᴰ (w.written ++ (w.queue ++ item ∷ [])) (w.accepted ++ item ∷ [])
  accepted-IsOrderly w item v =
      subst (λ (l : List A). Sublistᴰ l (w.accepted ++ item ∷ []))
        (append_assoc w.written w.queue (item ∷ [])) (sublist_snoc item v.in_order)

  enqueue-IsOrderly :
      (w : Writer A) (ctx_done : Bool) (item : A)
      → IsOrderly w
      → IsOrderly (enqueue w ctx_done item).0
  unfolding enqueue
  enqueue-IsOrderly w c item v = elim (Bool-cases w.cancelled) [
    | inl e ↦ simp e v
    | inr e ↦ simp e (elim (Bool-cases c) [
      | inl f ↦ simp f v
      | inr f ↦ simp f (elim (Bool-cases w.closed) [
        | inl g ↦ simp g v
        | inr g ↦ simp g (elim (Bool-cases (ltb (length w.queue) w.capacity)) [
          | inl h ↦ simp h (record {
            bounded = omega (arith, length-append w.queue (item ∷ []), ltb→lt _ _ h);
            in_order = accepted-IsOrderly w item v;
          })
          | inr h ↦ simp h v
        ])
      ])
    ])
  ]

  write_round-IsOrderly :
      (w : Writer A) (queue : List A) (result : Option WriteError)
      → w.queue ≡ queue
      → IsOrderly w
      → IsOrderly (write_round w queue result)
  unfolding write_round
  write_round-IsOrderly w [] result same v = elim (Bool-cases w.closed) [
    | inl e ↦ simp e (record { bounded = omega arith; in_order = emptied w v })
    | inr e ↦ simp e v
  ]
  write_round-IsOrderly w (item ∷ rest) (some e) same v = record {
    bounded = omega arith;
    in_order = emptied w v;
  }
  write_round-IsOrderly w (item ∷ rest) none same v = record {
    bounded = omega (arith, v.bounded, ap length same);
    in_order =
        subst (λ (l : List A). Sublistᴰ l w.accepted)
          (ap (◌++◌ w.written) same ∙ sym (append_assoc w.written (item ∷ []) rest)) v.in_order;
  }

  step-IsOrderly : (w : Writer A) (e : Event A) → IsOrderly w → IsOrderly (step w e)
  unfolding step
  step-IsOrderly w (sends ctx_done item) v = enqueue-IsOrderly w ctx_done item v
  step-IsOrderly w (writes sees_cancel result) v =
      unfold write_step in
      elim (Bool-cases w.done) [
        | inl d ↦ simp d v
        | inr d ↦ simp d (elim (Bool-cases (w.cancelled && sees_cancel)) [
          | inl e ↦ simp e (record { bounded = omega arith; in_order = emptied w v })
          | inr e ↦ simp e (write_round-IsOrderly w w.queue result refl v)
        ])
      ]
  step-IsOrderly w closes v =
      unfold close_queue in record { bounded = v.bounded; in_order = v.in_order }
  step-IsOrderly w stops v = unfold stop in record { bounded = omega arith; in_order = emptied w v }
  step-IsOrderly w drains v =
      unfold drain_pending in record { bounded = omega arith; in_order = emptied w v }
  step-IsOrderly w cancels v = record { bounded = v.bounded; in_order = v.in_order }
  step-IsOrderly w (awaits flushed) v =
      unfold close_and_wait in
      elim (Bool-cases w.done) [
        | inl d ↦ simp d v
        | inr d ↦ simp d (record {
          bounded = omega arith;
          in_order =
              dropped w (take flushed w.queue) (drop flushed w.queue)
                (take-append-drop flushed w.queue) v;
        })
      ]

  run-IsOrderly : (w : Writer A) (es : List (Event A)) → IsOrderly w → IsOrderly (run w es)
  unfolding run
  run-IsOrderly w [] v = v
  run-IsOrderly w (e ∷ es) v = run-IsOrderly (step w e) es (step-IsOrderly w e v)

-- In every interleaving of senders, the write loop, `Close`, `Stop`, drains and cancellation, from a new
-- writer: the backlog stays within the capacity, and the messages that the connection took, then those
-- still waiting, are a subsequence of those accepted, so none is doubled or overtaken.
pub run-new_writer-IsOrderly {ℓ} :
    {A : Type ℓ} (queue_capacity : ℕ) (es : List (Event A))
    → IsOrderly (run (new_writer queue_capacity) es)
run-new_writer-IsOrderly {A} queue_capacity es = run-IsOrderly _ es start
  where
    start : IsOrderly {A = A} (new_writer queue_capacity)
    start = unfold new_writer in record { bounded = omega arith; in_order = slnil }

-- A writer that is closed, or whose context is cancelled, refuses every message of every sender with an
-- error and stays as it is.
pub enqueue_closed {ℓ} :
    {A : Type ℓ} (w : Writer A) (ctx_done : Bool) (item : A)
    → w.closed || w.cancelled ≡ true
    → ((enqueue w ctx_done item).0 ≡ w) × ((enqueue w ctx_done item).1 ≢ none)
unfolding enqueue
enqueue_closed w c item h = ground arith
