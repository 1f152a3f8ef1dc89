-- ===== src/Session/Mcp/Matching.antt =====
-- The requests to the device in every interleaving: a request gets the first response with its number.
use mathlib.Core.Option
use xiaozhi_esp32_golang_ser.Prelude.{
  ℕ, suc, ◌≤◌, ◌≡◌, refl, Bool, true, not, ◌==◌, ◌&&◌, Option, none, some, List, [], ◌∷◌, ◌⊎◌,
  if◌then◌else◌, arith, subst,
}
use xiaozhi_esp32_golang_ser.Prelude.Int.{ℤ, pos, negsuc}
use xiaozhi_esp32_golang_ser.Session.Mcp.Requests.{
  Response, Requests, no_requests, begin_request, remove, slot_of, McpError, Ending, receives,
  gives_up, outcome, end_request, has_id, keep, offer, handle_incoming_mcp, Event, begins, incoming,
  ends, step, run,
}

-- No event ends the request `k`.
unfoldable pub goes_on : ℕ → List Event → Bool
goes_on k [] = true
goes_on k (begins ∷ es) = goes_on k es
goes_on k (incoming r ∷ es) = goes_on k es
goes_on k (ends ending j ∷ es) = not (j == k) && goes_on k es

-- The first response with the number `k`.
unfoldable pub first_response : ℕ → List Event → Option Response
first_response k [] = none
first_response k (incoming (some r) ∷ es) =
    let later = first_response k es in if has_id k r.id then some r else later
first_response k (incoming none ∷ es) = first_response k es
first_response k (begins ∷ es) = first_response k es
first_response k (ends ending j ∷ es) = first_response k es

slot_of-remove :
    (j k : ℕ) (ps : List (ℕ × Option Response))
    → not (j == k) ≡ true
    → slot_of k (remove j ps) ≡ slot_of k ps
unfolding slot_of remove
slot_of-remove j k [] h = refl
slot_of-remove j k (p ∷ ps) h = ground (arith, slot_of-remove j k ps h)

removed_lem : (k : ℕ) (ps : List (ℕ × Option Response)) → slot_of k (remove k ps) ≡ none
unfolding slot_of remove
removed_lem k [] = refl
removed_lem k (p ∷ ps) = ground (arith, removed_lem k ps)

unfoldable absorb : ℕ → Response → Option Response → Option Response
unfolding has_id
absorb k r slot = if has_id k r.id then keep slot r else slot

has_id_iff : (j k : ℕ) (id : ℤ) → has_id j id ≡ true → has_id k id ≡ (j == k)
unfolding has_id
has_id_iff j k (pos n) h = ground arith
has_id_iff j k (negsuc n) h = cc

slot_of-offer :
    (k : ℕ) (r : Response) (ps : List (ℕ × Option Response)) (slot : Option Response)
    → slot_of k ps ≡ some slot
    → slot_of k (offer r ps) ≡ some (absorb k r slot)
unfolding slot_of offer absorb
slot_of-offer k r [] slot h = cc
slot_of-offer k r (p ∷ ps) slot h = ground (arith, has_id_iff p.0 k r.id, slot_of-offer k r ps slot)

slot_of-offer_absent :
    (k : ℕ) (r : Response) (ps : List (ℕ × Option Response))
    → slot_of k ps ≡ none
    → slot_of k (offer r ps) ≡ none
unfolding slot_of offer
slot_of-offer_absent k r [] h = refl
slot_of-offer_absent k r (p ∷ ps) h = ground (arith, slot_of-offer_absent k r ps)

slot_of-remove_absent :
    (j k : ℕ) (ps : List (ℕ × Option Response))
    → slot_of k ps ≡ none
    → slot_of k (remove j ps) ≡ none
unfolding slot_of remove
slot_of-remove_absent j k [] h = refl
slot_of-remove_absent j k (p ∷ ps) h = ground (arith, slot_of-remove_absent j k ps)

-- The numbers from `seq + 1` on are not in the table.
abbrev IsIssued : Requests → Type 0
IsIssued s = (k : ℕ) → suc s.seq ≤ k → slot_of k s.pending ≡ none

step-IsIssued : (s : Requests) (e : Event) → IsIssued s → IsIssued (step s e)
unfolding step
step-IsIssued s begins v = λ k h. unfold begin_request slot_of in ground (arith, v k)
step-IsIssued s (incoming none) v = λ k h. unfold handle_incoming_mcp in v k h
step-IsIssued s (incoming (some r)) v =
    λ k h. unfold handle_incoming_mcp in ground (arith, v k, slot_of-offer_absent k r s.pending)
step-IsIssued s (ends receives j) v =
    λ k h. unfold end_request in ground (arith, v k, slot_of-remove_absent j k s.pending)
step-IsIssued s (ends (gives_up e) j) v =
    λ k h. unfold end_request in ground (arith, v k, slot_of-remove_absent j k s.pending)

run-IsIssued : (s : Requests) (es : List Event) → IsIssued s → IsIssued (run s es)
unfolding run
run-IsIssued s [] v = v
run-IsIssued s (e ∷ es) v = run-IsIssued (step s e) es (step-IsIssued s e v)

-- The request `k` waits with `slot` in its channel.
record Waits (k : ℕ) (slot : Option Response) (s : Requests) : Type 0 where
  in_table : slot_of k s.pending ≡ some slot
  issued : k ≤ s.seq
  positive : 1 ≤ k

unfoldable or_later : Option Response → Option Response → Option Response
or_later (some r) later = some r
or_later none later = later

incoming-Waits :
    (k : ℕ) (slot : Option Response) (s : Requests) (r : Response)
    → Waits k slot s
    → Waits k (absorb k r slot) (handle_incoming_mcp (some r) s)
unfolding handle_incoming_mcp absorb
incoming-Waits k slot s r v = ground (arith, has_id_iff 0 k r.id, slot_of-offer k r s.pending slot)

absorb_later :
    (k : ℕ) (r : Response) (slot later : Option Response)
    → or_later (absorb k r slot) later ≡ or_later slot (if has_id k r.id then some r else later)
unfolding absorb or_later keep
absorb_later k r (some first) later = ground arith
absorb_later k r none later = ground arith

end_request-Waits :
    (k j : ℕ) (slot : Option Response) (s : Requests) (ending : Ending)
    → not (j == k) ≡ true
    → Waits k slot s
    → Waits k slot (end_request ending j s).0
unfolding end_request
end_request-Waits k j slot s receives h v = ground (arith, slot_of-remove j k s.pending)
end_request-Waits k j slot s (gives_up e) h v = ground (arith, slot_of-remove j k s.pending)

run-Waits :
    (k : ℕ) (es : List Event) (slot : Option Response) (s : Requests)
    → Waits k slot s
    → goes_on k es ≡ true
    → Waits k (or_later slot (first_response k es)) (run s es)
unfolding run goes_on first_response or_later step handle_incoming_mcp
run-Waits k [] (some r) s v h = v
run-Waits k [] none s v h = v
run-Waits k (begins ∷ es) slot s v h =
    run-Waits k es slot (begin_request s) (unfold begin_request slot_of in ground arith) h
run-Waits k (incoming none ∷ es) slot s v h = run-Waits k es slot s v h
run-Waits k (incoming (some r) ∷ es) slot s v h =
    subst (λ x. Waits k x (run (handle_incoming_mcp (some r) s) es))
      (absorb_later k r slot (first_response k es))
      (run-Waits k es _ (handle_incoming_mcp (some r) s) (incoming-Waits k slot s r v) h)
run-Waits k (ends ending j ∷ es) slot s v h =
    run-Waits k es slot (end_request ending j s).0
      (end_request-Waits k j slot s ending (ground arith) v) (ground arith)

-- What the next request is promised at `s`, while `during` happens.
pub record IsMatched (s : Requests) (during : List Event) : Type 0 where
  pub number_is_new : slot_of (suc s.seq) s.pending ≡ none
  pub gets_first :
      (end_request receives (suc s.seq) (run (begin_request s) during)).1
      ≡ Option.map outcome (first_response (suc s.seq) during)
  pub number_is_removed :
      (ending : Ending) (o : McpError ⊎ Response)
      → (end_request ending (suc s.seq) (run (begin_request s) during)).1 ≡ some o
      → slot_of
          (suc s.seq)
          (end_request ending (suc s.seq) (run (begin_request s) during)).0.pending
        ≡ none

begin_request-Waits : (s : Requests) → Waits (suc s.seq) none (begin_request s)
unfolding begin_request slot_of
begin_request-Waits s = ground arith

received_lem :
    (k : ℕ) (slot : Option Response) (s : Requests)
    → slot_of k s.pending ≡ some slot
    → (end_request receives k s).1 ≡ Option.map outcome slot
unfolding end_request
received_lem k (some r) s h = ground arith
received_lem k none s h = ground arith

ended_lem :
    (k : ℕ) (s : Requests) (ending : Ending) (o : McpError ⊎ Response)
    → (end_request ending k s).1 ≡ some o
    → slot_of k (end_request ending k s).0.pending ≡ none
unfolding end_request
ended_lem k s receives o h = ground (arith, removed_lem k s.pending)
ended_lem k s (gives_up e) o h = removed_lem k s.pending

-- In every interleaving of requests, responses and timeouts: the number of a new request is not in the
-- table; until it ends, the response it can receive is the first that came with its number since; and
-- however it ends, its number leaves the table.
pub run-begin_request-IsMatched :
    (before during : List Event)
    → goes_on (suc (run no_requests before).seq) during ≡ true
    → IsMatched (run no_requests before) during
unfolding or_later
run-begin_request-IsMatched before during h =
    let s = run no_requests before in
    record {
      number_is_new =
          run-IsIssued no_requests before (λ k l. unfold no_requests slot_of in refl) (suc s.seq)
            (omega arith);
      gets_first =
          received_lem _ _ _
            (run-Waits (suc s.seq) during none _ (begin_request-Waits s) h).in_table;
      number_is_removed = ended_lem _ _;
    }
