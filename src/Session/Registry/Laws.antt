-- ===== src/Session/Registry/Laws.antt =====
-- What the registry keeps true: the devices, the sessions waited for, and the refusal after shutdown.
use xiaozhi_esp32_golang_ser.Prelude.{
  ℕ, zero, suc, ◌+◌, ◌≡◌, ◌≢◌, refl, sym, ap, Bool, true, false, none, some, List, [], ◌∷◌, ◌++◌,
  length, get_elem?, arith, length-append, append_assoc,
}
use xiaozhi_esp32_golang_ser.Session.Limiter.{
  SessionLimiter, fires, fire, pending, pending_grant, pending-fire, fires-fire,
}
use xiaozhi_esp32_golang_ser.Session.Message.{Text}
use xiaozhi_esp32_golang_ser.Session.Message.Parse.{text_eq}
use xiaozhi_esp32_golang_ser.Session.Message.TextLaws.{text_eq_refl, text_eq→eq}
use xiaozhi_esp32_golang_ser.Session.Registry.{
  Registry, Cleanup, new_registry, lookup, delete, acquire, register, unregister, shutdown, clean,
  own_device, disown_device, evicted, other_than, get_by_device,
}

lookup-delete :
    (k k' : Text) (m : List (Text × ℕ))
    → text_eq k k' ≡ false
    → lookup k' (delete k m) ≡ lookup k' m
unfolding lookup delete
lookup-delete k k' [] h = refl
lookup-delete k k' ((j, s) ∷ m) h = ground (arith, lookup-delete k k' m h, text_eq→eq j k)

lookup-delete_same : (k : Text) (m : List (Text × ℕ)) → lookup k (delete k m) ≡ none
unfolding lookup delete
lookup-delete_same k [] = refl
lookup-delete_same k ((j, s) ∷ m) = ground (arith, lookup-delete_same k m)

text_eq_other : (s t : Text) → s ≢ t → text_eq s t ≡ false
text_eq_other s t h = ground (arith, text_eq→eq s t)

-- A session that an open registry takes becomes the one of its device, whose other session is named for
-- closing; other devices keep theirs.
pub register_lem :
    (s : ℕ) (c : ℕ) (key other : Text) (releases : List ℕ) (r : Registry)
    → r.closed ≡ false
    → other ≢ c ∷ key
    → let (t, cleanup, old) = register s (c ∷ key) releases r in
      (get_by_device (c ∷ key) t ≡ some s)
      × (get_by_device other t ≡ get_by_device other r)
      × (old ≡ other_than s (get_by_device (c ∷ key) r))
      × (cleanup ≡ some (length r.onces))
unfolding register own_device evicted get_by_device lookup
register_lem s c key other releases r h ne = ground (
  arith,
  text_eq_refl (c ∷ key),
  text_eq_other (c ∷ key) other (λ e. ne (sym e)),
  lookup-delete (c ∷ key) other r.by_device,
)

-- What may happen to a registry.
pub data Call : Type 0 where
  acquires shuts_down : Call
  registers : ℕ → Text → List ℕ → Call
  unregisters : ℕ → Call

unfoldable pub step : Registry → Call → Registry
step r acquires = (acquire r).0
step r shuts_down = (shutdown r).0
step r (registers s key releases) = (register s key releases r).0
step r (unregisters i) = unregister i r

unfoldable pub run : Registry → List Call → Registry
run r [] = r
run r (c ∷ cs) = run (step r c) cs

-- Each cleanup function has its `Once`, and the sessions waited for are those not cleaned up yet.
pub record IsSound (r : Registry) : Type 0 where
  pub aligned : length r.cleanups ≡ length r.onces
  pub counted : r.waiting ≡ pending r.onces

length-fire : (os : List Bool) (i : ℕ) → length (fire os i) ≡ length os
unfolding fire
length-fire [] i = refl
length-fire (o ∷ os) zero = refl
length-fire (o ∷ os) (suc i) = ap suc (length-fire os i)

step-IsSound : (r : Registry) (c : Call) → IsSound r → IsSound (step r c)
unfolding step acquire shutdown register unregister clean
step-IsSound r acquires v = ground arith
step-IsSound r shuts_down v = ground arith
step-IsSound r (registers s key releases) v = ground (
  arith,
  pending_grant r.onces,
  length-append r.onces (false ∷ []),
  length-append r.cleanups (record { session = s; key = key; releases = releases } ∷ []),
)
step-IsSound r (unregisters i) v = ground (arith, length-fire r.onces i, pending-fire r.onces i)

run-IsSound : (r : Registry) (cs : List Call) → IsSound r → IsSound (run r cs)
unfolding run
run-IsSound r [] v = v
run-IsSound r (c ∷ cs) v = run-IsSound (step r c) cs (step-IsSound r c v)

-- After any calls in any order, cleanups repeated at will, the wait group counts exactly the registered
-- sessions whose cleanup has not run yet.
pub run-new_registry-IsSound :
    (limiter : SessionLimiter) (cs : List Call) → IsSound (run (new_registry limiter) cs)
unfolding new_registry
run-new_registry-IsSound limiter cs =
    run-IsSound (new_registry limiter) cs (record { aligned = refl; counted = refl })

-- A second call of a cleanup function changes nothing.
pub unregister_twice : (i : ℕ) (r : Registry) → unregister i (unregister i r) ≡ unregister i r
unfolding unregister clean
unregister_twice i r = ground (arith, fires-fire r.onces i)

shutdown-closed : (r : Registry) → (shutdown r).0.closed ≡ true
unfolding shutdown
shutdown-closed r = ground arith

closed-step : (r : Registry) (c : Call) → r.closed ≡ true → (step r c).closed ≡ true
unfolding step acquire shutdown register unregister clean
closed-step r acquires h = ground arith
closed-step r shuts_down h = ground arith
closed-step r (registers s key releases) h = ground arith
closed-step r (unregisters i) h = ground arith

closed-run : (r : Registry) (cs : List Call) → r.closed ≡ true → (run r cs).closed ≡ true
unfolding run
closed-run r [] h = h
closed-run r (c ∷ cs) h = closed-run (step r c) cs (closed-step r c h)

-- After a shutdown, whatever is called then, nothing is admitted and nothing is registered any more.
pub shutdown_refuses :
    (r : Registry) (cs : List Call) (s : ℕ) (key : Text) (releases : List ℕ)
    → let t = run (shutdown r).0 cs in
      (acquire t ≡ (t, none)) × (register s key releases t ≡ (t, none, none))
unfolding acquire register
shutdown_refuses r cs s key releases =
    let h : (run (shutdown r).0 cs).closed ≡ true =
      closed-run (shutdown r).0 cs (shutdown-closed r) in
    (ground arith, ground arith)

pub fires-append : (os rest : List Bool) → fires (os ++ false ∷ rest) (length os) ≡ true
unfolding fires
fires-append [] rest = refl
fires-append (o ∷ os) rest = fires-append os rest

pub get_elem?-append :
    (cs rest : List Cleanup) (c : Cleanup) → get_elem? (cs ++ c ∷ rest) (length cs) ≡ some c
get_elem?-append [] rest c = refl
get_elem?-append (d ∷ cs) rest c = get_elem?-append cs rest c

-- A device that connects again: its older session is named for closing, and when that one is cleaned up
-- the device keeps its new session, the older one no longer being waited for.
pub reconnect_lem :
    (s t c : ℕ) (key : Text) (rs rt : List ℕ) (r : Registry)
    → IsSound r
    → r.closed ≡ false
    → s ≢ t
    → let first = register s (c ∷ key) rs r in
      let second = register t (c ∷ key) rt first.0 in
      let gone = unregister (length r.onces) second.0 in
      (second.2 ≡ some s) × (get_by_device (c ∷ key) gone ≡ some t) × (gone.waiting ≡ r.waiting + 1)
unfolding register own_device evicted get_by_device lookup unregister clean disown_device other_than
reconnect_lem s t c key rs rt r v running ne = ground (
  arith,
  text_eq_refl (c ∷ key),
  fires-append r.onces (false ∷ []),
  append_assoc r.onces (false ∷ []) (false ∷ []),
  append_assoc r.cleanups (record { session = s; key = c ∷ key; releases = rs } ∷ [])
      (record { session = t; key = c ∷ key; releases = rt } ∷ []),
  get_elem?-append r.cleanups (record { session = t; key = c ∷ key; releases = rt } ∷ [])
      (record { session = s; key = c ∷ key; releases = rs }),
)
