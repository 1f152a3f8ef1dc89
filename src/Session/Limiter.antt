-- ===== src/Session/Limiter.antt =====
-- `SessionLimiter` of internal/session/limiter.go. Each granted release function owns a `sync.Once`; the
-- model keeps those of all grants in `onces`, `true` once it has fired, and a release function is the
-- index of its `Once`. The mutex makes each call one step, so a concurrent run is a list of calls.
use xiaozhi_esp32_golang_ser.Prelude.{
  ℕ, zero, suc, ◌+◌, ◌-◌, ◌≤◌, ◌≡◌, refl, Bool, true, false, Option, none, some, List, [], ◌∷◌,
  ◌++◌, length, leb, ◌==◌, if◌then◌else◌, arith, ap,
}

pub record SessionLimiter : Type 0 where
  pub active : ℕ
  pub max : ℕ
  pub onces : List Bool

-- A maximum that is not positive, 0 here, becomes 1.
unfoldable pub new_session_limiter : ℕ → SessionLimiter
new_session_limiter max_concurrent_sessions = record {
  active = 0;
  max = if max_concurrent_sessions == 0 then 1 else max_concurrent_sessions;
  onces = [];
}

unfoldable pub try_acquire : SessionLimiter → SessionLimiter × Option ℕ
try_acquire l =
    if leb l.max l.active
    then (l, none)
    else (record l { active = l.active + 1; onces = l.onces ++ false ∷ [] }, some (length l.onces))

-- `once.Do`: whether this call runs the body, and the fired `Once`.
unfoldable pub fires : List Bool → ℕ → Bool
fires [] i = false
fires (fired ∷ os) zero = elim fired [ true ↦ false | false ↦ true ]
fires (fired ∷ os) (suc i) = fires os i

unfoldable pub fire : List Bool → ℕ → List Bool
fire [] i = []
fire (fired ∷ os) zero = true ∷ os
fire (fired ∷ os) (suc i) = fired ∷ fire os i

-- A release function, called. `active--` is exact: a `Once` that has not fired counts in `active`.
unfoldable pub release : ℕ → SessionLimiter → SessionLimiter
release i l =
    if fires l.onces i then record l { active = l.active - 1; onces = fire l.onces i } else l

pub data Call : Type 0 where
  acquires : Call
  releases : ℕ → Call

unfoldable pub step : SessionLimiter → Call → SessionLimiter
step l acquires = (try_acquire l).0
step l (releases i) = release i l

unfoldable pub run : SessionLimiter → List Call → SessionLimiter
run l [] = l
run l (c ∷ cs) = run (step l c) cs

-- The grants that are not released yet.
abbrev pub pending : List Bool → ℕ
pending [] = 0
pending (true ∷ os) = pending os
pending (false ∷ os) = suc (pending os)

pub record IsSound (l : SessionLimiter) : Type 0 where
  pub counted : l.active ≡ pending l.onces
  pub bounded : l.active ≤ l.max

pub pending_grant : (os : List Bool) → pending (os ++ false ∷ []) ≡ suc (pending os)
pending_grant [] = refl
pending_grant (true ∷ os) = pending_grant os
pending_grant (false ∷ os) = ap suc (pending_grant os)

pub pending-fire :
    (os : List Bool) (i : ℕ) → fires os i ≡ true → suc (pending (fire os i)) ≡ pending os
unfolding fires fire
pending-fire [] i h = cc
pending-fire (true ∷ os) zero h = cc
pending-fire (false ∷ os) zero h = refl
pending-fire (true ∷ os) (suc i) h = pending-fire os i h
pending-fire (false ∷ os) (suc i) h = ap suc (pending-fire os i h)

pub fires-fire : (os : List Bool) (i : ℕ) → fires (fire os i) i ≡ false
unfolding fires fire
fires-fire [] i = refl
fires-fire (fired ∷ os) zero = refl
fires-fire (fired ∷ os) (suc i) = fires-fire os i

step-IsSound : (l : SessionLimiter) (c : Call) → IsSound l → IsSound (step l c)
unfolding step try_acquire release
step-IsSound l acquires v = ground (arith, pending_grant l.onces)
step-IsSound l (releases i) v = ground (arith, pending-fire l.onces i)

run-IsSound : (l : SessionLimiter) (cs : List Call) → IsSound l → IsSound (run l cs)
unfolding run
run-IsSound l [] v = v
run-IsSound l (c ∷ cs) v = run-IsSound (step l c) cs (step-IsSound l c v)

new-IsSound : (n : ℕ) → IsSound (new_session_limiter n)
unfolding new_session_limiter
new-IsSound n = ground arith

-- After any calls, in any order and with releases repeated at will, the active count is the number of
-- grants not yet released, and it does not exceed the maximum.
pub run-new-IsSound : (n : ℕ) (cs : List Call) → IsSound (run (new_session_limiter n) cs)
run-new-IsSound n cs = run-IsSound _ cs (new-IsSound n)

-- A second call of a release function changes nothing.
pub release_twice : (i : ℕ) (l : SessionLimiter) → release i (release i l) ≡ release i l
unfolding release
release_twice i l = ground (arith, fires-fire l.onces i)

-- A full limiter refuses. Once one outstanding grant is released it grants again.
pub acquire-release :
    (l : SessionLimiter) (i : ℕ)
    → IsSound l
    → l.active ≡ l.max
    → fires l.onces i ≡ true
    → ((try_acquire l).1 ≡ none) × ((try_acquire (release i l)).1 ≡ some (length (fire l.onces i)))
unfolding try_acquire release
acquire-release l i v full held = ground (arith, pending-fire l.onces i)
