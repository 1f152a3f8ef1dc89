-- ===== src/Session/Handler/Laws.antt =====
-- A request gives back what it took.
use xiaozhi_esp32_golang_ser.Prelude.{
  ℕ, ◌+◌, ◌≡◌, ◌≢◌, inl, inr, refl, Bool, true, false, some, List, [], ◌∷◌, ◌++◌, length, arith,
  All, Bool-cases,
}
use xiaozhi_esp32_golang_ser.Session.Limiter.{SessionLimiter, try_acquire, release}
use xiaozhi_esp32_golang_ser.Session.Message.{Text}
use xiaozhi_esp32_golang_ser.Session.Auth.{
  ClientHeaderInfo, Admission, admitted, rejected, authenticate_upgrade,
}
use xiaozhi_esp32_golang_ser.Session.Registry.{
  Registry, remove, acquire, register, unregister, shutdown, device_key, clean, release_all,
}
use xiaozhi_esp32_golang_ser.Session.Registry.Laws.{IsSound, fires-append, get_elem?-append}
use xiaozhi_esp32_golang_ser.Session.Message.Parse.{text_eq, codes}
use xiaozhi_esp32_golang_ser.Session.Handler.{
  HandlerConfig, Request, serve_http, serve_client, serve_slot, run_registered,
}

remove_fresh : (s : ℕ) (ts : List ℕ) → All (λ t. t ≢ s) ts → remove s ts ≡ ts
unfolding remove
remove_fresh s [] h = refl
remove_fresh s (t ∷ ts) h = ground (arith, remove_fresh s ts h.1)

abbrev pub quiet : Registry → Registry
quiet r = r

-- A shutdown comes in between, or nothing.
abbrev pub may_shut : Bool → Registry → Registry
may_shut true r = (shutdown r).0
may_shut false r = r

remove_gone : (s : ℕ) (ts : List ℕ) → All (λ t. t ≢ s) ts → remove s (s ∷ remove s ts) ≡ ts
unfolding remove
remove_gone s ts h = ground (arith, remove_fresh s ts h)

-- What a finished request leaves of the registry.
pub record GivesBack (r t : Registry) : Type 0 where
  pub same_active : t.limiter.active ≡ r.limiter.active
  pub same_sessions : t.sessions ≡ r.sessions
  pub same_waiting : t.waiting ≡ r.waiting

GivesBack-refl : (r : Registry) → GivesBack r r
GivesBack-refl r = record { same_active = refl; same_sessions = refl; same_waiting = refl }

release_granted :
    (l : SessionLimiter)
    → (release
        (length l.onces)
        (record l { active = l.active + 1; onces = l.onces ++ false ∷ [] })).active
      ≡ l.active
unfolding release
release_granted l = ground (arith, fires-append l.onces [])

-- A registry that has granted a slot.
abbrev granted : Registry → Registry
granted r =
    let l = r.limiter in
    record r { limiter = record l { active = l.active + 1; onces = l.onces ++ false ∷ [] } }

run_registered_refused :
    (sha256 : Text → List ℕ) (s : ℕ) (key : Text) (slot : ℕ) (r : Registry)
    → r.closed ≡ true
    → let t = run_registered sha256 quiet quiet slot (register s key (slot ∷ []) r) in
      (t.0.limiter ≡ release slot r.limiter)
      × (t.0.sessions ≡ r.sessions)
      × (t.0.waiting ≡ r.waiting)
unfolding run_registered register
run_registered_refused sha256 s key slot r shut = ground arith

run_registered-GivesBack :
    (sha256 : Text → List ℕ) (s : ℕ) (key : Text) (slot : ℕ) (r : Registry)
    → length r.cleanups ≡ length r.onces
    → All (λ t. t ≢ s) r.sessions
    → let t = run_registered sha256 quiet quiet slot (register s key (slot ∷ []) r) in
      (t.0.limiter ≡ release slot r.limiter)
      × (t.0.sessions ≡ r.sessions)
      × (t.0.waiting ≡ r.waiting)
unfolding run_registered register unregister clean release_all remove
run_registered-GivesBack sha256 s key slot r aligned fresh = ground (
  arith,
  fires-append r.onces [],
  get_elem?-append r.cleanups [] (record { session = s; key = key; releases = slot ∷ [] }),
  remove_fresh s r.sessions fresh,
  remove_gone s r.sessions fresh,
)

serve_slot-GivesBack :
    (sha256 : Text → List ℕ) (closing : Bool) (req : Request) (info : ClientHeaderInfo)
    (r : Registry)
    → length r.cleanups ≡ length r.onces
    → All (λ t. t ≢ req.address) r.sessions
    → GivesBack r (serve_slot sha256 (may_shut closing) quiet req info (acquire r)).0
unfolding serve_slot acquire try_acquire shutdown
serve_slot-GivesBack sha256 true req info r aligned fresh =
    let held : Registry = record (granted r) { closed = true } in
    let key = device_key (some info) in
    ground (
      arith,
      run_registered_refused sha256 req.address key (length r.limiter.onces) held refl,
      release_granted r.limiter,
    )
serve_slot-GivesBack sha256 false req info r aligned fresh =
    let held : Registry = granted r in
    let key = device_key (some info) in
    ground (
      arith,
      run_registered-GivesBack sha256 req.address key (length r.limiter.onces) held aligned fresh,
      release_granted r.limiter,
    )

serve_client-GivesBack :
    (sha256 : Text → List ℕ) (closing : Bool) (req : Request) (a : Admission) (r : Registry)
    → length r.cleanups ≡ length r.onces
    → All (λ t. t ≢ req.address) r.sessions
    → GivesBack r (serve_client sha256 (may_shut closing) quiet req a r).0
unfolding serve_client
serve_client-GivesBack sha256 closing req (rejected e) r aligned fresh = GivesBack-refl r
serve_client-GivesBack sha256 closing req (admitted info) r aligned fresh =
    serve_slot-GivesBack sha256 closing req info r aligned fresh

-- Whatever becomes of a request (a wrong path, a refused client, no free slot, a failed upgrade, a shutdown
-- that comes after its admission, or a session that ran), once it is over, if no other request came in
-- between, the registry counts as many active and awaited sessions as before, and holds the same.
pub serve_http-GivesBack :
    (sha256 : Text → List ℕ) (closing : Bool) (cfg : HandlerConfig) (req : Request) (r : Registry)
    → IsSound r
    → All (λ t. t ≢ req.address) r.sessions
    → GivesBack r (serve_http sha256 (may_shut closing) quiet cfg req r).0
unfolding serve_http
serve_http-GivesBack sha256 closing cfg req r v fresh =
    elim (Bool-cases (text_eq req.path (codes "/xiaozhi/v1/"))) [
      | inl good ↦ rw good (
          serve_client-GivesBack sha256 closing req
            (authenticate_upgrade sha256 (some req.headers) cfg.device_shared_token
              cfg.max_http_header_bytes)
            r v.aligned fresh)
      | inr bad ↦ rw bad (GivesBack-refl r)
    ]
