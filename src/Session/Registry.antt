-- ===== src/Session/Registry.antt =====
-- `Registry` of internal/session/registry.go, and the device key of session.go. A session is a number, its
-- address. The map from devices to sessions is an association list, the set of sessions a list. Each
-- cleanup function that `Register` returned is an index into `cleanups`, with its `Once` in `onces`. Each
-- method is one step; closing the sessions that it names is left to its caller. A nil session, which `Register`
-- refuses, does not occur.
pub mod Laws
mod Tests
use xiaozhi_esp32_golang_ser.Prelude.{
  ℕ, ◌+◌, ◌-◌, Bool, true, false, Option, none, some, List, [], ◌∷◌, ◌++◌, length, ◌==◌,
  if◌then◌else◌, get_elem?,
}
use xiaozhi_esp32_golang_ser.Session.Limiter.{SessionLimiter, try_acquire, release, fires, fire}
use xiaozhi_esp32_golang_ser.Session.Message.{Text}
use xiaozhi_esp32_golang_ser.Session.Auth.{ClientHeaderInfo}
use xiaozhi_esp32_golang_ser.Session.Message.Parse.{text_eq}

-- The serial number, else the device's address, else the client's id.
unfoldable pub device_key : Option ClientHeaderInfo → Text
device_key none = []
device_key (some info) = first_of info.serial_number (first_of info.device_id info.client_id)
  where
    first_of : Text → Text → Text
    first_of [] other = other
    first_of (c ∷ cs) other = c ∷ cs

-- `releases` holds the release functions of the limiter that go with the session.
pub record Cleanup : Type 0 where
  pub session : ℕ
  pub key : Text
  pub releases : List ℕ

pub record Registry : Type 0 where
  pub limiter : SessionLimiter
  pub sessions : List ℕ
  pub by_device : List (Text × ℕ)
  pub waiting : ℕ
  pub closed : Bool
  pub cleanups : List Cleanup
  pub onces : List Bool

unfoldable pub new_registry : SessionLimiter → Registry
new_registry limiter = record {
  limiter = limiter;
  sessions = [];
  by_device = [];
  waiting = 0;
  closed = false;
  cleanups = [];
  onces = [];
}

-- The operations of a Go map and of a set.
unfoldable pub lookup : Text → List (Text × ℕ) → Option ℕ
lookup k [] = none
lookup k ((k', s) ∷ m) = if text_eq k' k then some s else lookup k m

unfoldable pub delete : Text → List (Text × ℕ) → List (Text × ℕ)
delete k [] = []
delete k ((k', s) ∷ m) = let rest = delete k m in if text_eq k' k then rest else (k', s) ∷ rest

unfoldable pub remove : ℕ → List ℕ → List ℕ
remove s [] = []
remove s (t ∷ ts) = let rest = remove s ts in if t == s then rest else t ∷ rest

unfoldable pub active_count : Registry → ℕ
active_count r = length r.sessions

unfoldable pub get_by_device : Text → Registry → Option ℕ
get_by_device key r = lookup key r.by_device

unfoldable pub acquire : Registry → Registry × Option ℕ
acquire r =
    if r.closed
    then (r, none)
    else (record r { limiter = (try_acquire r.limiter).0 }, (try_acquire r.limiter).1)

unfoldable pub other_than : ℕ → Option ℕ → Option ℕ
other_than s none = none
other_than s (some old) = if old == s then none else some old

unfoldable pub own_device : Text → ℕ → List (Text × ℕ) → List (Text × ℕ)
own_device [] s m = m
own_device (c ∷ key) s m = (c ∷ key, s) ∷ delete (c ∷ key) m

unfoldable pub evicted : Text → ℕ → List (Text × ℕ) → Option ℕ
unfolding other_than
evicted [] s m = none
evicted (c ∷ key) s m = other_than s (lookup (c ∷ key) m)

-- The registry, the cleanup function or a refusal, and the older session to close.
unfoldable pub register : ℕ → Text → List ℕ → Registry → Registry × Option ℕ × Option ℕ
register s key releases r = if r.closed then (r, none, none) else (
  record r {
    sessions = s ∷ remove s r.sessions;
    by_device = own_device key s r.by_device;
    waiting = r.waiting + 1;
    cleanups = r.cleanups ++ record { session = s; key = key; releases = releases } ∷ [];
    onces = r.onces ++ false ∷ [];
  },
  some (length r.onces),
  evicted key s r.by_device,
)

unfoldable pub release_all : List ℕ → SessionLimiter → SessionLimiter
release_all [] l = l
release_all (i ∷ is) l = release_all is (release i l)

-- The device is given up only by the session that still owns it.
unfoldable pub disown_device : Text → ℕ → List (Text × ℕ) → List (Text × ℕ)
disown_device [] s m = m
disown_device (c ∷ key) s m = elim (lookup (c ∷ key) m) [
  | none ↦ m
  | some owner ↦ if owner == s then delete (c ∷ key) m else m
]

unfoldable pub clean : Cleanup → Registry → Registry
unfolding disown_device
clean c r = record r {
  sessions = remove c.session r.sessions;
  by_device = disown_device c.key c.session r.by_device;
  limiter = release_all c.releases r.limiter;
  waiting = r.waiting - 1;
}

-- A cleanup function, called.
unfoldable pub unregister : ℕ → Registry → Registry
unfolding clean
unregister i r = elim (get_elem? r.cleanups i) [
  | none ↦ r
  | some c ↦ if fires r.onces i then clean c (record r { onces = fire r.onces i }) else r
]

-- The sessions to close, none at a second call; the wait for them is that `waiting` becomes 0.
unfoldable pub shutdown : Registry → Registry × List ℕ
shutdown r = if r.closed then (r, []) else (record r { closed = true }, r.sessions)
