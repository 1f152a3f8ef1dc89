-- ===== src/Session/Registry/Tests.antt =====
-- The theorems on the registry at concrete inputs.
use xiaozhi_esp32_golang_ser.Prelude.{ℕ, ◌≢◌, refl, true, false, List, [], ◌∷◌, arith}
use xiaozhi_esp32_golang_ser.Session.Limiter.{SessionLimiter}
use xiaozhi_esp32_golang_ser.Session.Registry.{Registry, new_registry}
use xiaozhi_esp32_golang_ser.Session.Registry.Laws.{
  Call, registers, unregisters, IsSound, run, run-new_registry-IsSound,
}

abbrev full : SessionLimiter
full = record { active = 1; max = 1; onces = true ∷ false ∷ [] }

abbrev registry : Registry
registry = record {
  limiter = full;
  sessions = [];
  by_device = [];
  waiting = 0;
  closed = false;
  cleanups = [];
  onces = [];
}

abbrev registry_calls : List Call
registry_calls = registers 4 (1 ∷ []) (1 ∷ []) ∷ unregisters 0 ∷ unregisters 0 ∷ []

run-new_registry-IsSound_example : IsSound (run (new_registry full) registry_calls)
run-new_registry-IsSound_example = run-new_registry-IsSound full registry_calls

registry-IsSound : IsSound registry
registry-IsSound = record { aligned = refl; counted = refl }

two_sessions : ◌≢◌ {A = ℕ} 4 5
two_sessions = omega arith
