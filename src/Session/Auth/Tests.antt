-- ===== src/Session/Auth/Tests.antt =====
-- The theorems on the upgrade's checks at concrete inputs.
use xiaozhi_esp32_golang_ser.Prelude.{ℕ, ◌≡◌, ◌↔◌, some, List, [], ◌∷◌}
use xiaozhi_esp32_golang_ser.Session.Message.{Text}
use xiaozhi_esp32_golang_ser.Session.Message.Parse.{codes}
use xiaozhi_esp32_golang_ser.Session.Auth.{Header, client_info, admitted, authenticate_upgrade}
use xiaozhi_esp32_golang_ser.Session.Auth.Laws.{IsAdmitted, authenticate_upgrade_iff}

abbrev headers : Header
headers =
    (codes "Protocol-Version", codes " 1" ∷ [])
    ∷ (codes "Authorization", codes "Bearer secret" ∷ [])
    ∷ []

-- A digest that keeps its text apart from every other.
abbrev digest : Text → List ℕ
digest t = t

authenticate_upgrade_iff_example :
    (authenticate_upgrade digest (some headers) (codes "secret") 0 ≡ admitted (client_info headers))
    ↔ IsAdmitted digest headers (codes "secret") 0 (client_info headers)
authenticate_upgrade_iff_example =
    authenticate_upgrade_iff digest headers (codes "secret") 0 (client_info headers)
      (λ e. absurd cc, (λ e. absurd cc, tt))
