-- ===== src/Session/Message/TextLaws.antt =====
-- The comparison of texts is equality, and a prefix is taken off or is not there.
use xiaozhi_esp32_golang_ser.Prelude.{◌≡◌, ◌↔◌, refl, true, [], ◌∷◌, arith}
use xiaozhi_esp32_golang_ser.Session.Message.{Text}
use xiaozhi_esp32_golang_ser.Session.Message.Parse.{text_eq}

pub text_eq_refl : (t : Text) → text_eq t t ≡ true
unfolding text_eq
text_eq_refl [] = refl
text_eq_refl (c ∷ t) = ground (arith, text_eq_refl t)

pub text_eq→eq : (s t : Text) → text_eq s t ≡ true → s ≡ t
unfolding text_eq
text_eq→eq [] [] h = refl
text_eq→eq [] (d ∷ t) h = ground arith
text_eq→eq (c ∷ s) [] h = ground arith
text_eq→eq (c ∷ s) (d ∷ t) h = ground (arith, text_eq→eq s t)

pub text_eq_iff : (s t : Text) → (text_eq s t ≡ true) ↔ (s ≡ t)
text_eq_iff s t = (text_eq→eq s t, λ e. rw e (text_eq_refl t))
