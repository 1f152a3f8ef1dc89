-- ===== src/Database/Tests.antt =====
-- A table held as a list keeps the laws of gorm, and the theorems on the tables at concrete inputs.
use mathlib.Core.List.{Memᴰ}
use mathlib.Core.List.Memᴰ.{head, tail}
use xiaozhi_esp32_golang_ser.Prelude.{
  ℕ, suc, ◌≡◌, ◌≢◌, refl, sym, ap, inl, inr, Bool, true, false, not, some, List, [], ◌∷◌, ◌++◌,
  length, keep, All, if◌then◌else◌, arith, Bool-cases,
}
use xiaozhi_esp32_golang_ser.Session.Splitter.{trim_space}
use xiaozhi_esp32_golang_ser.Session.Message.{Text}
use xiaozhi_esp32_golang_ser.Session.Message.Parse.{text_eq, codes}
use xiaozhi_esp32_golang_ser.Session.Message.TextLaws.{text_eq_refl}
use xiaozhi_esp32_golang_ser.Database.{
  Query, found, record_not_found, Created, created, create_failed, affected, listed, Gorm,
}
use xiaozhi_esp32_golang_ser.Database.Laws.{IsGorm, update_rows}
use xiaozhi_esp32_golang_ser.Database.Activation
use xiaozhi_esp32_golang_ser.Database.Activation.Blocked.{
  put_id as activation_id, upsert_keeps_blocked,
}
use xiaozhi_esp32_golang_ser.Database.UserRef
use xiaozhi_esp32_golang_ser.Database.UserRef.Binding.{
  put_id as ref_id, IsBound, bind_device-IsBound,
}

module _ {Row : Type 0} (serial : Row → Text) (put_id : ℕ → Row → Row) where
  first_row : (Row → Bool) → List Row → Query Row
  first_row p [] = record_not_found
  first_row p (r ∷ rows) = let rest = first_row p rows in if p r then found r else rest

  has_row : Text → List Row → Bool
  has_row sn [] = false
  has_row sn (r ∷ rows) = let rest = has_row sn rows in if text_eq (serial r) sn then true else rest

  add_row : Row → List Row → List Row × Created Row
  add_row r rows =
      let r' = put_id (suc (length rows)) r in
      if has_row (serial r) rows then (rows, create_failed 0) else (rows ++ r' ∷ [], created r')

  unfoldable list_gorm : Gorm (List Row) Row
  list_gorm = record {
    same_text = text_eq;
    take = first_row;
    take_newest = first_row;
    find_newest = λ p rows. listed (keep p rows);
    create = add_row;
    update = λ p f rows. (update_rows p f rows, affected (length (keep p rows)));
    delete = λ p rows. (keep (λ r. not (p r)) rows, affected (length (keep p rows)));
  }

  first_row_found :
      (p : Row → Bool) (rows : List Row) (r : Row)
      → first_row p rows ≡ found r
      → Memᴰ r rows × (p r ≡ true)
  unfolding first_row
  first_row_found p [] r h = absurd cc
  first_row_found p (x ∷ rows) r h = elim (Bool-cases (p x)) [
    | inl e ↦ (head (ground arith), ground arith)
    | inr e ↦ let rest = first_row_found p rows r (ground arith) in (tail rest.0, rest.1)
  ]

  first_row_none :
      (p : Row → Bool) (rows : List Row)
      → first_row p rows ≡ record_not_found
      → All (λ r. p r ≡ false) rows
  unfolding first_row
  first_row_none p [] h = tt
  first_row_none p (x ∷ rows) h = elim (Bool-cases (p x)) [
    | inl e ↦ absurd (ground arith)
    | inr e ↦ (e, first_row_none p rows (ground arith))
  ]

  no_row : (sn : Text) (rows : List Row) → has_row sn rows ≡ false → All (λ x. serial x ≢ sn) rows
  unfolding has_row
  no_row sn [] h = tt
  no_row sn (x ∷ rows) h = (
    λ e. ground (arith, text_eq_refl sn, ap (λ t. text_eq t sn) e),
    no_row sn rows (ground arith),
  )

  add_row_created :
      (r r' : Row) (rows after : List Row)
      → add_row r rows ≡ (after, created r')
      → (after ≡ rows ++ r' ∷ [])
        × (((i : ℕ) × (r' ≡ put_id i r)) × All (λ x. serial x ≢ serial r) rows)
  unfolding add_row
  add_row_created r r' rows after h = elim (Bool-cases (has_row (serial r) rows)) [
    | inl e ↦ absurd (ground arith)
    | inr e ↦ (ground arith, ((suc (length rows), ground arith), no_row (serial r) rows e))
  ]

  add_row_failed :
      (r : Row) (e : ℕ) (rows after : List Row)
      → add_row r rows ≡ (after, create_failed e)
      → after ≡ rows
  unfolding add_row
  add_row_failed r e rows after h = ground arith

  list-IsGorm : IsGorm list_gorm (λ rows. rows) serial put_id
  unfolding list_gorm
  list-IsGorm = record {
    same_refl = text_eq_refl;
    takes_row = first_row_found;
    takes_none = first_row_none;
    creates = add_row_created;
    creates_none = add_row_failed;
    updates = λ p f n s t h. ground arith;
    updates_none = λ p f e s t h. absurd (ground arith);
    deletes = λ p n s t h. ground arith;
    deletes_none = λ p e s t h. absurd (ground arith);
  }

abbrev frozen : Activation.DeviceActivation
frozen = record {
  id = 1;
  serial_number = codes "s1";
  device_id = codes "d1";
  client_id = [];
  activation_status = codes "frozen";
  activated_at = 10;
}

abbrev active : Activation.DeviceActivation
active = record {
  id = 2;
  serial_number = codes "s2";
  device_id = codes "d2";
  client_id = [];
  activation_status = codes "active";
  activated_at = 11;
}

frozen_only :
    (y : Activation.DeviceActivation) → Memᴰ y (frozen ∷ active ∷ []) → 1 ≡ y.id → frozen ≡ y
frozen_only y (head q) h = sym q
frozen_only y (tail (head q)) h =
    absurd (ground (arith, ap (λ (a : Activation.DeviceActivation). a.id) q))
frozen_only y (tail (tail m)) h = elim m [ ]

upsert_keeps_blocked_example :
    Memᴰ frozen
      (Activation.upsert
        (list_gorm (λ a. a.serial_number) activation_id)
        (λ rows. active ∷ rows)
        20
        (some frozen)
        (frozen ∷ active ∷ [])).0
unfolding Activation.is_active text_eq
upsert_keeps_blocked_example =
    upsert_keeps_blocked (list_gorm (λ a. a.serial_number) activation_id) (λ rows. rows)
      (list-IsGorm (λ a. a.serial_number) activation_id) (λ rows. active ∷ rows) 20 (some frozen)
      (frozen ∷ active ∷ []) frozen (head refl) (tail (head refl)) refl frozen_only

-- Another connection binds the device to the same user first.
bind_device-IsBound_example :
    IsBound text_eq
      (λ (rows : List UserRef.DeviceUserRef). rows)
      (trim_space (codes " s1"))
      4
      (UserRef.bind_device
        (list_gorm (λ r. r.serial_number) ref_id)
        (λ rows. UserRef.new_ref (codes "s1") 4 ∷ rows)
        (codes " s1")
        4
        [])
unfolding list_gorm
bind_device-IsBound_example =
    bind_device-IsBound (list_gorm (λ r. r.serial_number) ref_id) (λ rows. rows)
      (list-IsGorm (λ r. r.serial_number) ref_id) (λ rows. UserRef.new_ref (codes "s1") 4 ∷ rows)
      (codes " s1") 4 []
