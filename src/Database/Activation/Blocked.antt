-- ===== src/Database/Activation/Blocked.antt =====
-- A device that is frozen or revoked stays so, whoever activates it again.
use mathlib.Core.List.{Memᴰ}
use xiaozhi_esp32_golang_ser.Prelude.{
  ℕ, ◌≡◌, refl, inl, inr, false, Option, none, some, List, Bool-cases, ◌==◌,
}
use xiaozhi_esp32_golang_ser.Session.Splitter.{trim_space}
use xiaozhi_esp32_golang_ser.Session.Message.{Text}
use xiaozhi_esp32_golang_ser.Database.{
  Query, found, record_not_found, query_failed, Gorm, DbError, with_text,
}
use xiaozhi_esp32_golang_ser.Database.Laws.{
  IsGorm, update_keeps_row, create_keeps_row, other_id, unless_empty_holds,
}
use xiaozhi_esp32_golang_ser.Database.Activation.{
  DeviceActivation, is_active, has_serial, new_row, rebind, insert, rebind_row, upsert_row, upsert,
}

-- The id that the database gives.
unfoldable pub put_id : ℕ → DeviceActivation → DeviceActivation
put_id i a = record a { id = i }

module _ {S : Type 0} (gorm : Gorm S DeviceActivation) (rows : S → List DeviceActivation)
    (laws : IsGorm gorm rows (λ a. a.serial_number) put_id) (others : S → S) where
  insert_keeps :
      (row : DeviceActivation) (s : S) (x : DeviceActivation)
      → Memᴰ x (rows s)
      → Memᴰ x (rows (insert gorm row s).0)
  unfolding insert
  insert_keeps row s x m = create_keeps_row gorm rows _ _ laws row s x m

  rebind_row_keeps :
      (device : Text) (act existing : DeviceActivation) (s : S) (x : DeviceActivation)
      → Memᴰ x (rows s)
      → is_active x ≡ false
      → (x.id ≡ existing.id → x ≡ existing)
      → Memᴰ x (rows (rebind_row gorm device act existing s).0)
  unfolding rebind_row
  rebind_row_keeps device act existing s x m h unique = elim (Bool-cases (is_active existing)) [
    | inl e ↦
        rw (e, rebind_row)
          (update_keeps_row gorm rows _ _ laws (λ a. a.id == existing.id) (rebind device act) s x m
            (other_id (λ (a : DeviceActivation). a.id) is_active x existing unique h e))
    | inr e ↦ rw (e, rebind_row) m
  ]

  upsert_row_keeps :
      (now : ℕ) (sn device : Text) (act : DeviceActivation) (s : S) (x : DeviceActivation)
      → Memᴰ x (rows s)
      → Memᴰ x (rows (others s))
      → is_active x ≡ false
      → ((y : DeviceActivation) → Memᴰ y (rows s) → x.id ≡ y.id → x ≡ y)
      → Memᴰ x (rows (upsert_row gorm others now sn device act s).0)
  unfolding upsert_row
  upsert_row_keeps now sn device act s x m k h unique =
      of_answer (gorm.take (has_serial gorm.same_text sn) s) refl
    where
      of_answer :
          (q : Query DeviceActivation)
          → gorm.take (has_serial gorm.same_text sn) s ≡ q
          → Memᴰ x (rows (upsert_row gorm others now sn device act s).0)
      of_answer (query_failed e) g = rw (g, upsert_row) m
      of_answer record_not_found g =
          rw (g, upsert_row) (insert_keeps (new_row now sn device act) (others s) x k)
      of_answer (found existing) g =
          rw (g, upsert_row)
            (rebind_row_keeps device act existing (others s) x k h
              (unique existing (laws.takes_row (has_serial gorm.same_text sn) s existing g).0))

  -- An activation that is not active when `UpsertDeviceActivation` reads its row, and that other connections
  -- leave alone between the two statements, is a row of the table still, unchanged, where an id is one row's.
  pub upsert_keeps_blocked :
      (now : ℕ) (act : Option DeviceActivation) (s : S) (x : DeviceActivation)
      → Memᴰ x (rows s)
      → Memᴰ x (rows (others s))
      → is_active x ≡ false
      → ((y : DeviceActivation) → Memᴰ y (rows s) → x.id ≡ y.id → x ≡ y)
      → Memᴰ x (rows (upsert gorm others now act s).0)
  unfolding upsert with_text
  upsert_keeps_blocked now none s x m k h unique = m
  upsert_keeps_blocked now (some act) s x m k h unique =
      let row =
        upsert_row_keeps now (trim_space act.serial_number) (trim_space act.device_id) act s x m k h
          unique in
      unless_empty_holds (λ (r : S × Option DbError). Memᴰ x (rows r.0))
        (trim_space act.serial_number) _ _ m
        (unless_empty_holds (λ (r : S × Option DbError). Memᴰ x (rows r.0))
          (trim_space act.device_id) _ _ m row)
