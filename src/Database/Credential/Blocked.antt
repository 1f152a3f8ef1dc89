-- ===== src/Database/Credential/Blocked.antt =====
-- A credential that is blocked or revoked stays so, whoever activates the device again.
use mathlib.Core.List.{Memᴰ}
use xiaozhi_esp32_golang_ser.Prelude.{
  ℕ, ◌≡◌, refl, inl, inr, false, Option, none, some, List, Bool-cases, ◌==◌,
}
use xiaozhi_esp32_golang_ser.Session.Splitter.{trim_space}
use xiaozhi_esp32_golang_ser.Session.Message.{Text}
use xiaozhi_esp32_golang_ser.Database.{
  Query, found, record_not_found, query_failed, Gorm, DbError, with_text,
}
use xiaozhi_esp32_golang_ser.Database.Laws.{
  IsGorm, update_keeps_row, create_keeps_row, other_id, unless_empty_holds,
}
use xiaozhi_esp32_golang_ser.Database.Credential.{
  DeviceHmacCredential, is_available, has_serial, activate, insert, activate_row, with_key,
  upsert_row, upsert,
}

-- The id that the database gives.
unfoldable pub put_id : ℕ → DeviceHmacCredential → DeviceHmacCredential
put_id i c = record c { id = i }

module _ {S : Type 0} (gorm : Gorm S DeviceHmacCredential) (rows : S → List DeviceHmacCredential)
    (laws : IsGorm gorm rows (λ c. c.serial_number) put_id) where
  insert_keeps :
      (row : DeviceHmacCredential) (s : S) (x : DeviceHmacCredential)
      → Memᴰ x (rows s)
      → Memᴰ x (rows (insert gorm row s).0)
  unfolding insert
  insert_keeps row s x m = create_keeps_row gorm rows _ _ laws row s x m

  activate_row_keeps :
      (cred existing : DeviceHmacCredential) (s : S) (x : DeviceHmacCredential)
      → Memᴰ x (rows s)
      → is_available x ≡ false
      → (x.id ≡ existing.id → x ≡ existing)
      → Memᴰ x (rows (activate_row gorm cred existing s).0)
  unfolding activate_row
  activate_row_keeps cred existing s x m h unique = elim (Bool-cases (is_available existing)) [
    | inl e ↦
        rw (e, activate_row)
          (update_keeps_row gorm rows _ _ laws (λ c. c.id == existing.id) (activate cred) s x m
            (other_id (λ (c : DeviceHmacCredential). c.id) is_available x existing unique h e))
    | inr e ↦ rw (e, activate_row) m
  ]

  upsert_row_keeps :
      (sn : Text) (cred : DeviceHmacCredential) (s : S) (x : DeviceHmacCredential)
      → Memᴰ x (rows s)
      → is_available x ≡ false
      → ((y : DeviceHmacCredential) → Memᴰ y (rows s) → x.id ≡ y.id → x ≡ y)
      → Memᴰ x (rows (upsert_row gorm sn cred s).0)
  unfolding upsert_row
  upsert_row_keeps sn cred s x m h unique =
      of_answer (gorm.take (has_serial gorm.same_text sn) s) refl
    where
      of_answer :
          (q : Query DeviceHmacCredential)
          → gorm.take (has_serial gorm.same_text sn) s ≡ q
          → Memᴰ x (rows (upsert_row gorm sn cred s).0)
      of_answer (query_failed e) g = rw (g, upsert_row) m
      of_answer record_not_found g = rw (g, upsert_row) (insert_keeps _ s x m)
      of_answer (found existing) g =
          rw (g, upsert_row)
            (activate_row_keeps cred existing s x m h
              (unique existing (laws.takes_row (has_serial gorm.same_text sn) s existing g).0))

  -- A credential that is neither enabled nor activated is a row of the table still, unchanged, after any
  -- `UpsertDeviceHmacCredential`, where an id is one row's.
  pub upsert_keeps_unavailable :
      (cred : Option DeviceHmacCredential) (s : S) (x : DeviceHmacCredential)
      → Memᴰ x (rows s)
      → is_available x ≡ false
      → ((y : DeviceHmacCredential) → Memᴰ y (rows s) → x.id ≡ y.id → x ≡ y)
      → Memᴰ x (rows (upsert gorm cred s).0)
  unfolding upsert with_text with_key
  upsert_keeps_unavailable none s x m h unique = m
  upsert_keeps_unavailable (some cred) s x m h unique =
      let row = upsert_row_keeps (trim_space cred.serial_number) cred s x m h unique in
      unless_empty_holds (λ (r : S × Option DbError). Memᴰ x (rows r.0))
        (trim_space cred.serial_number) _ _ m
        (unless_empty_holds (λ (r : S × Option DbError). Memᴰ x (rows r.0)) cred.hmac_key_ciphertext
          _ _ m row)
