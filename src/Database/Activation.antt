-- ===== src/Database/Activation.antt =====
-- The table of internal/database/device_activation.go.
pub mod Blocked
use xiaozhi_esp32_golang_ser.Prelude.{
  ℕ, zero, suc, Bool, true, false, Option, none, some, List, [], ◌∷◌, ◌⊎◌, inl, inr, ◌==◌,
}
use xiaozhi_esp32_golang_ser.Session.Splitter.{trim_space}
use xiaozhi_esp32_golang_ser.Session.Message.{Text}
use xiaozhi_esp32_golang_ser.Session.Message.Parse.{text_eq, codes}
use xiaozhi_esp32_golang_ser.Database.{
  Query, found, record_not_found, query_failed, Gorm, DbError, activation_not_found,
  empty_serial_number, empty_device_id, empty_status, invalid_activation, activation_blocked,
  failed, found_or, affected_or, create_error, update_error, with_text, or_default, or_now,
}

abbrev pub activation_status_active : Text
activation_status_active = codes "active"

pub record DeviceActivation : Type 0 where
  pub id : ℕ
  pub serial_number : Text
  pub device_id : Text
  pub client_id : Text
  pub activation_status : Text
  pub activated_at : ℕ

unfoldable pub is_active : DeviceActivation → Bool
is_active a = text_eq a.activation_status activation_status_active

unfoldable pub has_serial : (Text → Text → Bool) → Text → DeviceActivation → Bool
has_serial same_text sn a = same_text a.serial_number sn

-- The record that is created: trimmed, with its defaults; `now` is what `time.Now` gives.
unfoldable pub new_row : ℕ → Text → Text → DeviceActivation → DeviceActivation
new_row now sn device act = record act {
  serial_number = sn;
  device_id = device;
  client_id = trim_space act.client_id;
  activation_status = or_default act.activation_status activation_status_active;
  activated_at = or_now now act.activated_at;
}

-- What an upsert writes over a row.
unfoldable pub rebind : Text → DeviceActivation → DeviceActivation → DeviceActivation
rebind device act old = record old {
  device_id = device;
  client_id = trim_space act.client_id;
  activation_status = or_default act.activation_status old.activation_status;
}

unfoldable pub set_status : Text → DeviceActivation → DeviceActivation
set_status status a = record a { activation_status = status }

module _ {S : Type 0} (gorm : Gorm S DeviceActivation) where
  unfoldable pub find_by_serial_number : Text → S → DbError ⊎ DeviceActivation
  find_by_serial_number serial s =
      with_text serial (inl empty_serial_number)
        (λ sn. found_or activation_not_found (gorm.take (has_serial gorm.same_text sn) s))

  unfoldable pub find_by_device_id : Text → S → DbError ⊎ DeviceActivation
  find_by_device_id device_id s =
      with_text device_id (inl empty_device_id) (λ d.
        found_or activation_not_found (gorm.take_newest (λ a. gorm.same_text a.device_id d) s))

  unfoldable pub find_by_id : ℕ → S → DbError ⊎ DeviceActivation
  find_by_id zero s = inl activation_not_found
  find_by_id (suc id) s = found_or activation_not_found (gorm.take (λ a. a.id == suc id) s)

  unfoldable pub insert : DeviceActivation → S → S × Option DbError
  insert row s = let r = gorm.create row s in (r.0, create_error r.1)

  unfoldable pub create : ℕ → Option DeviceActivation → S → S × Option DbError
  create now none s = (s, some invalid_activation)
  create now (some act) s =
      with_text act.serial_number (s, some empty_serial_number)
        (λ sn.
          with_text act.device_id (s, some empty_device_id) (λ d. insert (new_row now sn d act) s))

  unfoldable pub update_status : Text → Text → S → S × Option DbError
  update_status serial status s =
      with_text serial (s, some empty_serial_number)
        (λ sn.
          with_text status (s, some empty_status)
            (λ st.
              let r = gorm.update (has_serial gorm.same_text sn) (set_status st) s in
              (r.0, affected_or activation_not_found r.1)))

  unfoldable pub rebind_row : Text → DeviceActivation → DeviceActivation → S → S × Option DbError
  rebind_row device act existing s = elim (is_active existing) [
    | false ↦ (s, some activation_blocked)
    | true ↦
        let r = gorm.update (λ a. a.id == existing.id) (rebind device act) s in
        (r.0, update_error r.1)
  ]

  -- `others` is what other connections do to the store between the two statements.
  unfoldable pub upsert_row : (S → S) → ℕ → Text → Text → DeviceActivation → S → S × Option DbError
  upsert_row others now sn device act s = elim (gorm.take (has_serial gorm.same_text sn) s) [
    | query_failed e ↦ (s, some (failed e))
    | record_not_found ↦ insert (new_row now sn device act) (others s)
    | found existing ↦ rebind_row device act existing (others s)
  ]

  unfoldable pub upsert : (S → S) → ℕ → Option DeviceActivation → S → S × Option DbError
  upsert others now none s = (s, some invalid_activation)
  upsert others now (some act) s =
      with_text act.serial_number (s, some empty_serial_number)
        (λ sn.
          with_text act.device_id (s, some empty_device_id) (λ d. upsert_row others now sn d act s))
