-- ===== src/Database/Credential.antt =====
-- The table of internal/database/device_hmac_credential.go.
pub mod Blocked
use xiaozhi_esp32_golang_ser.Prelude.{
  ℕ, zero, suc, Bool, true, false, ◌||◌, Option, none, some, List, [], ◌∷◌, ◌⊎◌, inl, inr, ◌==◌,
}
use xiaozhi_esp32_golang_ser.Session.Message.{Text}
use xiaozhi_esp32_golang_ser.Session.Message.Parse.{text_eq, codes}
use xiaozhi_esp32_golang_ser.Database.{
  Query, found, record_not_found, query_failed, Gorm, DbError, credential_not_found,
  empty_serial_number, empty_key, empty_status, invalid_credential, credential_blocked, failed,
  found_or, affected_or, create_error, update_error, with_text, unless_empty, or_default,
}

abbrev pub auth_method_efuse_hmac : Text
auth_method_efuse_hmac = codes "efuse_hmac"

abbrev pub auth_method_manual_code_hmac : Text
auth_method_manual_code_hmac = codes "manual_code_hmac"

abbrev pub credential_status_enabled : Text
credential_status_enabled = codes "enabled"

abbrev pub credential_status_activated : Text
credential_status_activated = codes "activated"

pub record DeviceHmacCredential : Type 0 where
  pub id : ℕ
  pub serial_number : Text
  pub auth_method : Text
  pub hmac_key_ciphertext : List ℕ
  pub credential_status : Text

unfoldable pub is_available : DeviceHmacCredential → Bool
is_available c =
    text_eq c.credential_status credential_status_enabled
    || text_eq c.credential_status credential_status_activated

unfoldable pub has_serial : (Text → Text → Bool) → Text → DeviceHmacCredential → Bool
has_serial same_text sn c = same_text c.serial_number sn

-- The record that is created, with the defaults of the call.
unfoldable pub new_row : Text → Text → Text → DeviceHmacCredential → DeviceHmacCredential
new_row method status sn cred = record cred {
  serial_number = sn;
  auth_method = or_default cred.auth_method method;
  credential_status = or_default cred.credential_status status;
}

-- What an upsert writes over a row.
unfoldable pub activate : DeviceHmacCredential → DeviceHmacCredential → DeviceHmacCredential
activate cred old = record old {
  auth_method = or_default cred.auth_method old.auth_method;
  hmac_key_ciphertext = cred.hmac_key_ciphertext;
  credential_status = credential_status_activated;
}

unfoldable pub set_status : Text → DeviceHmacCredential → DeviceHmacCredential
set_status status c = record c { credential_status = status }

-- `ValidateActivationInput`: the inputs are not blank.
pub data InputError : Type 0 where
  no_serial_number no_hmac_key no_code : InputError

unfoldable pub validate_activation_input : Text → Text → Text → Option InputError
validate_activation_input serial_number hmac_key code =
    with_text serial_number (some no_serial_number)
      (λ sn. with_text hmac_key (some no_hmac_key) (λ k. with_text code (some no_code) (λ c. none)))

module _ {S : Type 0} (gorm : Gorm S DeviceHmacCredential) where
  unfoldable pub find_by_serial_number : Text → S → DbError ⊎ DeviceHmacCredential
  find_by_serial_number serial s =
      with_text serial (inl empty_serial_number)
        (λ sn. found_or credential_not_found (gorm.take (has_serial gorm.same_text sn) s))

  unfoldable pub find_by_id : ℕ → S → DbError ⊎ DeviceHmacCredential
  find_by_id zero s = inl credential_not_found
  find_by_id (suc id) s = found_or credential_not_found (gorm.take (λ c. c.id == suc id) s)

  unfoldable pub insert : DeviceHmacCredential → S → S × Option DbError
  insert row s = let r = gorm.create row s in (r.0, create_error r.1)

  -- The key of a credential must not be empty.
  unfoldable pub with_key :
      DeviceHmacCredential → S → (Text → S × Option DbError) → S × Option DbError
  with_key cred s act =
      with_text cred.serial_number (s, some empty_serial_number)
        (λ sn. unless_empty cred.hmac_key_ciphertext (s, some empty_key) (λ key. act sn))

  unfoldable pub create : Option DeviceHmacCredential → S → S × Option DbError
  create none s = (s, some invalid_credential)
  create (some cred) s =
      with_key cred s
        (λ sn. insert (new_row auth_method_efuse_hmac credential_status_enabled sn cred) s)

  unfoldable pub update_status : Text → Text → S → S × Option DbError
  update_status serial status s =
      with_text serial (s, some empty_serial_number)
        (λ sn.
          with_text status (s, some empty_status)
            (λ st.
              let r = gorm.update (has_serial gorm.same_text sn) (set_status st) s in
              (r.0, affected_or credential_not_found r.1)))

  unfoldable pub activate_row : DeviceHmacCredential → DeviceHmacCredential → S → S × Option DbError
  activate_row cred existing s = elim (is_available existing) [
    | false ↦ (s, some credential_blocked)
    | true ↦
        let r = gorm.update (λ c. c.id == existing.id) (activate cred) s in (r.0, update_error r.1)
  ]

  unfoldable pub upsert_row : Text → DeviceHmacCredential → S → S × Option DbError
  upsert_row sn cred s = elim (gorm.take (has_serial gorm.same_text sn) s) [
    | query_failed e ↦ (s, some (failed e))
    | record_not_found ↦
        insert (new_row auth_method_manual_code_hmac credential_status_activated sn cred) s
    | found existing ↦ activate_row cred existing s
  ]

  unfoldable pub upsert : Option DeviceHmacCredential → S → S × Option DbError
  upsert none s = (s, some invalid_credential)
  upsert (some cred) s = with_key cred s (λ sn. upsert_row sn cred s)
