-- ===== src/Database/AccessToken.antt =====
-- The table of internal/database/device_access_token.go. SHA-256 is a parameter.
pub mod Laws
use xiaozhi_esp32_golang_ser.Prelude.{
  ℕ, zero, suc, Bool, true, false, not, ◌&&◌, ◌||◌, Option, none, some, List, [], ◌∷◌, ◌⊎◌, inl,
  inr, ltb, ◌==◌, if◌then◌else◌,
}
use xiaozhi_esp32_golang_ser.Session.Splitter.{trim_space}
use xiaozhi_esp32_golang_ser.Session.Message.{Text}
use xiaozhi_esp32_golang_ser.Session.Message.Parse.{text_eq}
use xiaozhi_esp32_golang_ser.Database.{
  Query, found, record_not_found, query_failed, Gorm, DbError, token_not_found, empty_serial_number,
  empty_token_hash, invalid_token, failed, found_or, affected_or, create_error, update_error,
  with_text, or_now,
}

pub record DeviceAccessToken : Type 0 where
  pub id : ℕ
  pub serial_number : Text
  pub access_token_hash : List ℕ
  pub issued_at : ℕ
  pub expires_at : Option ℕ
  pub revoked_at : Option ℕ

-- A time that is set, and not after `now`.
unfoldable pub has_come : ℕ → Option ℕ → Bool
has_come now none = false
has_come now (some t) = not (t == 0) && not (ltb now t)

unfoldable pub is_valid : ℕ → DeviceAccessToken → Bool
is_valid now t =
    if has_come now t.revoked_at then false else if has_come now t.expires_at then false else true

unfoldable pub hash_access_token : (List ℕ → List ℕ) → Text → List ℕ
hash_access_token sha256 raw_token = sha256 (trim_space raw_token)

unfoldable pub has_hash : List ℕ → DeviceAccessToken → Bool
has_hash hash t = text_eq t.access_token_hash hash

unfoldable pub has_serial : (Text → Text → Bool) → Text → DeviceAccessToken → Bool
has_serial same_text sn t = same_text t.serial_number sn

-- `revoked_at IS NULL OR revoked_at > ?`
unfoldable pub is_open_at : ℕ → DeviceAccessToken → Bool
is_open_at at t = elim t.revoked_at [ none ↦ true | some r ↦ ltb at r ]

-- What an upsert writes over a row.
unfoldable pub renew : DeviceAccessToken → DeviceAccessToken → DeviceAccessToken
renew token old = record old {
  access_token_hash = token.access_token_hash;
  issued_at = token.issued_at;
  expires_at = token.expires_at;
  revoked_at = token.revoked_at;
}

unfoldable pub revoke_at : ℕ → DeviceAccessToken → DeviceAccessToken
revoke_at at t = record t { revoked_at = some at }

module _ {S : Type 0} (gorm : Gorm S DeviceAccessToken) where
  unfoldable pub find_by_hash : List ℕ → S → DbError ⊎ DeviceAccessToken
  find_by_hash [] s = inl empty_token_hash
  find_by_hash (b ∷ hash) s = found_or token_not_found (gorm.take (has_hash (b ∷ hash)) s)

  unfoldable pub find_by_serial_number : Text → S → DbError ⊎ DeviceAccessToken
  find_by_serial_number serial s =
      with_text serial (inl empty_serial_number)
        (λ sn. found_or token_not_found (gorm.take (has_serial gorm.same_text sn) s))

  unfoldable pub find_by_id : ℕ → S → DbError ⊎ DeviceAccessToken
  find_by_id zero s = inl token_not_found
  find_by_id (suc id) s = found_or token_not_found (gorm.take (λ t. t.id == suc id) s)

  -- `now` is what `time.Now` gives.
  unfoldable pub create : ℕ → Option DeviceAccessToken → S → S × Option DbError
  create now none s = (s, some invalid_token)
  create now (some token) s =
      with_text token.serial_number (s, some empty_serial_number)
        (λ sn. elim token.access_token_hash [
          | [] ↦ (s, some empty_token_hash)
          | b ∷ hash ↦
              let r =
                gorm.create
                  (record token { serial_number = sn; issued_at = or_now now token.issued_at }) s in
              (r.0, create_error r.1)
        ])

  unfoldable pub upsert_over : Text → DeviceAccessToken → S → S × Option DbError
  upsert_over sn token s = elim (gorm.take (has_serial gorm.same_text sn) s) [
    | query_failed e ↦ (s, some (failed e))
    | record_not_found ↦
        let r = gorm.create (record token { serial_number = sn }) s in (r.0, create_error r.1)
    | found existing ↦
        let r = gorm.update (λ t. t.id == existing.id) (renew token) s in (r.0, update_error r.1)
  ]

  unfoldable pub upsert : ℕ → Option DeviceAccessToken → S → S × Option DbError
  upsert now none s = (s, some invalid_token)
  upsert now (some token) s =
      with_text token.serial_number (s, some empty_serial_number)
        (λ sn. elim token.access_token_hash [
          | [] ↦ (s, some empty_token_hash)
          | b ∷ hash ↦ upsert_over sn (record token { issued_at = or_now now token.issued_at }) s
        ])

  unfoldable pub revoke_by_hash : ℕ → List ℕ → ℕ → S → S × Option DbError
  revoke_by_hash now [] at s = (s, some empty_token_hash)
  revoke_by_hash now (b ∷ hash) at s =
      let r = gorm.update (has_hash (b ∷ hash)) (revoke_at (or_now now at)) s in
      (r.0, affected_or token_not_found r.1)

  unfoldable pub revoke_by_serial_number : ℕ → Text → ℕ → S → S × Option DbError
  revoke_by_serial_number now serial at s =
      with_text serial (s, some empty_serial_number)
        (λ sn.
          let r =
            gorm.update (λ t. has_serial gorm.same_text sn t && is_open_at (or_now now at) t)
              (revoke_at (or_now now at)) s in
          (r.0, affected_or token_not_found r.1))

  unfoldable pub delete_by_serial_number : Text → S → S × Option DbError
  delete_by_serial_number serial s =
      with_text serial (s, some empty_serial_number)
        (λ sn.
          let r = gorm.delete (has_serial gorm.same_text sn) s in
          (r.0, affected_or token_not_found r.1))
