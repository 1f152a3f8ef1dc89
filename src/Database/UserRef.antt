-- ===== src/Database/UserRef.antt =====
-- The table of internal/database/device_user_ref.go: which user a device is bound to.
pub mod Binding
use xiaozhi_esp32_golang_ser.Prelude.{
  ℕ, zero, suc, Bool, true, false, ◌&&◌, Option, none, some, List, [], ◌∷◌, ◌⊎◌, inl, inr, ◌==◌,
  if◌then◌else◌,
}
use xiaozhi_esp32_golang_ser.Session.Message.{Text}
use xiaozhi_esp32_golang_ser.Session.Message.Parse.{text_eq}
use xiaozhi_esp32_golang_ser.Database.{
  Query, found, record_not_found, query_failed, Created, created, create_failed, Gorm, Listing,
  listed, list_failed, DbError, binding_not_found, empty_serial_number, empty_user_id,
  invalid_binding, bound_to_other, failed, found_or, affected_or, create_error, with_text,
}

pub record DeviceUserRef : Type 0 where
  pub id : ℕ
  pub serial_number : Text
  pub user_id : ℕ

unfoldable pub has_serial : (Text → Text → Bool) → Text → DeviceUserRef → Bool
has_serial same_text sn r = same_text r.serial_number sn

-- A row for a new binding, before the database gives its id.
unfoldable pub new_ref : Text → ℕ → DeviceUserRef
new_ref sn user = record { id = 0; serial_number = sn; user_id = user }

unfoldable pub set_user : ℕ → DeviceUserRef → DeviceUserRef
set_user user r = record r { user_id = user }

-- A binding that is there: the user's own, or another's.
unfoldable pub own_or_other : ℕ → DeviceUserRef → DbError ⊎ DeviceUserRef
own_or_other user existing = if existing.user_id == user then inr existing else inl bound_to_other

module _ {S : Type 0} (gorm : Gorm S DeviceUserRef) where
  unfoldable pub find_by_serial_number : Text → S → DbError ⊎ DeviceUserRef
  find_by_serial_number serial s =
      with_text serial (inl empty_serial_number)
        (λ sn. found_or binding_not_found (gorm.take (has_serial gorm.same_text sn) s))

  unfoldable pub find_by_id : ℕ → S → DbError ⊎ DeviceUserRef
  find_by_id zero s = inl binding_not_found
  find_by_id (suc id) s = found_or binding_not_found (gorm.take (λ r. r.id == suc id) s)

  unfoldable pub list_by_user_id : ℕ → S → DbError ⊎ List DeviceUserRef
  list_by_user_id zero s = inl empty_user_id
  list_by_user_id (suc user) s = elim (gorm.find_newest (λ r. r.user_id == suc user) s) [
    | listed refs ↦ inr refs
    | list_failed e ↦ inl (failed e)
  ]

  unfoldable pub create : Option DeviceUserRef → S → S × Option DbError
  create none s = (s, some invalid_binding)
  create (some ref) s =
      with_text ref.serial_number (s, some empty_serial_number)
        (λ sn. elim ref.user_id [
          | zero ↦ (s, some empty_user_id)
          | suc user ↦
              let r = gorm.create (record ref { serial_number = sn }) s in (r.0, create_error r.1)
        ])

  -- A creation that failed: the device may have been bound meanwhile. `others` is what other connections do
  -- to the store before the device is looked up again.
  unfoldable pub retry_bind : (S → S) → Text → ℕ → ℕ → S → S × (DbError ⊎ DeviceUserRef)
  retry_bind others sn user e s =
      let t = others s in
      (
        t,
        elim (gorm.take (has_serial gorm.same_text sn) t) [
          | found existing ↦ own_or_other user existing
          | other ↦ inl (failed e)
        ],
      )

  unfoldable pub after_create :
      (S → S) → Text → ℕ → S × Created DeviceUserRef → S × (DbError ⊎ DeviceUserRef)
  after_create others sn user (s, created ref) = (s, inr ref)
  after_create others sn user (s, create_failed e) = retry_bind others sn user e s

  unfoldable pub create_ref : (S → S) → Text → ℕ → S → S × (DbError ⊎ DeviceUserRef)
  create_ref others sn user s = after_create others sn user (gorm.create (new_ref sn user) s)

  unfoldable pub bind_user : (S → S) → Text → ℕ → S → S × (DbError ⊎ DeviceUserRef)
  bind_user others sn user s = elim (gorm.take (has_serial gorm.same_text sn) s) [
    | query_failed e ↦ (s, inl (failed e))
    | found existing ↦ (s, own_or_other user existing)
    | record_not_found ↦ create_ref others sn user (others s)
  ]

  unfoldable pub bind_device : (S → S) → Text → ℕ → S → S × (DbError ⊎ DeviceUserRef)
  bind_device others serial user s =
      with_text serial (s, inl empty_serial_number)
        (λ sn. elim user [ zero ↦ (s, inl empty_user_id) | suc n ↦ bind_user others sn (suc n) s ])

  unfoldable pub unbind_device : Text → S → S × Option DbError
  unbind_device serial s =
      with_text serial (s, some empty_serial_number)
        (λ sn.
          let r = gorm.delete (has_serial gorm.same_text sn) s in
          (r.0, affected_or binding_not_found r.1))

  unfoldable pub unbind_from_user : Text → ℕ → S → S × Option DbError
  unbind_from_user serial user s =
      with_text serial (s, some empty_serial_number)
        (λ sn. elim user [
          | zero ↦ (s, some empty_user_id)
          | suc n ↦
              let r = gorm.delete (λ x. has_serial gorm.same_text sn x && x.user_id == suc n) s in
              (r.0, affected_or binding_not_found r.1)
        ])

  unfoldable pub transfer_binding : Text → ℕ → S → S × Option DbError
  transfer_binding serial user s =
      with_text serial (s, some empty_serial_number)
        (λ sn. elim user [
          | zero ↦ (s, some empty_user_id)
          | suc n ↦
              let r = gorm.update (has_serial gorm.same_text sn) (set_user (suc n)) s in
              (r.0, affected_or binding_not_found r.1)
        ])
