-- ===== src/Database/UserRef/Binding.antt =====
-- `BindDevice` and the other connections to the database: a binding that it reports is there, and one that
-- is there is never taken away.
use mathlib.Core.List.{Memᴰ}
use xiaozhi_esp32_golang_ser.Prelude.{
  ℕ, zero, suc, ◌≡◌, refl, sym, ap, subst, ◌∙◌, Bool, true, inl, inr, ◌⊎◌, List, arith,
}
use xiaozhi_esp32_golang_ser.Session.Splitter.{trim_space}
use xiaozhi_esp32_golang_ser.Session.Message.{Text}
use xiaozhi_esp32_golang_ser.Database.{
  Query, found, record_not_found, query_failed, Created, created, create_failed, Gorm, DbError,
  with_text,
}
use xiaozhi_esp32_golang_ser.Database.Laws.{IsGorm, unless_empty_holds, Mem-last}
use xiaozhi_esp32_golang_ser.Database.UserRef.{
  DeviceUserRef, has_serial, new_ref, own_or_other, retry_bind, after_create, create_ref, bind_user,
  bind_device,
}

-- The id that the database gives.
unfoldable pub put_id : ℕ → DeviceUserRef → DeviceUserRef
put_id i r = record r { id = i }

-- A call that reports a binding has it in the table: under a serial number that the database takes for that
-- of the device, to the user.
unfoldable pub IsBound :
    {S : Type 0} (same_text : Text → Text → Bool) (rows : S → List DeviceUserRef)
    → Text
    → ℕ
    → S × (DbError ⊎ DeviceUserRef)
    → Type 0
IsBound same_text rows sn user r =
    (ref : DeviceUserRef)
    → r.1 ≡ inr ref
    → Memᴰ ref (rows r.0) × ((same_text ref.serial_number sn ≡ true) × (ref.user_id ≡ user))

module _ {S : Type 0} (gorm : Gorm S DeviceUserRef) (rows : S → List DeviceUserRef)
    (laws : IsGorm gorm rows (λ r. r.serial_number) put_id) (others : S → S) where
  own_or_other_lem :
      (user : ℕ) (existing ref : DeviceUserRef)
      → own_or_other user existing ≡ inr ref
      → (existing ≡ ref) × (existing.user_id ≡ user)
  unfolding own_or_other
  own_or_other_lem user existing ref h = ground arith

  own-IsBound :
      (sn : Text) (user : ℕ) (existing : DeviceUserRef) (s : S)
      → gorm.take (has_serial gorm.same_text sn) s ≡ found existing
      → IsBound gorm.same_text rows sn user (s, own_or_other user existing)
  unfolding IsBound has_serial
  own-IsBound sn user existing s e ref h =
      let there = laws.takes_row (has_serial gorm.same_text sn) s existing e in
      let own = own_or_other_lem user existing ref h in
      subst
        (λ r. Memᴰ r (rows s) × ((gorm.same_text r.serial_number sn ≡ true) × (r.user_id ≡ user)))
        own.0 (there.0, (there.1, own.1))

  failed-IsBound :
      (sn : Text) (user : ℕ) (e : DbError) (s : S) → IsBound gorm.same_text rows sn user (s, inl e)
  unfolding IsBound
  failed-IsBound sn user e s ref h = absurd cc

  retry_bind-IsBound :
      (sn : Text) (user e : ℕ) (s : S)
      → IsBound gorm.same_text rows sn user (retry_bind gorm others sn user e s)
  unfolding retry_bind
  retry_bind-IsBound sn user e s =
      of_answer (gorm.take (has_serial gorm.same_text sn) (others s)) refl
    where
      of_answer :
          (q : Query DeviceUserRef)
          → gorm.take (has_serial gorm.same_text sn) (others s) ≡ q
          → IsBound gorm.same_text rows sn user (retry_bind gorm others sn user e s)
      of_answer (query_failed n) g = rw (g, retry_bind) (failed-IsBound sn user _ (others s))
      of_answer record_not_found g = rw (g, retry_bind) (failed-IsBound sn user _ (others s))
      of_answer (found existing) g = rw (g, retry_bind) (own-IsBound sn user existing (others s) g)

  right_eq : (r ref : DeviceUserRef) → ◌≡◌ {A = DbError ⊎ DeviceUserRef} (inr r) (inr ref) → r ≡ ref
  right_eq r ref h = cc

  created-IsBound :
      (sn : Text) (user : ℕ) (s t : S) (r : DeviceUserRef)
      → gorm.create (new_ref sn user) s ≡ (t, created r)
      → IsBound gorm.same_text rows sn user (t, inr r)
  unfolding IsBound new_ref put_id
  created-IsBound sn user s t r e ref h =
      let (there, (named, _)) = laws.creates (new_ref sn user) r s t e in
      subst
        (λ x. Memᴰ x (rows t) × ((gorm.same_text x.serial_number sn ≡ true) × (x.user_id ≡ user)))
        (right_eq r ref h)
        (
          subst (Memᴰ r) (sym there) (Mem-last (rows s) r),
          (
            ap (λ x. gorm.same_text x.serial_number sn) named.1 ∙ laws.same_refl sn,
            ap (λ x. x.user_id) named.1,
          ),
        )

  create_ref-IsBound :
      (sn : Text) (user : ℕ) (s : S)
      → IsBound gorm.same_text rows sn user (create_ref gorm others sn user s)
  unfolding create_ref after_create
  create_ref-IsBound sn user s = of_answer _ _ refl
    where
      of_answer :
          (t : S) (c : Created DeviceUserRef)
          → gorm.create (new_ref sn user) s ≡ (t, c)
          → IsBound gorm.same_text rows sn user (create_ref gorm others sn user s)
      of_answer t (created r) g = rw (g, create_ref) (created-IsBound sn user s t r g)
      of_answer t (create_failed n) g = rw (g, create_ref) (retry_bind-IsBound sn user n t)

  bind_user-IsBound :
      (sn : Text) (user : ℕ) (s : S)
      → IsBound gorm.same_text rows sn user (bind_user gorm others sn user s)
  unfolding bind_user
  bind_user-IsBound sn user s = of_answer (gorm.take (has_serial gorm.same_text sn) s) refl
    where
      of_answer :
          (q : Query DeviceUserRef)
          → gorm.take (has_serial gorm.same_text sn) s ≡ q
          → IsBound gorm.same_text rows sn user (bind_user gorm others sn user s)
      of_answer (query_failed n) g = rw (g, bind_user) (failed-IsBound sn user _ s)
      of_answer record_not_found g = rw (g, bind_user) (create_ref-IsBound sn user (others s))
      of_answer (found existing) g = rw (g, bind_user) (own-IsBound sn user existing s g)

  -- Where `BindDevice` reports a binding, whatever other connections do between its statements, the row is in
  -- the table and binds to the user a serial number that the database takes for the trimmed one; how it compares
  -- texts is left to it.
  pub bind_device-IsBound :
      (serial : Text) (user : ℕ) (s : S)
      → IsBound gorm.same_text rows (trim_space serial) user (bind_device gorm others serial user s)
  unfolding bind_device with_text
  bind_device-IsBound serial zero s =
      unless_empty_holds (IsBound gorm.same_text rows (trim_space serial) zero) (trim_space serial)
        _ _ (failed-IsBound _ _ _ s) (failed-IsBound _ _ _ s)
  bind_device-IsBound serial (suc n) s =
      unless_empty_holds (IsBound gorm.same_text rows (trim_space serial) (suc n))
        (trim_space serial) _ _ (failed-IsBound _ _ _ s)
        (bind_user-IsBound (trim_space serial) (suc n) s)
