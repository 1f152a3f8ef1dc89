-- ===== src/Database/AccessToken/Laws.antt =====
-- A token that is revoked is not valid again.
use mathlib.Core.List.{Memᴰ}
use xiaozhi_esp32_golang_ser.Prelude.{
  ℕ, ◌≤◌, ◌<◌, ◌≡◌, ap, subst, inr, true, false, none, some, List, [], ◌∷◌, arith,
}
use xiaozhi_esp32_golang_ser.Database.{Gorm, found_or, or_now}
use xiaozhi_esp32_golang_ser.Database.Laws.{
  IsGorm, update_rows, changed, kept, Mem-update_rows, update_rows_of,
}
use xiaozhi_esp32_golang_ser.Database.AccessToken.{
  DeviceAccessToken, has_come, is_valid, has_hash, revoke_at, find_by_hash, revoke_by_hash,
}

-- The id that the database gives.
unfoldable pub put_id : ℕ → DeviceAccessToken → DeviceAccessToken
put_id i t = record t { id = i }

revoked_at_lem :
    (at now : ℕ) (t : DeviceAccessToken)
    → 0 < at
    → at ≤ now
    → t.revoked_at ≡ some at
    → is_valid now t ≡ false
unfolding is_valid has_come
revoked_at_lem at now t h k e = ground arith

module _ {S : Type 0} (gorm : Gorm S DeviceAccessToken) (rows : S → List DeviceAccessToken)
    (laws : IsGorm gorm rows (λ t. t.serial_number) put_id) where
  found_row :
      (hash : List ℕ) (s : S) (t : DeviceAccessToken)
      → find_by_hash gorm hash s ≡ inr t
      → Memᴰ t (rows s) × (has_hash hash t ≡ true)
  unfolding find_by_hash found_or
  found_row [] s t h = ground arith
  found_row (b ∷ hash) s t h = laws.takes_row (has_hash (b ∷ hash)) s t (ground arith)

  revoked_row :
      (at : ℕ) (hash : List ℕ) (old : List DeviceAccessToken) (t : DeviceAccessToken)
      → Memᴰ t (update_rows (has_hash hash) (revoke_at at) old)
      → has_hash hash t ≡ true
      → t.revoked_at ≡ some at
  unfolding revoke_at
  revoked_row at hash old t m h = elim (Mem-update_rows (has_hash hash) (revoke_at at) old t m) [
    | changed r m' e q ↦ ap (λ x. x.revoked_at) q
    | kept m' e ↦ absurd cc
  ]

  -- After `RevokeDeviceAccessTokenByAccessTokenHash` ended well for a time that is set, a token that is found
  -- under the hash is revoked from then on: `IsValid` refuses it at every later time.
  pub revoke_by_hash-is_valid :
      (now at later b : ℕ) (hash : List ℕ) (s : S) (t : DeviceAccessToken)
      → (revoke_by_hash gorm now (b ∷ hash) at s).1 ≡ none
      → find_by_hash gorm (b ∷ hash) (revoke_by_hash gorm now (b ∷ hash) at s).0 ≡ inr t
      → 0 < or_now now at
      → or_now now at ≤ later
      → is_valid later t ≡ false
  unfolding revoke_by_hash
  revoke_by_hash-is_valid now at later b hash s t h k p q =
      let r = found_row (b ∷ hash) _ t k in
      let same =
        update_rows_of gorm rows _ _ laws (has_hash (b ∷ hash)) (revoke_at (or_now now at)) s _ h in
      revoked_at_lem (or_now now at) later t p q
        (revoked_row (or_now now at) (b ∷ hash) (rows s) t (subst (Memᴰ t) same r.0) r.1)
