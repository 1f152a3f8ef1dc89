-- ===== src/Database.antt =====
-- The tables of internal/database, over gorm, which is a parameter: `Gorm` has the calls the source makes, for
-- one table with rows `Row` in a store `S`. A condition of a query is a test on rows. The columns
-- `created_at` and `updated_at`, which gorm fills in, are left out. A time is a number, 0 the zero time, and a
-- pointer to one an option.
pub mod Laws
pub mod AccessToken
pub mod Activation
pub mod Credential
pub mod UserRef
mod Tests
use xiaozhi_esp32_golang_ser.Prelude.{
  ℕ, zero, suc, Bool, true, false, Option, none, some, List, [], ◌∷◌, ◌⊎◌, inl, inr, ◌==◌,
  if◌then◌else◌,
}
use xiaozhi_esp32_golang_ser.Session.Splitter.{trim_space}
use xiaozhi_esp32_golang_ser.Session.Message.{Text}
use xiaozhi_esp32_golang_ser.Session.Message.Parse.{text_eq}

pub data Query (Row : Type 0) : Type 0 where
  found : Row → Query Row
  record_not_found : Query Row
  query_failed : ℕ → Query Row

pub data Created (Row : Type 0) : Type 0 where
  created : Row → Created Row
  create_failed : ℕ → Created Row

pub data Affected : Type 0 where
  affected : ℕ → Affected
  exec_failed : ℕ → Affected

pub data Listing (Row : Type 0) : Type 0 where
  listed : List Row → Listing Row
  list_failed : ℕ → Listing Row

-- `same_text` is how the database compares texts, which depends on the collation of the table: that of the
-- MySQL schema does not tell upper from lower case. `take_newest` and `find_newest` order by the id, descending.
pub record Gorm (S Row : Type 0) : Type 0 where
  pub same_text : Text → Text → Bool
  pub take : (Row → Bool) → S → Query Row
  pub take_newest : (Row → Bool) → S → Query Row
  pub find_newest : (Row → Bool) → S → Listing Row
  pub create : Row → S → S × Created Row
  pub update : (Row → Bool) → (Row → Row) → S → S × Affected
  pub delete : (Row → Bool) → S → S × Affected

pub data DbError : Type 0 where
  token_not_found activation_not_found credential_not_found binding_not_found : DbError
  empty_serial_number empty_token_hash empty_device_id empty_status empty_key empty_user_id :
      DbError
  invalid_token invalid_activation invalid_credential invalid_binding : DbError
  activation_blocked credential_blocked bound_to_other : DbError
  failed : ℕ → DbError

unfoldable pub found_or : {Row : Type 0} → DbError → Query Row → DbError ⊎ Row
found_or e (found r) = inr r
found_or e record_not_found = inl e
found_or e (query_failed n) = inl (failed n)

-- No row affected is an error.
unfoldable pub affected_or : DbError → Affected → Option DbError
affected_or e (affected zero) = some e
affected_or e (affected (suc n)) = none
affected_or e (exec_failed n) = some (failed n)

unfoldable pub create_error : {Row : Type 0} → Created Row → Option DbError
create_error (created r) = none
create_error (create_failed n) = some (failed n)

unfoldable pub update_error : Affected → Option DbError
update_error (affected n) = none
update_error (exec_failed n) = some (failed n)

unfoldable pub unless_empty : {A : Type 0} → Text → A → (Text → A) → A
unless_empty [] refused act = refused
unless_empty (c ∷ cs) refused act = act (c ∷ cs)

-- A text is trimmed, and an empty one refused.
unfoldable pub with_text : {A : Type 0} → Text → A → (Text → A) → A
with_text t refused act = unless_empty (trim_space t) refused act

unfoldable pub or_default : Text → Text → Text
or_default [] default = default
or_default (c ∷ cs) default = c ∷ cs

unfoldable pub or_now : ℕ → ℕ → ℕ
or_now now t = if t == 0 then now else t
