-- ===== src/Database/Laws.antt =====
-- What is relied on of gorm and its database, for a table with a unique serial number.
use xiaozhi_esp32_golang_ser.Prelude.{
  ℕ, ◌≡◌, ◌≢◌, refl, sym, ap, subst, ◌∙◌, Bool-cases, ◌==◌, Bool, true, false, not, none, List, [],
  ◌∷◌, ◌++◌, length, keep, All, if◌then◌else◌, arith, inl, inr,
}
use mathlib.Core.List.{Memᴰ}
use mathlib.Core.List.Memᴰ.{head, tail}
use xiaozhi_esp32_golang_ser.Session.Message.{Text}
use xiaozhi_esp32_golang_ser.Database.{
  DbError, affected_or, unless_empty, found, record_not_found, Created, created, create_failed,
  Affected, affected, exec_failed, Gorm,
}

-- The rows that pass a test are changed.
unfoldable pub update_rows : {Row : Type 0} → (Row → Bool) → (Row → Row) → List Row → List Row
update_rows p f [] = []
update_rows p f (r ∷ rows) = let rest = update_rows p f rows in if p r then f r ∷ rest else r ∷ rest

-- `rows` are those of the table in a store, `put_id` sets the id that the database gives a new row. A
-- statement that fails leaves the table; `create` refuses a serial number that is there.
pub record IsGorm {S Row : Type 0} (gorm : Gorm S Row) (rows : S → List Row) (serial : Row → Text)
    (put_id : ℕ → Row → Row) : Type 0 where
  pub same_refl : (t : Text) → gorm.same_text t t ≡ true
  pub takes_row :
      (p : Row → Bool) (s : S) (r : Row) → gorm.take p s ≡ found r → Memᴰ r (rows s) × (p r ≡ true)
  pub takes_none :
      (p : Row → Bool) (s : S) → gorm.take p s ≡ record_not_found → All (λ r. p r ≡ false) (rows s)
  pub creates :
      (r r' : Row) (s t : S)
      → gorm.create r s ≡ (t, created r')
      → (rows t ≡ rows s ++ r' ∷ [])
        × (((i : ℕ) × (r' ≡ put_id i r)) × All (λ x. serial x ≢ serial r) (rows s))
  pub creates_none :
      (r : Row) (e : ℕ) (s t : S) → gorm.create r s ≡ (t, create_failed e) → rows t ≡ rows s
  pub updates :
      (p : Row → Bool) (f : Row → Row) (n : ℕ) (s t : S)
      → gorm.update p f s ≡ (t, affected n)
      → (rows t ≡ update_rows p f (rows s)) × (n ≡ length (keep p (rows s)))
  pub updates_none :
      (p : Row → Bool) (f : Row → Row) (e : ℕ) (s t : S)
      → gorm.update p f s ≡ (t, exec_failed e)
      → rows t ≡ rows s
  pub deletes :
      (p : Row → Bool) (n : ℕ) (s t : S)
      → gorm.delete p s ≡ (t, affected n)
      → (rows t ≡ keep (λ r. not (p r)) (rows s)) × (n ≡ length (keep p (rows s)))
  pub deletes_none :
      (p : Row → Bool) (e : ℕ) (s t : S) → gorm.delete p s ≡ (t, exec_failed e) → rows t ≡ rows s

-- A row behind an update: a changed one, or one that does not pass the test.
pub data IsUpdated {Row : Type 0} (p : Row → Bool) (f : Row → Row) (rows : List Row) (x : Row)
    : Type 0 where
  changed : (r : Row) → Memᴰ r rows → p r ≡ true → x ≡ f r → IsUpdated p f rows x
  kept : Memᴰ x rows → p x ≡ false → IsUpdated p f rows x

module _ {Row : Type 0} (p : Row → Bool) (f : Row → Row) where
  later-IsUpdated :
      (r : Row) (rows : List Row) (x : Row) → IsUpdated p f rows x → IsUpdated p f (r ∷ rows) x
  later-IsUpdated r rows x (changed r' m h e) = changed r' (tail m) h e
  later-IsUpdated r rows x (kept m h) = kept (tail m) h

  changed_first :
      (r : Row) (rows rest : List Row) (x : Row)
      → p r ≡ true
      → (Memᴰ x rest → IsUpdated p f rows x)
      → Memᴰ x (f r ∷ rest)
      → IsUpdated p f (r ∷ rows) x
  changed_first r rows rest x e more (head q) = changed r (head refl) e q
  changed_first r rows rest x e more (tail m) = later-IsUpdated r rows x (more m)

  kept_first :
      (r : Row) (rows rest : List Row) (x : Row)
      → p r ≡ false
      → (Memᴰ x rest → IsUpdated p f rows x)
      → Memᴰ x (r ∷ rest)
      → IsUpdated p f (r ∷ rows) x
  kept_first r rows rest x e more (head q) = kept (head q) (ap p q ∙ e)
  kept_first r rows rest x e more (tail m) = later-IsUpdated r rows x (more m)

  pub Mem-update_rows :
      (rows : List Row) (x : Row) → Memᴰ x (update_rows p f rows) → IsUpdated p f rows x
  unfolding update_rows
  Mem-update_rows [] x m = elim m [ ]
  Mem-update_rows (r ∷ rows) x m =
      let rest = Mem-update_rows rows x in
      elim (Bool-cases (p r)) [
        | inl e ↦ changed_first r rows _ x e rest (subst (Memᴰ x) (simp e refl) m)
        | inr e ↦ kept_first r rows _ x e rest (subst (Memᴰ x) (simp e refl) m)
      ]

-- A row that does not pass the test stays.
pub update_rows_keeps :
    {Row : Type 0} (p : Row → Bool) (f : Row → Row) (rows : List Row) (x : Row)
    → Memᴰ x rows
    → p x ≡ false
    → Memᴰ x (update_rows p f rows)
unfolding update_rows
update_rows_keeps p f [] x m h = elim m [ ]
update_rows_keeps p f (r ∷ rows) x (head q) h = simp (sym (ap p q) ∙ h) (head q)
update_rows_keeps p f (r ∷ rows) x (tail m) h = elim (Bool-cases (p r)) [
  | inl e ↦ simp e (tail (update_rows_keeps p f rows x m h))
  | inr e ↦ simp e (tail (update_rows_keeps p f rows x m h))
]

Mem-append : {Row : Type 0} (rows more : List Row) (x : Row) → Memᴰ x rows → Memᴰ x (rows ++ more)
Mem-append [] more x m = elim m [ ]
Mem-append (r ∷ rows) more x (head q) = head q
Mem-append (r ∷ rows) more x (tail m) = tail (Mem-append rows more x m)

pub Mem-last : {Row : Type 0} (rows : List Row) (x : Row) → Memᴰ x (rows ++ x ∷ [])
Mem-last [] x = head refl
Mem-last (r ∷ rows) x = tail (Mem-last rows x)

-- What an operation that ends well did to the rows.
module _ {S Row : Type 0} (gorm : Gorm S Row) (rows : S → List Row) (serial : Row → Text)
    (put_id : ℕ → Row → Row) (laws : IsGorm gorm rows serial put_id) where
  updated_by :
      (p : Row → Bool) (f : Row → Row) (s t : S) (a : Affected) (e : DbError)
      → gorm.update p f s ≡ (t, a)
      → affected_or e a ≡ none
      → rows t ≡ update_rows p f (rows s)
  unfolding affected_or
  updated_by p f s t (affected n) e q h = (laws.updates p f n s t q).0
  updated_by p f s t (exec_failed n) e q h = absurd cc

  pub update_rows_of :
      (p : Row → Bool) (f : Row → Row) (s : S) (e : DbError)
      → affected_or e (gorm.update p f s).1 ≡ none
      → rows (gorm.update p f s).0 ≡ update_rows p f (rows s)
  update_rows_of p f s e h = updated_by p f s _ _ e refl h

  pub update_keeps_row :
      (p : Row → Bool) (f : Row → Row) (s : S) (x : Row)
      → Memᴰ x (rows s)
      → p x ≡ false
      → Memᴰ x (rows (gorm.update p f s).0)
  update_keeps_row p f s x m h = of_answer _ _ refl
    where
      of_answer : (t : S) (a : Affected) → gorm.update p f s ≡ (t, a) → Memᴰ x (rows t)
      of_answer t (affected n) e =
          subst (Memᴰ x) (sym (laws.updates p f n s t e).0) (update_rows_keeps p f (rows s) x m h)
      of_answer t (exec_failed n) e = subst (Memᴰ x) (sym (laws.updates_none p f n s t e)) m

  pub create_keeps_row :
      (r : Row) (s : S) (x : Row) → Memᴰ x (rows s) → Memᴰ x (rows (gorm.create r s).0)
  create_keeps_row r s x m = of_answer _ _ refl
    where
      of_answer : (t : S) (a : Created Row) → gorm.create r s ≡ (t, a) → Memᴰ x (rows t)
      of_answer t (created r') e =
          subst (Memᴰ x) (sym (laws.creates r r' s t e).0) (Mem-append (rows s) (r' ∷ []) x m)
      of_answer t (create_failed n) e = subst (Memᴰ x) (sym (laws.creates_none r n s t e)) m

-- Rows with different tests have different ids, where an id is one row's.
pub other_id :
    {Row : Type 0} (id : Row → ℕ) (good : Row → Bool) (x y : Row)
    → (id x ≡ id y → x ≡ y)
    → good x ≡ false
    → good y ≡ true
    → (id x == id y) ≡ false
other_id id good x y unique h k = elim (Bool-cases (id x == id y)) [
  | inl e ↦ let clashes = clash (unique (ground arith)) in absurd cc
  | inr e ↦ e
]
  where
    clash : x ≡ y → true ≡ false
    clash q = sym k ∙ sym (ap good q) ∙ h

-- What holds of both ends of a check of a text.
pub unless_empty_holds :
    {A : Type 0} (P : A → Type 0) (t : Text) (refused : A) (act : Text → A)
    → P refused
    → P (act t)
    → P (unless_empty t refused act)
unfolding unless_empty
unless_empty_holds P [] refused act h k = h
unless_empty_holds P (c ∷ cs) refused act h k = k
