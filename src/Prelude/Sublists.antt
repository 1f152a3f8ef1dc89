-- ===== src/Prelude/Sublists.antt =====
-- Sublists: what a queue hands on is in the order in which it took it.
use mathlib.Core.List.{Sublistᴰ}
use mathlib.Core.List.Sublistᴰ.{slnil, cons, cons-cons}
use mathlib.Core.List.{List, [], ◌∷◌, ◌++◌}
use mathlib.Core.Path.{◌≡◌, refl, subst}

module _ {ℓ} {A : Type ℓ} where
  pub sublist_nil : (zs : List A) → Sublistᴰ [] zs
  sublist_nil [] = slnil
  sublist_nil (z ∷ zs) = cons (sublist_nil zs)

  pub prefix_of :
      {us zs : List A} → Sublistᴰ us zs → (xs ys : List A) → us ≡ xs ++ ys → Sublistᴰ xs zs
  prefix_of slnil [] ys e = slnil
  prefix_of slnil (x ∷ xs) ys e = cc
  prefix_of (cons h) xs ys e = cons (prefix_of h xs ys e)
  prefix_of (cons-cons p h) [] ys e = sublist_nil _
  prefix_of (cons-cons p h) (x ∷ xs) ys e = cons-cons (cc) (prefix_of h xs ys (cc))

  pub sublist_snoc :
      (x : A) {xs zs : List A} → Sublistᴰ xs zs → Sublistᴰ (xs ++ x ∷ []) (zs ++ x ∷ [])
  sublist_snoc x slnil = cons-cons refl slnil
  sublist_snoc x (cons h) = cons (sublist_snoc x h)
  sublist_snoc x (cons-cons p h) = cons-cons p (sublist_snoc x h)

  same_list : {us ys zs : List A} → Sublistᴰ us zs → us ≡ ys → Sublistᴰ ys zs
  same_list {zs} h e = subst (λ (l : List A). Sublistᴰ l zs) e h

  -- An element in the middle is dropped.
  pub sublist_skip :
      {us zs : List A}
      → Sublistᴰ us zs
      → (xs : List A) (x : A) (ys : List A) → us ≡ xs ++ x ∷ ys
      → Sublistᴰ (xs ++ ys) zs
  sublist_skip slnil [] x ys e = cc
  sublist_skip slnil (y ∷ xs) x ys e = cc
  sublist_skip (cons h) xs x ys e = cons (sublist_skip h xs x ys e)
  sublist_skip (cons-cons p h) [] x ys e = cons (same_list h (cc))
  sublist_skip (cons-cons p h) (y ∷ xs) x ys e = cons-cons (cc) (sublist_skip h xs x ys (cc))
