-- ===== src/Db/Sort.antt =====
-- `ORDER BY` and Python's `sorted`: a stable sort by insertion. SQLite leaves the order of equal
-- rows open; here they stay in rowid order.
use mathlib.Core.List.{Perm}
use mathlib.Core.List.Perm
use secnano.Prelude.{
  String, ◌≡◌, Bool, true, false, List, [], ◌∷◌, if◌then◌else◌, Bool-cases, inl, inr, All, str_le,
  str_le_total, str_le_trans, any, ◌||◌, ◌∙◌, ap, refl, arith,
}

module _ {ℓ} {R : Type ℓ} (le : R → R → Bool) where
  unfoldable pub sort_insert : R → List R → List R
  sort_insert x [] = x ∷ []
  sort_insert x (y ∷ ys) = let rest = sort_insert x ys in if le x y then x ∷ y ∷ ys else y ∷ rest

  unfoldable pub sort : List R → List R
  unfolding sort_insert
  sort [] = []
  sort (x ∷ xs) = sort_insert x (sort xs)

  -- Each row stands before or beside all that follow.
  abbrev pub IsSorted : List R → Type 0
  IsSorted [] = Unit
  IsSorted (x ∷ xs) = All (λ y. le x y ≡ true) xs × IsSorted xs

  sort_insert-perm : (x : R) (xs : List R) → Perm (sort_insert x xs) (x ∷ xs)
  unfolding sort_insert
  sort_insert-perm x [] = Perm.rfl
  sort_insert-perm x (y ∷ ys) = elim (Bool-cases (le x y)) [
    | inl e ↦ rw e Perm.rfl
    | inr e ↦ rw e (Perm.trans (Perm.cons y (sort_insert-perm x ys)) (Perm.swap x y ys))
  ]

  pub sort-perm : (xs : List R) → Perm (sort xs) xs
  unfolding sort
  sort-perm [] = Perm.rfl
  sort-perm (x ∷ xs) = Perm.trans (sort_insert-perm x (sort xs)) (Perm.cons x (sort-perm xs))

  module _ (total : (x y : R) → le x y ≡ false → le y x ≡ true)
      (trans : (x y z : R) → le x y ≡ true → le y z ≡ true → le x z ≡ true) where
    All-le_trans :
        (x y : R) (ys : List R)
        → le x y ≡ true
        → All (λ z. le y z ≡ true) ys
        → All (λ z. le x z ≡ true) ys
    All-le_trans x y [] h a = tt
    All-le_trans x y (z ∷ ys) h a = (trans x y z h a.0, All-le_trans x y ys h a.1)

    All-sort_insert :
        (w x : R) (xs : List R)
        → le w x ≡ true
        → All (λ y. le w y ≡ true) xs
        → All (λ y. le w y ≡ true) (sort_insert x xs)
    unfolding sort_insert
    All-sort_insert w x [] h a = (h, tt)
    All-sort_insert w x (y ∷ ys) h a = elim (Bool-cases (le x y)) [
      | inl e ↦ rw e (h, a)
      | inr e ↦ rw e (a.0, All-sort_insert w x ys h a.1)
    ]

    sort_insert-IsSorted : (x : R) (xs : List R) → IsSorted xs → IsSorted (sort_insert x xs)
    unfolding sort_insert
    sort_insert-IsSorted x [] s = (tt, tt)
    sort_insert-IsSorted x (y ∷ ys) s = elim (Bool-cases (le x y)) [
      | inl e ↦ rw e ((e, All-le_trans x y ys e s.0), s)
      | inr e ↦ rw e (All-sort_insert y x ys (total x y e) s.0, sort_insert-IsSorted x ys s.1)
    ]

    pub sort-IsSorted : (xs : List R) → IsSorted (sort xs)
    unfolding sort
    sort-IsSorted [] = tt
    sort-IsSorted (x ∷ xs) = sort_insert-IsSorted x (sort xs) (sort-IsSorted xs)

module _ {ℓ} {R : Type ℓ} (field : R → String) where
  -- ORDER BY field ASC
  abbrev pub ascending : R → R → Bool
  ascending x y = str_le (field x) (field y)

  -- ORDER BY field DESC
  abbrev pub descending : R → R → Bool
  descending x y = str_le (field y) (field x)

  pub ascending-IsSorted : (xs : List R) → IsSorted ascending (sort ascending xs)
  ascending-IsSorted =
      sort-IsSorted ascending (λ x y. str_le_total (field x) (field y))
        (λ x y z. str_le_trans (field x) (field y) (field z))

  pub descending-IsSorted : (xs : List R) → IsSorted descending (sort descending xs)
  descending-IsSorted =
      sort-IsSorted descending (λ x y. str_le_total (field y) (field x))
        (λ x y z p q. str_le_trans (field z) (field y) (field x) q p)

module _ {ℓ} {R : Type ℓ} (test : R → Bool) (le : R → R → Bool) where
  any-sort_insert : (x : R) (xs : List R) → any test (sort_insert le x xs) ≡ test x || any test xs
  unfolding any sort_insert
  any-sort_insert x [] = refl
  any-sort_insert x (y ∷ ys) = ground (arith, any-sort_insert x ys)

  pub any-sort : (xs : List R) → any test (sort le xs) ≡ any test xs
  unfolding any sort
  any-sort [] = refl
  any-sort (x ∷ xs) = any-sort_insert x (sort le xs) ∙ ap (λ (b : Bool). test x || b) (any-sort xs)
