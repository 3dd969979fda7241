-- ===== src/Db/Table.antt =====
-- A table of secnano/db.py with a TEXT PRIMARY KEY: its rows in rowid order, which is the order of
-- insertion, and what the SQL statements of that file do to it.
use secnano.Prelude.{
  String, ◌≡◌, refl, Option, none, some, List, [], ◌∷◌, ◌++◌, arith, ◌==◌, eq_iff, is_some,
  if◌then◌else◌, Bool-cases, Option-cases, inl, inr,
}

module _ {ℓ} {R : Type ℓ} (key : R → String) where
  -- SELECT * FROM t WHERE key = ?, and `fetchone`
  unfoldable pub find_row : String → List R → Option R
  find_row k [] = none
  find_row k (x ∷ xs) = if key x == k then some x else find_row k xs

  -- INSERT INTO t ... ON CONFLICT(key) DO UPDATE SET ...: `update` is the row after the SET list.
  unfoldable pub upsert_row : (R → R) → R → List R → List R
  upsert_row update r [] = r ∷ []
  upsert_row update r (x ∷ xs) =
      let rest = upsert_row update r xs in if key x == key r then update x ∷ xs else x ∷ rest

  -- INSERT OR IGNORE INTO t
  unfoldable pub insert_or_ignore : R → List R → List R
  unfolding find_row
  insert_or_ignore r xs = if is_some (find_row (key r) xs) then xs else xs ++ r ∷ []

  -- DELETE FROM t WHERE key = ?
  unfoldable pub delete_row : String → List R → List R
  delete_row k [] = []
  delete_row k (x ∷ xs) = let rest = delete_row k xs in if key x == k then rest else x ∷ rest

  -- INSERT OR REPLACE INTO t
  unfoldable pub insert_or_replace : R → List R → List R
  unfolding delete_row
  insert_or_replace r xs = delete_row (key r) xs ++ r ∷ []

  -- UPDATE t SET ... WHERE key = ?
  unfoldable pub update_row : String → (R → R) → List R → List R
  update_row k update [] = []
  update_row k update (x ∷ xs) = (if key x == k then update x else x) ∷ update_row k update xs

  -- The primary key: no two rows share it.
  abbrev pub UniqueKeys : List R → Type ℓ
  UniqueKeys [] = Unit
  UniqueKeys (x ∷ xs) = (find_row (key x) xs ≡ none) × UniqueKeys xs

  abbrev upserted : (R → R) → R → Option R → R
  upserted update r none = r
  upserted update r (some x) = update x

  pub find_row-key : (k : String) (xs : List R) (x : R) → find_row k xs ≡ some x → key x ≡ k
  unfolding find_row
  find_row-key k [] x h = cc
  find_row-key k (y ∷ xs) x h = ground (arith, eq_iff (key y) k, find_row-key k xs x)

  pub find_row-append :
      (k : String) (xs : List R) (r : R)
      → find_row k xs ≡ none
      → find_row k (xs ++ r ∷ []) ≡ (if key r == k then some r else none)
  unfolding find_row
  find_row-append k [] r h = refl
  find_row-append k (x ∷ xs) r h = ground (arith, find_row-append k xs r)

  pub find_row-append_some :
      (k : String) (xs ys : List R) (x : R)
      → find_row k xs ≡ some x
      → find_row k (xs ++ ys) ≡ some x
  unfolding find_row
  find_row-append_some k [] ys x h = cc
  find_row-append_some k (y ∷ xs) ys x h = ground (arith, find_row-append_some k xs ys x)

  pub find_row-insert_or_ignore :
      (k : String) (r : R) (xs : List R)
      → find_row k (insert_or_ignore r xs)
        ≡ (if is_some (find_row k xs) then find_row k xs else if key r == k then some r else none)
  unfolding insert_or_ignore
  find_row-insert_or_ignore k r xs = elim (Option-cases (find_row k xs)) [
    | inl absent ↦ ground (arith, eq_iff (key r) k, find_row-append k xs r)
    | inr (x, found) ↦ ground (arith, find_row-append_some k xs (r ∷ []) x)
  ]

  -- What a key finds after an upsert, if the update keeps the key.
  pub find_row-upsert_row :
      (update : R → R) (r : R) (j : String) (xs : List R)
      → ((x : R) → key x ≡ key r → key (update x) ≡ key r)
      → find_row j (upsert_row update r xs)
        ≡ (if key r == j then some (upserted update r (find_row (key r) xs)) else find_row j xs)
  unfolding find_row upsert_row
  find_row-upsert_row update r j [] keeps = refl
  find_row-upsert_row update r j (x ∷ xs) keeps = ground (
    arith,
    eq_iff (key x) (key r),
    eq_iff (key x) j,
    eq_iff (key r) j,
    eq_iff (key (update x)) j,
    keeps x,
    find_row-upsert_row update r j xs keeps,
  )

  pub find_row-update_row :
      (k j : String) (update : R → R) (xs : List R)
      → ((x : R) → key (update x) ≡ key x)
      → find_row j (update_row k update xs) ≡ (
          if k == j
          then elim (find_row j xs) [ none ↦ none | some x ↦ some (update x) ]
          else find_row j xs)
  unfolding find_row update_row
  find_row-update_row k j update [] keeps = ground arith
  find_row-update_row k j update (x ∷ xs) keeps = ground (
    arith,
    eq_iff (key x) k,
    eq_iff (key x) j,
    eq_iff k j,
    eq_iff (key (update x)) j,
    keeps x,
    find_row-update_row k j update xs keeps,
  )

  pub upsert_row-UniqueKeys :
      (update : R → R) (r : R) (xs : List R)
      → ((x : R) → key x ≡ key r → key (update x) ≡ key r)
      → UniqueKeys xs
      → UniqueKeys (upsert_row update r xs)
  unfolding find_row upsert_row
  upsert_row-UniqueKeys update r [] keeps u = (refl, tt)
  upsert_row-UniqueKeys update r (x ∷ xs) keeps u = elim (Bool-cases (key x == key r)) [
    | inl same ↦
        let e : key x ≡ key r = (eq_iff (key x) (key r)).0 same in
        rw same (cc (keeps x e, e, u.0), u.1)
    | inr other ↦ rw other (
      ground (
        arith,
        find_row-upsert_row update r (key x) xs keeps,
        eq_iff (key r) (key x),
        eq_iff (key x) (key r),
      ),
      upsert_row-UniqueKeys update r xs keeps u.1,
    )
  ]
