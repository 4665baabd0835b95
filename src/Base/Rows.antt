-- ===== src/Base/Rows.antt =====
-- A database table as the list of its rows in insertion order. A row is written back by its primary
-- key, as the session of `app/repositories/base.py` does with a mutated object.
use mathlib.Core.Path.{◌≡◌, refl}
use mathlib.Core.Logic.{◌≢◌, inl, inr}
use mathlib.Core.Bool.{Bool, true, false, not}
use mathlib.Core.Option.{Option, none, some}
use mathlib.Core.List.{List, [], ◌∷◌, ◌++◌, map}
use native.Mathlib.Omega.{arith}
use Prim.Native.Nat.{ℕ, ◌+◌, ◌<◌}
use nuvrag_platform.Base.Tests.{◌==◌, if◌then◌else◌, Bool-cases}
use nuvrag_platform.Base.Lists.{
  find, filter, count, All, find-append_none, count_pos-find, find-map-none,
}

-- The primary key of a row.
pub record Keyed (A : Type 0) : Type 0 where
  pub key : A → ℕ

abbrev pub key : {A : Type 0} ⦃k : Keyed A⦄ → A → ℕ
key ⦃k⦄ = k.key

-- How much a row adds to a count.
abbrev pub one : Bool → ℕ
one true = 1
one false = 0

module _ {A : Type 0} ⦃k : Keyed A⦄ where
  -- `session.get(Model, id)`
  abbrev pub get : ℕ → List A → Option A
  get id = find (λ r. key r == id)

  -- `session.add(row)` of a row that was loaded
  abbrev pub save : A → List A → List A
  save r [] = []
  save r (x ∷ xs) = (if key x == key r then r else x) ∷ save r xs

  All-save_head {κ} : (P : A → Type κ) (r x : A) → P x → P r → P (if key x == key r then r else x)
  All-save_head P r x h e = elim (Bool-cases (key x == key r)) [
    | inl hit ↦ rw hit e
    | inr miss ↦ rw miss h
  ]

  -- `session.add(row)` of a new row
  abbrev pub add : A → List A → List A
  add r xs = xs ++ r ∷ []

  -- `session.delete(row)`
  abbrev pub remove : ℕ → List A → List A
  remove id = filter (λ r. not (key r == id))

  -- `SET key value` of a key-value store
  abbrev pub put : A → List A → List A
  put r [] = r ∷ []
  put r (x ∷ xs) = if key x == key r then r ∷ xs else x ∷ put r xs

  -- No two rows have one primary key.
  abbrev pub HasUniqueKeys : List A → Type 0
  HasUniqueKeys [] = Unit
  HasUniqueKeys (x ∷ xs) = (get (key x) xs ≡ none) × HasUniqueKeys xs

  pub get-key : (id : ℕ) (xs : List A) (a : A) → get id xs ≡ some a → key a ≡ id
  get-key id [] a h = cc
  get-key id (x ∷ xs) a h = ground (arith, get-key id xs a)

  pub get-save_self :
      (r a : A) (xs : List A) → get (key r) xs ≡ some a → get (key r) (save r xs) ≡ some r
  get-save_self r a [] h = cc
  get-save_self r a (x ∷ xs) h = ground (arith, get-save_self r a xs)

  -- A row that is loaded, changed and written back.
  pub get-save_loaded :
      (id : ℕ) (r a : A) (xs : List A)
      → get id xs ≡ some a
      → key r ≡ key a
      → get id (save r xs) ≡ some r
  get-save_loaded id r a xs h e = ground (arith, e, h, get-key id xs a h, get-save_self r a xs)

  pub get-save_ne : (id : ℕ) (r : A) (xs : List A) → key r ≢ id → get id (save r xs) ≡ get id xs
  get-save_ne id r [] h = refl
  get-save_ne id r (x ∷ xs) h = ground (arith, get-save_ne id r xs h)

  pub get-save-none : (id : ℕ) (r : A) (xs : List A) → get id xs ≡ none → get id (save r xs) ≡ none
  get-save-none id r [] h = refl
  get-save-none id r (x ∷ xs) h = ground (arith, get-save-none id r xs)

  pub save-absent : (r : A) (xs : List A) → get (key r) xs ≡ none → save r xs ≡ xs
  save-absent r [] h = refl
  save-absent r (x ∷ xs) h = ground (arith, save-absent r xs)

  pub save-HasUniqueKeys : (r : A) (xs : List A) → HasUniqueKeys xs → HasUniqueKeys (save r xs)
  save-HasUniqueKeys r [] h = tt
  save-HasUniqueKeys r (x ∷ xs) h =
      ground (arith, save-HasUniqueKeys r xs h.1, get-save-none (key x) r xs)

  pub add-HasUniqueKeys :
      (r : A) (xs : List A) → HasUniqueKeys xs → get (key r) xs ≡ none → HasUniqueKeys (add r xs)
  add-HasUniqueKeys r [] h e = (refl, tt)
  add-HasUniqueKeys r (x ∷ xs) h e =
      ground (arith, add-HasUniqueKeys r xs h.1, find-append_none (λ y. key y == key x) xs (r ∷ []))

  -- Writing one row changes a count by that row alone.
  pub count-save :
      (p : A → Bool) (r old : A) (xs : List A)
      → HasUniqueKeys xs
      → get (key r) xs ≡ some old
      → count p (save r xs) + one (p old) ≡ count p xs + one (p r)
  count-save p r old [] h e = cc
  count-save p r old (x ∷ xs) h e = ground (arith, count-save p r old xs h.1, save-absent r xs)

  pub get-put :
      (id : ℕ) (r : A) (xs : List A)
      → get id (put r xs) ≡ (if key r == id then some r else get id xs)
  get-put id r [] = refl
  get-put id r (x ∷ xs) = ground (arith, get-put id r xs)

  pub get-add :
      (id : ℕ) (r : A) (xs : List A)
      → get id xs ≡ none
      → get id (add r xs) ≡ (if key r == id then some r else none)
  get-add id r xs h = find-append_none (λ x. key x == id) xs (r ∷ []) h

  pub get-add_ne : (id : ℕ) (r : A) (xs : List A) → key r ≢ id → get id (add r xs) ≡ get id xs
  get-add_ne id r [] h = ground arith
  get-add_ne id r (x ∷ xs) h = ground (arith, get-add_ne id r xs h)

  pub get-remove :
      (id j : ℕ) (xs : List A) → get j (remove id xs) ≡ (if id == j then none else get j xs)
  get-remove id j [] = ground arith
  get-remove id j (x ∷ xs) = ground (arith, get-remove id j xs)

  pub remove-HasUniqueKeys :
      (id : ℕ) (xs : List A) → HasUniqueKeys xs → HasUniqueKeys (remove id xs)
  remove-HasUniqueKeys id [] h = tt
  remove-HasUniqueKeys id (x ∷ xs) h =
      ground (arith, remove-HasUniqueKeys id xs h.1, get-remove id (key x) xs)

  remove-absent : (id : ℕ) (xs : List A) → get id xs ≡ none → remove id xs ≡ xs
  remove-absent id [] h = refl
  remove-absent id (x ∷ xs) h = ground (arith, remove-absent id xs)

  -- Removing one row lowers a count by that row alone.
  pub count-remove :
      (p : A → Bool) (id : ℕ) (old : A) (xs : List A)
      → HasUniqueKeys xs
      → get id xs ≡ some old
      → count p (remove id xs) + one (p old) ≡ count p xs
  count-remove p id old [] h e = cc
  count-remove p id old (x ∷ xs) h e =
      ground (arith, count-remove p id old xs h.1, remove-absent id xs)

  -- A row that is found and counted makes the count positive.
  pub count_pos :
      (p : A → Bool) (id : ℕ) (xs : List A) (a : A)
      → get id xs ≡ some a
      → p a ≡ true
      → 0 < count p xs
  count_pos p id xs a = count_pos-find p (λ r. key r == id) xs a

  -- A map that keeps every primary key keeps them distinct.
  pub map-HasUniqueKeys :
      (f : A → A) (xs : List A)
      → ((x : A) → key (f x) ≡ key x)
      → HasUniqueKeys xs
      → HasUniqueKeys (map f xs)
  map-HasUniqueKeys f [] keeps h = tt
  map-HasUniqueKeys f (x ∷ xs) keeps h = (
    rw (keeps x) (find-map-none (λ r. key r == key x) f xs (λ y. ground (arith, keeps y)) h.0),
    map-HasUniqueKeys f xs keeps h.1,
  )

  pub All-save {κ} : (P : A → Type κ) (r : A) (xs : List A) → All P xs → P r → All P (save r xs)
  All-save P r [] h e = tt
  All-save P r (x ∷ xs) h e = (All-save_head P r x h.0 e, All-save P r xs h.1 e)

  -- The row that a query finds is the row under its primary key.
  pub get_of_find :
      (p : A → Bool) (xs : List A) (a : A)
      → HasUniqueKeys xs
      → find p xs ≡ some a
      → get (key a) xs ≡ some a
  get_of_find p [] a h e = cc
  get_of_find p (x ∷ xs) a h e = ground (arith, get_of_find p xs a h.1)
