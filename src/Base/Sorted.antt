-- ===== src/Base/Sorted.antt =====
-- `ORDER BY column LIMIT n`, and the rows that it chooses of a table with a primary key.
use Prim.Native.Nat.{ℕ, zero, suc, ◌+◌}
use mathlib.Core.Path.{◌≡◌, refl}
use mathlib.Core.Logic.{inl, inr}
use mathlib.Core.Bool.{Bool, true, false, not, ◌||◌}
use mathlib.Core.Option.{none, some}
use mathlib.Core.List.{List, [], ◌∷◌, map}
use native.Mathlib.Omega.{arith}
use nuvrag_platform.Base.Tests.{◌==◌, leb, if◌then◌else◌, Bool-cases}
use nuvrag_platform.Base.Lists.{length, take, filter, count, All}
use nuvrag_platform.Base.Rows.{Keyed, key, get, HasUniqueKeys}

-- `x in ids`
abbrev pub elem : ℕ → List ℕ → Bool
elem x [] = false
elem x (y ∷ ys) = (x == y) || elem x ys

module _ {A : Type 0} (column : A → ℕ) where
  pub insert_by : A → List A → List A
  insert_by x [] = x ∷ []
  insert_by x (y ∷ ys) = if leb (column x) (column y) then x ∷ y ∷ ys else y ∷ insert_by x ys

  -- `ORDER BY column`, a stable sort
  unfoldable pub sort_by : List A → List A
  unfolding insert_by
  sort_by [] = []
  sort_by (x ∷ xs) = insert_by x (sort_by xs)

  length-insert_by : (x : A) (ys : List A) → length (insert_by x ys) ≡ suc (length ys)
  unfolding insert_by
  length-insert_by x [] = refl
  length-insert_by x (y ∷ ys) = ground (arith, length-insert_by x ys)

  pub length-sort_by : (xs : List A) → length (sort_by xs) ≡ length xs
  unfolding sort_by
  length-sort_by [] = refl
  length-sort_by (x ∷ xs) = ground (arith, length-insert_by x (sort_by xs), length-sort_by xs)

module _ {A : Type 0} ⦃k : Keyed A⦄ (column : A → ℕ) where
  get-insert_by :
      (id : ℕ) (x : A) (ys : List A)
      → get (key x) ys ≡ none
      → get id (insert_by column x ys) ≡ (if key x == id then some x else get id ys)
  unfolding insert_by
  get-insert_by id x [] h = refl
  get-insert_by id x (y ∷ ys) h = ground (arith, get-insert_by id x ys)

  pub get-sort_by :
      (id : ℕ) (xs : List A) → HasUniqueKeys xs → get id (sort_by column xs) ≡ get id xs
  unfolding sort_by
  get-sort_by id [] h = refl
  get-sort_by id (x ∷ xs) h = ground (
    arith,
    get-insert_by id x (sort_by column xs),
    get-sort_by id xs h.1,
    get-sort_by (key x) xs h.1,
  )

  insert_by-HasUniqueKeys :
      (x : A) (ys : List A)
      → get (key x) ys ≡ none
      → HasUniqueKeys ys
      → HasUniqueKeys (insert_by column x ys)
  unfolding insert_by
  insert_by-HasUniqueKeys x [] h u = (refl, tt)
  insert_by-HasUniqueKeys x (y ∷ ys) h u =
      ground (arith, insert_by-HasUniqueKeys x ys, get-insert_by (key y) x ys)

  pub sort_by-HasUniqueKeys : (xs : List A) → HasUniqueKeys xs → HasUniqueKeys (sort_by column xs)
  unfolding sort_by
  sort_by-HasUniqueKeys [] h = tt
  sort_by-HasUniqueKeys (x ∷ xs) h =
      insert_by-HasUniqueKeys x (sort_by column xs) (ground (arith, get-sort_by (key x) xs h.1))
        (sort_by-HasUniqueKeys xs h.1)

module _ {A : Type 0} where
  count_of_false : (xs : List A) → count (λ _. false) xs ≡ 0
  count_of_false [] = refl
  count_of_false (x ∷ xs) = count_of_false xs

  -- Tests that exclude one another are counted apart.
  pub count-or :
      (p q : A → Bool) (xs : List A)
      → ((x : A) → p x ≡ true → q x ≡ false)
      → count (λ x. p x || q x) xs ≡ count p xs + count q xs
  count-or p q [] h = refl
  count-or p q (x ∷ xs) h = ground (arith, count-or p q xs h, h x)

  -- Removing rows of a kind lowers the count of the kind by their number.
  pub count-filter-not :
      (p q : A → Bool) (xs : List A)
      → All (λ x. q x ≡ true → p x ≡ true) xs
      → count p (filter (λ x. not (q x)) xs) + count q xs ≡ count p xs
  count-filter-not p q [] h = refl
  count-filter-not p q (x ∷ xs) h = ground (arith, count-filter-not p q xs h.1, h.0)

module _ {A : Type 0} ⦃k : Keyed A⦄ where
  count-key_none : (id : ℕ) (xs : List A) → get id xs ≡ none → count (λ r. key r == id) xs ≡ 0
  count-key_none id [] h = refl
  count-key_none id (x ∷ xs) h = ground (arith, count-key_none id xs)

  get-filter-none :
      (p : A → Bool) (id : ℕ) (xs : List A) → get id xs ≡ none → get id (filter p xs) ≡ none
  get-filter-none p id [] h = refl
  get-filter-none p id (x ∷ xs) h = ground (arith, get-filter-none p id xs)

  -- A filtered table has the row of an id exactly if the row passes.
  pub get-filter :
      (p : A → Bool) (id : ℕ) (y : A) (xs : List A)
      → get id (filter p xs) ≡ some y
      → HasUniqueKeys xs
      → (get id xs ≡ some y) × (p y ≡ true)
  get-filter p id y [] h u = cc
  get-filter p id y (x ∷ xs) h u =
      ground (arith, get-filter p id y xs, get-filter-none p (key x) xs)

  pub filter-HasUniqueKeys :
      (p : A → Bool) (xs : List A) → HasUniqueKeys xs → HasUniqueKeys (filter p xs)
  filter-HasUniqueKeys p [] h = tt
  filter-HasUniqueKeys p (x ∷ xs) h =
      ground (arith, filter-HasUniqueKeys p xs h.1, get-filter-none p (key x) xs)

  get-take-none : (n id : ℕ) (xs : List A) → get id xs ≡ none → get id (take n xs) ≡ none
  get-take-none zero id xs h = refl
  get-take-none (suc n) id [] h = refl
  get-take-none (suc n) id (x ∷ xs) h = ground (arith, get-take-none n id xs)

  pub get-take : (n id : ℕ) (y : A) (xs : List A) → get id (take n xs) ≡ some y → get id xs ≡ some y
  get-take zero id y xs h = cc
  get-take (suc n) id y [] h = cc
  get-take (suc n) id y (x ∷ xs) h = ground (arith, get-take n id y xs)

  pub take-HasUniqueKeys : (n : ℕ) (xs : List A) → HasUniqueKeys xs → HasUniqueKeys (take n xs)
  take-HasUniqueKeys zero xs h = tt
  take-HasUniqueKeys (suc n) [] h = tt
  take-HasUniqueKeys (suc n) (x ∷ xs) h =
      ground (arith, take-HasUniqueKeys n xs h.1, get-take-none n (key x) xs)

  abbrev pub keys : List A → List ℕ
  keys = map (λ r. key r)

  elem-keys-none : (id : ℕ) (ys : List A) → get id ys ≡ none → elem id (keys ys) ≡ false
  elem-keys-none id [] h = refl
  elem-keys-none id (y ∷ ys) h = ground (arith, elem-keys-none id ys)

  pub elem-keys-some :
      (id : ℕ) (ys : List A) → elem id (keys ys) ≡ true → (y : A) × (get id ys ≡ some y)
  elem-keys-some id [] h = cc
  elem-keys-some id (y ∷ ys) h = elim (Bool-cases (key y == id)) [
    | inl hit ↦ (y, ground arith)
    | inr miss ↦ let (z, e) = elem-keys-some id ys (ground arith) in (z, ground arith)
  ]

  -- A statement about every stored row holds of every row of the list.
  pub All-of_get {κ} :
      (P : A → Type κ) (xs : List A)
      → HasUniqueKeys xs
      → ((r : A) → get (key r) xs ≡ some r → P r)
      → All P xs
  All-of_get P [] u h = tt
  All-of_get P (x ∷ xs) u h = (h x (ground arith), All-of_get P xs u.1 (λ r e. h r (ground arith)))

  count-key :
      (id : ℕ) (y : A) (xs : List A)
      → HasUniqueKeys xs
      → get id xs ≡ some y
      → count (λ r. key r == id) xs ≡ 1
  count-key id y [] u h = cc
  count-key id y (x ∷ xs) u h = ground (arith, count-key id y xs u.1, count-key_none id xs)

  -- A selection of stored rows is counted by their ids.
  pub count-elem :
      (ys xs : List A)
      → HasUniqueKeys ys
      → HasUniqueKeys xs
      → ((id : ℕ) (y : A) → get id ys ≡ some y → get id xs ≡ some y)
      → count (λ r. elem (key r) (keys ys)) xs ≡ length ys
  count-elem [] xs uy ux sub = count_of_false xs
  count-elem (y ∷ ys) xs uy ux sub =
      let apart =
        count-or (λ r. key r == key y) (λ r. elem (key r) (keys ys)) xs
          (λ r e. ground (arith, elem-keys-none (key y) ys uy.0)) in
      let first = count-key (key y) y xs ux (sub (key y) y (ground arith)) in
      let rest = count-elem ys xs uy.1 ux (λ id z e. sub id z (ground (arith, uy.0))) in
      omega (arith, apart, first, rest)

  -- A row that passes stays under its id.
  pub get-filter-some :
      (p : A → Bool) (id : ℕ) (y : A) (xs : List A)
      → get id xs ≡ some y
      → p y ≡ true
      → get id (filter p xs) ≡ some y
  get-filter-some p id y [] h e = cc
  get-filter-some p id y (x ∷ xs) h e = ground (arith, get-filter-some p id y xs)
