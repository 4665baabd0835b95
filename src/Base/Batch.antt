-- ===== src/Base/Batch.antt =====
-- One batch of `SELECT id … WHERE p ORDER BY column LIMIT n`, and its deletion by ids.
use Prim.Native.Nat.{ℕ, ◌+◌, min}
use mathlib.Core.Path.{◌≡◌}
use mathlib.Core.Bool.{Bool, true, not}
use mathlib.Core.Option.{some}
use mathlib.Core.List.{List}
use native.Mathlib.Omega.{arith}
use nuvrag_platform.Base.Lists.{length, take, filter, count, length-filter, length-take, All}
use nuvrag_platform.Base.Rows.{Keyed, key, get, HasUniqueKeys}
use nuvrag_platform.Base.Sorted.{
  elem, keys, sort_by, length-sort_by, get-sort_by, sort_by-HasUniqueKeys, get-filter,
  filter-HasUniqueKeys, get-take, take-HasUniqueKeys, elem-keys-some, count-elem, count-filter-not,
  All-of_get,
}

module _ {A : Type 0} ⦃k : Keyed A⦄ (column : A → ℕ) (p : A → Bool) (n : ℕ) (xs : List A) where
  abbrev pub pick : List A
  pick = take n (sort_by column (filter p xs))

  -- A batch is full, or holds all that there is.
  pub length-pick : length pick ≡ min n (count p xs)
  length-pick = omega (
    arith,
    length-take n (sort_by column (filter p xs)),
    length-sort_by column (filter p xs),
    length-filter p xs,
  )

  module _ (unique : HasUniqueKeys xs) where
    pub pick-HasUniqueKeys : HasUniqueKeys pick
    pick-HasUniqueKeys =
        take-HasUniqueKeys n (sort_by column (filter p xs))
          (sort_by-HasUniqueKeys column (filter p xs) (filter-HasUniqueKeys p xs unique))

    -- A chosen row is stored under its id, and matches.
    pub get-pick : (id : ℕ) (y : A) → get id pick ≡ some y → (get id xs ≡ some y) × (p y ≡ true)
    get-pick id y e =
        get-filter p id y xs
          (ground (
            arith,
            get-sort_by column id (filter p xs) (filter-HasUniqueKeys p xs unique),
            get-take n id y (sort_by column (filter p xs)) e,
          ))
          unique

    -- A chosen id is that of a stored row that matches.
    pub elem-pick :
        (id : ℕ) → elem id (keys pick) ≡ true → (y : A) × (get id xs ≡ some y) × (p y ≡ true)
    elem-pick id e =
        let (y, found) = elem-keys-some id pick e in
        let (stored, matches) = get-pick id y found in (y, stored, matches)

    -- Deleting by the chosen ids reaches as many rows as were chosen.
    pub count-pick : count (λ r. elem (key r) (keys pick)) xs ≡ length pick
    count-pick =
        count-elem pick xs
          (take-HasUniqueKeys n (sort_by column (filter p xs))
            (sort_by-HasUniqueKeys column (filter p xs) (filter-HasUniqueKeys p xs unique)))
          unique (λ id y e. (get-pick id y e).0)

    -- What matches afterwards is what matched before less the batch.
    pub count-after_pick :
        count p (filter (λ r. not (elem (key r) (keys pick))) xs) + length pick ≡ count p xs
    count-after_pick =
        let all : All (λ r. elem (key r) (keys pick) ≡ true → p r ≡ true) xs =
          All-of_get (λ r. elem (key r) (keys pick) ≡ true → p r ≡ true) xs unique
            (λ r stored e. let (y, found, matches) = elem-pick (key r) e in ground arith) in
        omega (arith, count-filter-not p (λ r. elem (key r) (keys pick)) xs all, count-pick)
