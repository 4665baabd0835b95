-- ===== src/Sessions/Slug.antt =====
-- `app/core/slug.py`: a free URL-safe name near a display name. Folding a text to lower-case ASCII
-- needs the tables of Unicode and is an argument, as are the lookup and the random token.
use nuvrag_platform.Base.{
  ℕ, zero, suc, ◌+◌, ◌-◌, ◌/◌, ◌%◌, ◌≤◌, ◌<◌, ◌≡◌, ◌⊎◌, ltb→lt, refl, Bool, true, false, ◌&&◌, ◌||◌,
  not, [], ◌∷◌, ◌++◌, arith, ◌==◌, leb, ltb, if◌then◌else◌, length, take, inl, inr, Bool-cases,
  length-append, length-take,
}
use nuvrag_platform.Base.Text.{Text}

-- `[a-z0-9]`
abbrev pub is_alphanumeric : ℕ → Bool
is_alphanumeric c = (leb 97 c && leb c 122) || (leb 48 c && leb c 57)

-- `_NON_ALPHANUMERIC.sub("-", s)`; the flag says that the run before has been replaced.
unfoldable pub dashed : Bool → Text → Text
dashed in_run [] = []
dashed in_run (c ∷ s) =
    if is_alphanumeric c
    then c ∷ dashed false s
    else if in_run
    then dashed true s
    else 45 ∷ dashed true s

-- `s.lstrip("-")`, `s.rstrip("-")` and `s.strip("-")`
unfoldable pub lstrip_dash : Text → Text
lstrip_dash [] = []
lstrip_dash (c ∷ s) = if c == 45 then lstrip_dash s else c ∷ s

abbrev pub keep_end : ℕ → Text → Text
keep_end c [] = if c == 45 then [] else c ∷ []
keep_end c (d ∷ s) = c ∷ d ∷ s

unfoldable pub rstrip_dash : Text → Text
rstrip_dash [] = []
rstrip_dash (c ∷ s) = keep_end c (rstrip_dash s)

abbrev pub strip_dash : Text → Text
strip_dash s = rstrip_dash (lstrip_dash s)

abbrev pub or_text : Text → Text → Text
or_text [] fallback = fallback
or_text (c ∷ s) fallback = c ∷ s

unfoldable pub slugify : (Text → Text) → Text → ℕ → Text → Text
unfolding dashed lstrip_dash rstrip_dash
slugify fold value max_length fallback =
    or_text (strip_dash (take max_length (strip_dash (dashed false (fold value))))) fallback

-- `_with_suffix`, of a suffix that fits
unfoldable pub with_suffix : Text → Text → ℕ → Text
unfolding rstrip_dash
with_suffix base suffix max_length = rstrip_dash (take (max_length - length suffix) base) ++ suffix

-- `f"-{attempt}"`, of one or two digits
abbrev pub numbered_suffix : ℕ → Text
numbered_suffix n = if ltb n 10 then 45 ∷ (48 + n) ∷ [] else 45 ∷ (48 + n / 10) ∷ (48 + n % 10) ∷ []

abbrev pub max_sequential_attempts : ℕ
max_sequential_attempts = 25

module _ (is_taken : Text → Bool) (token : Text) (base : Text) (max_length : ℕ) where
  -- The loop over numbered candidates, by how many are left.
  unfoldable pub next_free : ℕ → ℕ → Text
  unfolding with_suffix
  next_free zero attempt = with_suffix base (45 ∷ token) max_length
  next_free (suc left) attempt =
      elim (is_taken (with_suffix base (numbered_suffix attempt) max_length)) [
        | false ↦ with_suffix base (numbered_suffix attempt) max_length
        | true ↦ next_free left (suc attempt)
      ]

  unfoldable pub unique_slug : Text
  unfolding next_free
  unique_slug = if not (is_taken base) then base else next_free max_sequential_attempts 2

length-rstrip_dash-le : (s : Text) → length (rstrip_dash s) ≤ length s
unfolding rstrip_dash
length-rstrip_dash-le [] = omega arith
length-rstrip_dash-le (c ∷ s) = ground (arith, length-rstrip_dash-le s)

length-with_suffix-le :
    (base suffix : Text) (max_length : ℕ)
    → length suffix ≤ max_length
    → length (with_suffix base suffix max_length) ≤ max_length
unfolding with_suffix
length-with_suffix-le base suffix max_length h = omega (
  arith,
  h,
  length-append (rstrip_dash (take (max_length - length suffix) base)) suffix,
  length-rstrip_dash-le (take (max_length - length suffix) base),
  length-take (max_length - length suffix) base,
)

lt_or_eq : (n m : ℕ) → n < suc m → (n < m) ⊎ (n ≡ m)
lt_or_eq n m h = elim (Bool-cases (ltb n m)) [
  | inl below ↦ inl (ltb→lt n m below)
  | inr other ↦ inr (ground (arith, h, other))
]

length-numbered_suffix-le : (n : ℕ) → length (numbered_suffix n) ≤ 3
length-numbered_suffix-le n = ground arith

-- The numbered candidate of an attempt.
abbrev pub numbered : Text → ℕ → ℕ → Text
numbered base max_length n = with_suffix base (numbered_suffix n) max_length

-- A result of the search is short enough, and free unless it is the random name and the base and every
-- numbered name from 2 up to a last one are taken.
abbrev pub IsUsable : (Text → Bool) → Text → Text → ℕ → ℕ → Text → Type 0
IsUsable is_taken token base max_length last slug =
    (length slug ≤ max_length)
    × ((is_taken slug ≡ false)
        ⊎ ((slug ≡ with_suffix base (45 ∷ token) max_length)
            × (is_taken base ≡ true)
            × ((n : ℕ) → 2 ≤ n → n ≤ last → is_taken (numbered base max_length n) ≡ true)))

next_free-IsUsable :
    (is_taken : Text → Bool) (token base : Text) (max_length left attempt last : ℕ)
    → suc (length token) ≤ max_length
    → 3 ≤ max_length
    → attempt + left ≡ suc last
    → is_taken base ≡ true
    → ((n : ℕ) → 2 ≤ n → n < attempt → is_taken (numbered base max_length n) ≡ true)
    → IsUsable is_taken token base max_length last
        (next_free is_taken token base max_length left attempt)
unfolding next_free
next_free-IsUsable is_taken token base max_length zero attempt last h k sum full before = (
  length-with_suffix-le base (45 ∷ token) max_length h,
  inr (refl, full, λ n low high. before n low (omega (arith, high, sum))),
)
next_free-IsUsable is_taken token base max_length (suc left) attempt last h k sum full before =
    elim (Bool-cases (is_taken (numbered base max_length attempt))) [
      | inl taken ↦
          rw (taken, next_free)
            (next_free-IsUsable is_taken token base max_length left (suc attempt) last h k
              (omega (arith, sum)) full
              (λ n low high. elim (lt_or_eq n attempt high) [
                | inl below ↦ before n low below
                | inr same ↦ rw same taken
              ]))
      | inr free ↦
          rw (free, next_free)
            (
              length-with_suffix-le base (numbered_suffix attempt) max_length
                  (omega (arith, k, length-numbered_suffix-le attempt)),
              inl free,
            )
    ]

unique_slug-taken :
    (is_taken : Text → Bool) (token base : Text) (max_length : ℕ)
    → is_taken base ≡ true
    → unique_slug is_taken token base max_length
      ≡ next_free is_taken token base max_length max_sequential_attempts 2
unfolding unique_slug
unique_slug-taken is_taken token base max_length taken = rw (taken, unique_slug) refl

unique_slug-free :
    (is_taken : Text → Bool) (token base : Text) (max_length : ℕ)
    → is_taken base ≡ false
    → unique_slug is_taken token base max_length ≡ base
unfolding unique_slug
unique_slug-free is_taken token base max_length free = rw (free, unique_slug) refl

-- The search ends with a name that fits the column and that no row has. It ends with the random name
-- instead only where the base and all 25 numbered names, from 2 to 26, are taken.
pub unique_slug-IsUsable :
    (is_taken : Text → Bool) (token base : Text) (max_length : ℕ)
    → suc (length token) ≤ max_length
    → 3 ≤ max_length
    → length base ≤ max_length
    → IsUsable is_taken token base max_length 26 (unique_slug is_taken token base max_length)
unique_slug-IsUsable is_taken token base max_length h k fits = elim (Bool-cases (is_taken base)) [
  | inl taken ↦ rw (unique_slug-taken is_taken token base max_length taken) (
      next_free-IsUsable is_taken token base max_length max_sequential_attempts 2 26 h k refl taken
        (λ n low high. absurd (omega (arith, low, high))))
  | inr free ↦ rw (unique_slug-free is_taken token base max_length free) (fits, inl free)
]
