-- ===== src/Ai/Tags.antt =====
-- Where a tag starts in a text of which only the beginning has arrived.
use nuvrag_platform.Base.{
  ℕ, zero, suc, ◌+◌, ◌-◌, ◌≤◌, ◌<◌, ◌≡◌, refl, sym, ap, ◌∙◌, Bool, true, false, ◌&&◌, some, [], ◌∷◌,
  ◌++◌, arith, ltb, ltb→lt, if◌then◌else◌, length, take, drop, min, Bool-cases, inl, inr,
  Option-cases,
}
use nuvrag_platform.Base.Text.{Text, text_eq, starts_with, last, ends_with}
use nuvrag_platform.Ai.Reasoning.{find_tag, partial_size, partial_tag_suffix}

-- A text that could still become the tag.
abbrev pub is_partial : Text → Text → Bool
is_partial s tag = starts_with s tag && ltb (length s) (length tag)

-- The first tail that could still become the tag, and what stands before it.
abbrev pub held : Text → Text → Text
held tag [] = []
held tag (c ∷ s) = if is_partial (c ∷ s) tag then c ∷ s else held tag s

abbrev pub freed : Text → Text → Text
freed tag [] = []
freed tag (c ∷ s) = if is_partial (c ∷ s) tag then [] else c ∷ freed tag s

-- A text that is long enough shows whether the tag starts it.
pub starts_with-long :
    (tag s rest : Text) → length tag ≤ length s → starts_with tag (s ++ rest) ≡ starts_with tag s
unfolding starts_with
starts_with-long [] s rest h = refl
starts_with-long (a ∷ tag) [] rest h = ground arith
starts_with-long (a ∷ tag) (c ∷ s) rest h = ground (arith, starts_with-long tag s rest)

pub starts_with-length : (tag s : Text) → starts_with tag s ≡ true → length tag ≤ length s
unfolding starts_with
starts_with-length [] s h = omega arith
starts_with-length (a ∷ tag) [] h = cc
starts_with-length (a ∷ tag) (c ∷ s) h = ground (arith, starts_with-length tag s)

-- A text that neither starts with the tag nor could become it does not become it.
pub starts_with-decided :
    (tag s rest : Text)
    → starts_with tag s ≡ false
    → is_partial s tag ≡ false
    → starts_with tag (s ++ rest) ≡ false
unfolding starts_with
starts_with-decided [] s rest h k = h
starts_with-decided (a ∷ tag) [] rest h k = ground arith
starts_with-decided (a ∷ tag) (c ∷ s) rest h k = ground (arith, starts_with-decided tag s rest)

pub length-held-lt : (tag s : Text) → 0 < length tag → length (held tag s) < length tag
length-held-lt tag [] h = h
length-held-lt tag (c ∷ s) h = ground (arith, length-held-lt tag s h)

drop_whole : (s : Text) → drop (length s) s ≡ []
drop_whole [] = refl
drop_whole (c ∷ s) = drop_whole s

-- One more character in front does not change which shorter tails match.
last-cons : (c : ℕ) (s : Text) (n : ℕ) → n ≤ length s → last n (c ∷ s) ≡ last n s
last-cons c s n h =
    let e : suc (length s) - n ≡ suc (length s - n) = omega (arith, h) in ap (λ k. drop k (c ∷ s)) e

ends_with-cons :
    (suffix : Text) (c : ℕ) (s : Text)
    → length suffix ≤ length s
    → ends_with suffix (c ∷ s) ≡ ends_with suffix s
ends_with-cons suffix c s h = rw (last-cons c s (length suffix) h) (ground (arith, h))

length-take-le : (n : ℕ) (s : Text) → length (take n s) ≤ n
length-take-le zero s = omega arith
length-take-le (suc n) [] = omega arith
length-take-le (suc n) (c ∷ s) = omega (arith, length-take-le n s)

partial_size-cons :
    (tag : Text) (c : ℕ) (s : Text) (n : ℕ)
    → n ≤ length s
    → partial_size tag (c ∷ s) n ≡ partial_size tag s n
unfolding partial_size
partial_size-cons tag c s zero h = refl
partial_size-cons tag c s (suc n) h =
    let same =
      ends_with-cons (take (suc n) tag) c s (omega (arith, length-take-le (suc n) tag, h)) in
    rw same (rw (partial_size-cons tag c s n (omega (arith, h))) refl)

partial_size-le : (tag s : Text) (n : ℕ) → partial_size tag s n ≤ n
unfolding partial_size
partial_size-le tag s zero = omega arith
partial_size-le tag s (suc n) = ground (arith, partial_size-le tag s n)

text_eq-take :
    (s tag : Text) → length s ≤ length tag → text_eq s (take (length s) tag) ≡ starts_with s tag
unfolding text_eq starts_with
text_eq-take [] tag h = refl
text_eq-take (c ∷ s) [] h = ground arith
text_eq-take (c ∷ s) (a ∷ tag) h = ground (arith, text_eq-take s tag)

length-take_short : (n : ℕ) (s : Text) → n ≤ length s → length (take n s) ≡ n
length-take_short zero s h = refl
length-take_short (suc n) [] h = ground arith
length-take_short (suc n) (c ∷ s) h = ap suc (length-take_short n s (omega (arith, h)))

-- A whole text ends with what the tag starts with exactly if it could still become the tag.
ends_with-whole :
    (tag s : Text) → length s < length tag → ends_with (take (length s) tag) s ≡ is_partial s tag
ends_with-whole tag s h =
    let size = length-take_short (length s) tag (omega (arith, h)) in
    let all : length s - length s ≡ 0 = omega arith in
    rw size (rw all (ground (arith, h, text_eq-take s tag)))

last-partial_size-cons :
    (tag : Text) (c : ℕ) (s : Text) (n : ℕ)
    → n ≤ length s
    → last (partial_size tag (c ∷ s) n) (c ∷ s) ≡ last (partial_size tag s n) s
last-partial_size-cons tag c s n h =
    ap (λ k. last k (c ∷ s)) (partial_size-cons tag c s n h)
    ∙ last-cons c s (partial_size tag s n) (omega (arith, h, partial_size-le tag s n))

partial_size-hit :
    (tag s : Text) (n : ℕ)
    → ends_with (take (suc n) tag) s ≡ true
    → partial_size tag s (suc n) ≡ suc n
unfolding partial_size
partial_size-hit tag s n h = rw (h, partial_size) refl

partial_size-miss :
    (tag s : Text) (n : ℕ)
    → ends_with (take (suc n) tag) s ≡ false
    → partial_size tag s (suc n) ≡ partial_size tag s n
unfolding partial_size
partial_size-miss tag s n h = rw (h, partial_size) refl

-- The loop over sizes finds the first tail that could still become the tag.
pub partial_tag_suffix-held :
    (tag s : Text) → 0 < length tag → partial_tag_suffix s tag ≡ held tag s
unfolding partial_tag_suffix
partial_tag_suffix-held tag [] h =
    let none_left : min (length tag - 1) 0 ≡ 0 = omega arith in rw none_left refl
partial_tag_suffix-held tag (c ∷ s) h = elim (Bool-cases (ltb (suc (length s)) (length tag))) [
  | inl short ↦
      let size : min (length tag - 1) (suc (length s)) ≡ suc (length s) = ground (arith, short) in
      let shorter : min (length tag - 1) (length s) ≡ length s = ground (arith, short) in
      let ends = ends_with-whole tag (c ∷ s) (ltb→lt (suc (length s)) (length tag) short) in
      elim (Bool-cases (is_partial (c ∷ s) tag)) [
        | inl partial ↦
            let whole : suc (length s) - suc (length s) ≡ 0 = omega arith in
            rw (size, partial_tag_suffix)
              (rw partial (
                ap (λ k. last k (c ∷ s)) (partial_size-hit tag (c ∷ s) (length s) (ends ∙ partial))
                ∙ ap (λ k. drop k (c ∷ s)) whole))
        | inr apart ↦
            let rest : last (partial_size tag s (length s)) s ≡ held tag s =
              ap (λ k. last (partial_size tag s k) s) (sym shorter)
              ∙ partial_tag_suffix-held tag s h in
            rw (size, partial_tag_suffix)
              (rw apart (
                ap (λ k. last k (c ∷ s)) (partial_size-miss tag (c ∷ s) (length s) (ends ∙ apart))
                ∙ (last-partial_size-cons tag c s (length s) (omega arith) ∙ rest)))
      ]
  | inr long ↦
      let size : min (length tag - 1) (suc (length s)) ≡ min (length tag - 1) (length s) =
        ground (arith, long) in
      let bound : min (length tag - 1) (length s) ≤ length s = omega arith in
      let apart : is_partial (c ∷ s) tag ≡ false = ground (arith, long) in
      rw size (
        rw apart (
          last-partial_size-cons tag c s (min (length tag - 1) (length s)) bound
          ∙ partial_tag_suffix-held tag s h))
]

length-held-le : (tag s : Text) → length (held tag s) ≤ length s
length-held-le tag [] = omega arith
length-held-le tag (c ∷ s) = ground (arith, length-held-le tag s)

pub freed-take : (tag s : Text) → take (length s - length (held tag s)) s ≡ freed tag s
freed-take tag [] = refl
freed-take tag (c ∷ s) = elim (Bool-cases (is_partial (c ∷ s) tag)) [
  | inl partial ↦
      let all : suc (length s) - suc (length s) ≡ 0 = omega arith in
      rw partial (ap (λ n. take n (c ∷ s)) all)
  | inr apart ↦
      let less : suc (length s) - length (held tag s) ≡ suc (length s - length (held tag s)) =
        omega (arith, length-held-le tag s) in
      rw apart (ap (λ n. take n (c ∷ s)) less ∙ ap (λ t. c ∷ t) (freed-take tag s))
]

-- A tag that is found stands whole within the text.
pub find_tag-length : (tag s : Text) (i : ℕ) → find_tag tag s ≡ some i → i + length tag ≤ length s
unfolding find_tag
find_tag-length tag [] i h = elim (Bool-cases (starts_with tag [])) [
  | inl starts ↦ ground (arith, h, starts, starts_with-length tag [])
  | inr not_here ↦ ground (arith, h, not_here)
]
find_tag-length tag (c ∷ s) i h = elim (Bool-cases (starts_with tag (c ∷ s))) [
  | inl starts ↦ ground (arith, h, starts, starts_with-length tag (c ∷ s))
  | inr not_here ↦ elim (Option-cases (find_tag tag s)) [
    | inl missing ↦ ground (arith, h, not_here, missing)
    | inr (j, found) ↦ ground (arith, h, not_here, found, find_tag-length tag s j found)
  ]
]
