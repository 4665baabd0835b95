-- ===== src/Memory/Bounds.antt =====
-- What a model is shown and what is taken from its answer.
use mathlib.Core.List.{reverse-cons}
use mathlib.Core.Path.{subst}
use nuvrag_platform.Base.{
  ℕ, suc, zero, ◌+◌, ◌-◌, ◌≤◌, ◌<◌, ◌≡◌, refl, Bool, true, false, none, some, List, [], ◌∷◌, ◌++◌,
  arith, ◌==◌, leb, length, length-append, length-take, take, All, if◌then◌else◌, reverse,
  Option-cases, inl, inr, Bool-cases, ap, sym,
}
use nuvrag_platform.Base.Text.{Text, is_empty}
use nuvrag_platform.Domain.Enums.{MemoryType}
use nuvrag_platform.Desk.{Message}
use nuvrag_platform.Memory.Transcript.{
  collapse, blocks_within, join_lines, line_of, render_transcript, message_max_characters,
  transcript_max_characters,
}
use nuvrag_platform.Memory.Extract.{
  Candidate, Element, Value, candidate, collect, content_max_length, memory_type_of,
}

-- The characters of the lines together.
abbrev total : List Text → ℕ
total [] = 0
total (l ∷ ls) = length l + total ls

total-append : (ls ks : List Text) → total (ls ++ ks) ≡ total ls + total ks
total-append [] ks = omega arith
total-append (l ∷ ls) ks = omega (arith, total-append ls ks)

total-reverse : (ls : List Text) → total (reverse ls) ≡ total ls
total-reverse [] = refl
total-reverse (l ∷ ls) =
    rw (reverse-cons l ls) (omega (arith, total-append (reverse ls) (l ∷ []), total-reverse ls))

length-reverse {ℓ} : {A : Type ℓ} (xs : List A) → length (reverse xs) ≡ length xs
length-reverse [] = refl
length-reverse (x ∷ xs) =
    rw (reverse-cons x xs) (omega (arith, length-append (reverse xs) (x ∷ []), length-reverse xs))

length-join_lines-le : (ls : List Text) → length (join_lines ls) ≤ total ls + length ls
unfolding join_lines
length-join_lines-le [] = omega arith
length-join_lines-le (l ∷ []) = omega arith
length-join_lines-le (l ∷ k ∷ ls) =
    omega (arith, length-append l (10 ∷ join_lines (k ∷ ls)), length-join_lines-le (k ∷ ls))

blocks_within-le :
    (budget : ℕ) (ms : List Message)
    → (total (blocks_within budget ms) ≤ budget) × (length (blocks_within budget ms) ≤ length ms)
unfolding blocks_within
blocks_within-le budget [] = (omega arith, omega arith)
blocks_within-le budget (m ∷ older) =
    let line = line_of m (take message_max_characters (collapse m.content)) in
    ground (arith, blocks_within-le budget older, blocks_within-le (budget - length line) older)

-- However long the turns are, the transcript that a model is shown has at most 6000 characters and one
-- line break for each turn.
pub length-render_transcript-le :
    (history : List Message)
    → length (render_transcript history) ≤ transcript_max_characters + length history
unfolding render_transcript
length-render_transcript-le history =
    let ls = blocks_within transcript_max_characters (reverse history) in
    omega (
      arith,
      length-join_lines-le (reverse ls),
      total-reverse ls,
      length-reverse ls,
      length-reverse history,
      (blocks_within-le transcript_max_characters (reverse history)).0,
      (blocks_within-le transcript_max_characters (reverse history)).1,
    )

-- A sentence that may be stored.
abbrev pub is_storable : Candidate → Bool
is_storable c = if is_empty c.content then false else leb (length c.content) content_max_length

clipped-storable :
    (t : Text) (kind : MemoryType) (c : Candidate)
    → length t ≤ content_max_length
    → (if is_empty t then none else some (record { content = t; memory_type = kind })) ≡ some c
    → is_storable c ≡ true
clipped-storable [] kind c small h = cc
clipped-storable (x ∷ t) kind c small h = ground arith

candidate-storable : (e : Element) (c : Candidate) → candidate e ≡ some c → is_storable c ≡ true
unfolding candidate
candidate-storable Element.scalar c h = cc
candidate-storable (Element.object none type) c h = cc
candidate-storable (Element.object (some Value.other) type) c h = cc
candidate-storable (Element.object (some (Value.string s)) type) c h =
    clipped-storable (take content_max_length (collapse s)) (memory_type_of type) c
      (omega (arith, length-take content_max_length (collapse s))) h

-- Every element that is a candidate, in the order of the answer.
unfoldable pub candidates_of : List Element → List Candidate
unfolding candidate
candidates_of [] = []
candidates_of (e ∷ es) = elim (candidate e) [
  | none ↦ candidates_of es
  | some c ↦ c ∷ candidates_of es
]

collect_lem :
    (found room : ℕ) (es : List Element)
    → 0 < room
    → collect (found + room) found es ≡ take room (candidates_of es)
unfolding collect candidates_of
collect_lem found zero es h = absurd (omega arith)
collect_lem found (suc room) [] h = refl
collect_lem found (suc room) (e ∷ es) h = elim (Option-cases (candidate e)) [
  | inl nothing ↦
      let later : (found == found + suc room) ≡ false = ground arith in
      rw (nothing, collect, candidates_of) (rw later (collect_lem found (suc room) es h))
  | inr (c, kept) ↦ elim (Bool-cases (suc found == found + suc room)) [
    | inl last ↦
        let end : room ≡ 0 = ground arith in
        rw (kept, collect, candidates_of) (rw last (rw end refl))
    | inr more ↦
        let next : found + suc room ≡ suc found + room = omega arith in
        let rest = collect_lem (suc found) room es (ground arith) in
        rw (kept, collect, candidates_of)
          (rw more (
            ap (◌∷◌ c) (
              subst (λ n. collect n (suc found) es ≡ take room (candidates_of es)) (sym next)
                rest)))
  ]
]

take-candidates-storable :
    (n : ℕ) (es : List Element) → All (λ c. is_storable c ≡ true) (take n (candidates_of es))
unfolding candidates_of
take-candidates-storable zero es = tt
take-candidates-storable (suc n) [] = tt
take-candidates-storable (suc n) (e ∷ es) = elim (Option-cases (candidate e)) [
  | inl nothing ↦ rw (nothing, candidates_of) (take-candidates-storable (suc n) es)
  | inr (c, kept) ↦
      rw (kept, candidates_of) (candidate-storable e c kept, take-candidates-storable n es)
]

-- With a positive limit, what is taken from a parsed answer is its first `limit` candidates in order,
-- and each of them is a sentence of 1 to 500 characters.
pub collect_first :
    (limit : ℕ) (es : List Element)
    → 0 < limit
    → (collect limit 0 es ≡ take limit (candidates_of es))
      × All (λ c. is_storable c ≡ true) (collect limit 0 es)
collect_first limit es h =
    let same : collect limit 0 es ≡ take limit (candidates_of es) =
      subst (λ n. collect n 0 es ≡ take limit (candidates_of es)) (omega arith)
        (collect_lem 0 limit es h) in
    (same, rw same (take-candidates-storable limit es))
