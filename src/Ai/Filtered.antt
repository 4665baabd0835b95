-- ===== src/Ai/Filtered.antt =====
-- What the reasoning filter lets through: however a stream splits, what one reading of the whole text
-- would leave of it.
use nuvrag_platform.Base.{
  ℕ, zero, suc, ◌+◌, ◌-◌, ◌≤◌, ◌<◌, ◌≡◌, refl, sym, ap, ◌∙◌, Bool, true, false, not, none, some,
  List, [], ◌∷◌, ◌++◌, arith, ◌⊎◌, if◌then◌else◌, length, take, drop, Bool-cases, inl, inr,
  Option-cases,
}
use mathlib.Core.Path.{subst}
use mathlib.Core.List.{append_assoc, append-nil}
use nuvrag_platform.Base.Text.{Text, starts_with}
use nuvrag_platform.Ai.Reasoning.{
  think_open, think_close, find_tag, partial_tag_suffix, FilterState, emitting, feed_loop, feed,
  flush, initial, filtered,
}
use nuvrag_platform.Ai.Tags.{
  is_partial, held, length-held-lt, freed, starts_with-long, starts_with-length,
  starts_with-decided, partial_tag_suffix-held, freed-take, find_tag-length,
}

-- The tag that ends the present part of a text.
abbrev pub tag_of : Bool → Text
tag_of false = think_open
tag_of true = think_close

abbrev pub visible : Bool → Text → Text
visible false s = s
visible true s = []

-- One reading of a whole text, character by character: whether it is within reasoning, and how many
-- characters of a tag are still to be passed over.
unfoldable pub reading : Bool → ℕ → Text → Text
reading inside skip [] = []
reading inside (suc skip) (c ∷ s) = reading inside skip s
reading inside zero (c ∷ s) =
    if starts_with (tag_of inside) (c ∷ s)
    then reading (not inside) (length (tag_of inside) - 1) s
    else visible inside (c ∷ []) ++ reading inside zero s

visible-cons :
    (inside : Bool) (c : ℕ) (s t : Text)
    → visible inside (c ∷ s) ++ t ≡ visible inside (c ∷ []) ++ (visible inside s ++ t)
visible-cons false c s t = refl
visible-cons true c s t = refl

visible-split :
    (inside : Bool) (c : ℕ) (s : Text)
    → visible inside (c ∷ []) ++ visible inside s ≡ visible inside (c ∷ s)
visible-split false c s = refl
visible-split true c s = refl

visible-nil : (inside : Bool) (t : Text) → visible inside [] ++ t ≡ t
visible-nil false t = refl
visible-nil true t = refl

pos-tag_of : (inside : Bool) → 0 < length (tag_of inside)
pos-tag_of false = omega arith
pos-tag_of true = omega arith

reading-skip :
    (inside : Bool) (skip : ℕ) (s rest : Text)
    → skip ≤ length s
    → reading inside skip (s ++ rest) ≡ reading inside 0 (drop skip s ++ rest)
unfolding reading
reading-skip inside zero s rest h = refl
reading-skip inside (suc skip) [] rest h = ground arith
reading-skip inside (suc skip) (c ∷ s) rest h = reading-skip inside skip s rest (omega (arith, h))

reading-pass :
    (inside : Bool) (c : ℕ) (s : Text)
    → starts_with (tag_of inside) (c ∷ s) ≡ false
    → reading inside 0 (c ∷ s) ≡ visible inside (c ∷ []) ++ reading inside 0 s
unfolding reading
reading-pass inside c s h = rw (h, reading) refl

reading-turn :
    (inside : Bool) (c : ℕ) (s : Text)
    → starts_with (tag_of inside) (c ∷ s) ≡ true
    → reading inside 0 (c ∷ s) ≡ reading (not inside) (length (tag_of inside) - 1) s
unfolding reading
reading-turn inside c s h = rw (h, reading) refl

find_tag-none :
    (tag : Text) (c : ℕ) (s : Text)
    → find_tag tag (c ∷ s) ≡ none
    → (starts_with tag (c ∷ s) ≡ false) × (find_tag tag s ≡ none)
unfolding find_tag
find_tag-none tag c s h = ground (arith, h)

-- Without a tag, what could not become one is settled, and the rest waits.
reading-none :
    (inside : Bool) (s rest : Text)
    → find_tag (tag_of inside) s ≡ none
    → reading inside 0 (s ++ rest)
      ≡ visible inside (freed (tag_of inside) s)
        ++ reading inside 0 (held (tag_of inside) s ++ rest)
reading-none inside [] rest h = sym (visible-nil inside (reading inside 0 rest))
reading-none inside (c ∷ s) rest h =
    let (not_here, later) = find_tag-none (tag_of inside) c s h in
    elim (Bool-cases (is_partial (c ∷ s) (tag_of inside))) [
      | inl partial ↦ rw partial (sym (visible-nil inside (reading inside 0 (c ∷ s ++ rest))))
      | inr apart ↦
          let decided = starts_with-decided (tag_of inside) (c ∷ s) rest not_here apart in
          rw apart (
            reading-pass inside c (s ++ rest) decided
            ∙ (ap (λ t. visible inside (c ∷ []) ++ t) (reading-none inside s rest later)
                ∙ sym (
                    visible-cons inside c (freed (tag_of inside) s)
                      (reading inside 0 (held (tag_of inside) s ++ rest)))))
    ]

find_tag-some :
    (tag : Text) (c : ℕ) (s : Text) (i : ℕ)
    → find_tag tag (c ∷ s) ≡ some i
    → ((starts_with tag (c ∷ s) ≡ true) × (i ≡ 0))
      ⊎ ((j : ℕ) × (starts_with tag (c ∷ s) ≡ false) × (find_tag tag s ≡ some j) × (i ≡ suc j))
unfolding find_tag
find_tag-some tag c s i h = elim (Bool-cases (starts_with tag (c ∷ s))) [
  | inl starts ↦ inl (starts, ground (arith, h, starts))
  | inr not_here ↦ elim (Option-cases (find_tag tag s)) [
    | inl missing ↦ ground (arith, h, not_here, missing)
    | inr (j, found) ↦ inr (j, not_here, found, ground (arith, h, not_here, found))
  ]
]

suc-tag_of : (inside : Bool) → suc (length (tag_of inside) - 1) ≡ 0 + length (tag_of inside)
suc-tag_of inside = omega (arith, pos-tag_of inside)

suc-add : (j n : ℕ) → suc j + n ≡ suc (j + n)
suc-add j n = omega arith

-- With a tag, what stands before it is settled, and the tag itself is passed over.
reading-some :
    (inside : Bool) (s rest : Text) (i : ℕ)
    → find_tag (tag_of inside) s ≡ some i
    → reading inside 0 (s ++ rest)
      ≡ visible inside (take i s)
        ++ reading (not inside) 0 (drop (i + length (tag_of inside)) s ++ rest)
reading-some inside [] rest i h =
    ground (arith, find_tag-length (tag_of inside) [] i h, pos-tag_of inside)
reading-some inside (c ∷ s) rest i h =
    let room = find_tag-length (tag_of inside) (c ∷ s) i h in
    let tag = tag_of inside in
    elim (find_tag-some tag c s i h) [
      | inl (starts, first) ↦
          let starts' = starts_with-long tag (c ∷ s) rest (omega (arith, room)) ∙ starts in
          let skip =
            reading-skip (not inside) (length tag - 1) s rest
              (omega (arith, room, pos-tag_of inside)) in
          rw first (
            reading-turn inside c (s ++ rest) starts'
            ∙ (skip
                ∙ (ap (λ n. reading (not inside) 0 (drop n (c ∷ s) ++ rest)) (suc-tag_of inside)
                    ∙ sym (
                        visible-nil inside
                          (reading (not inside) 0 (drop (0 + length tag) (c ∷ s) ++ rest))))))
      | inr (j, not_here, found, next) ↦
          let not_yet = starts_with-long tag (c ∷ s) rest (omega (arith, room)) ∙ not_here in
          rw next (
            reading-pass inside c (s ++ rest) not_yet
            ∙ (ap (λ t. visible inside (c ∷ []) ++ t) (reading-some inside s rest j found)
                ∙ (sym (
                      visible-cons inside c (take j s)
                        (reading (not inside) 0 (drop (j + length tag) s ++ rest)))
                    ∙ ap
                        (λ n.
                          visible inside (c ∷ take j s)
                          ++ reading (not inside) 0 (drop n (c ∷ s) ++ rest))
                        (sym (suc-add j (length tag))))))
    ]

reading-short :
    (inside : Bool) (s : Text)
    → length s < length (tag_of inside)
    → reading inside 0 s ≡ visible inside s
unfolding reading
reading-short false [] h = refl
reading-short true [] h = refl
reading-short inside (c ∷ s) h = elim (Bool-cases (starts_with (tag_of inside) (c ∷ s))) [
  | inl starts ↦ ground (arith, h, starts_with-length (tag_of inside) (c ∷ s) starts)
  | inr not_here ↦
      reading-pass inside c s not_here
      ∙ (ap (λ t. visible inside (c ∷ []) ++ t) (reading-short inside s (omega (arith, h)))
          ∙ visible-split inside c s)
]

-- What the loop has made of a buffer: it settles what it emits, whatever the stream brings next,
-- and keeps less than a tag.
abbrev pub Settles : Bool → Text → Text → FilterState → Type 0
Settles inside b out state =
    ((rest : Text)
      → reading inside 0 (b ++ rest) ≡ out ++ reading state.inside 0 (state.buffer ++ rest))
    × (length state.buffer < length (tag_of state.inside))

waiting-Settles :
    (inside : Bool) (b : Text)
    → find_tag (tag_of inside) b ≡ none
    → Settles inside b
        (visible inside (freed (tag_of inside) b))
        (record { buffer = held (tag_of inside) b; inside = inside })
waiting-Settles inside b h =
    (λ rest. reading-none inside b rest h, length-held-lt (tag_of inside) b (pos-tag_of inside))

turned-Settles :
    (inside : Bool) (b out : Text) (i : ℕ) (state : FilterState)
    → find_tag (tag_of inside) b ≡ some i
    → Settles (not inside) (drop (i + length (tag_of inside)) b) out state
    → Settles inside b (visible inside (take i b) ++ out) state
turned-Settles inside b out i state h (settles, less) = (
  λ rest.
      reading-some inside b rest i h
      ∙ (ap (λ t. visible inside (take i b) ++ t) (settles rest)
          ∙ sym (
              append_assoc (visible inside (take i b)) out
                (reading state.inside 0 (state.buffer ++ rest)))),
  less,
)

length-drop : (n : ℕ) (s : Text) → n ≤ length s → length (drop n s) + n ≡ length s
length-drop zero s h = omega arith
length-drop (suc n) [] h = ground arith
length-drop (suc n) (c ∷ s) h = omega (arith, length-drop n s (omega (arith, h)))

-- The loop ends: fuel for every character of the buffer is enough.
feed_loop_lem :
    (fuel : ℕ) (inside : Bool) (b : Text)
    → length b ≤ fuel
    → (out : Text) × (state : FilterState) × (feed_loop fuel inside b ≡ some (out, state))
      × Settles inside b out state
unfolding feed_loop
feed_loop_lem zero inside [] h =
    ([], record { buffer = []; inside = inside }, refl, (λ rest. refl, pos-tag_of inside))
feed_loop_lem (suc fuel) inside [] h =
    ([], record { buffer = []; inside = inside }, refl, (λ rest. refl, pos-tag_of inside))
feed_loop_lem zero inside (c ∷ b) h = ground (arith, h)
feed_loop_lem (suc fuel) true (c ∷ b) h = elim (Option-cases (find_tag think_close (c ∷ b))) [
  | inl missing ↦ (
    [],
    record { buffer = partial_tag_suffix (c ∷ b) think_close; inside = true },
    rw (missing, feed_loop) refl,
    subst (λ t. Settles true (c ∷ b) [] (record { buffer = t; inside = true }))
        (sym (partial_tag_suffix-held think_close (c ∷ b) (pos-tag_of true)))
        (waiting-Settles true (c ∷ b) missing),
  )
  | inr (i, found) ↦
      let fits = find_tag-length think_close (c ∷ b) i found in
      let shorter = length-drop (i + length think_close) (c ∷ b) fits in
      let (out, state, runs, settles) =
        feed_loop_lem fuel false (drop (i + length think_close) (c ∷ b))
          (omega (arith, h, shorter)) in
      (
        out,
        state,
        rw (found, feed_loop) runs,
        turned-Settles true (c ∷ b) out i state found settles,
      )
]
feed_loop_lem (suc fuel) false (c ∷ b) h = elim (Option-cases (find_tag think_open (c ∷ b))) [
  | inl missing ↦ (
    take (length (c ∷ b) - length (partial_tag_suffix (c ∷ b) think_open)) (c ∷ b),
    record { buffer = partial_tag_suffix (c ∷ b) think_open; inside = false },
    rw (missing, feed_loop) refl,
    subst
        (λ t.
          Settles false (c ∷ b) (take (length (c ∷ b) - length t) (c ∷ b))
            (record { buffer = t; inside = false }))
        (sym (partial_tag_suffix-held think_open (c ∷ b) (pos-tag_of false)))
        (subst
          (λ out.
            Settles false (c ∷ b) out (record { buffer = held think_open (c ∷ b); inside = false }))
          (sym (freed-take think_open (c ∷ b))) (waiting-Settles false (c ∷ b) missing)),
  )
  | inr (i, found) ↦
      let fits = find_tag-length think_open (c ∷ b) i found in
      let shorter = length-drop (i + length think_open) (c ∷ b) fits in
      let (out, state, runs, settles) =
        feed_loop_lem fuel true (drop (i + length think_open) (c ∷ b))
          (omega (arith, h, shorter)) in
      (
        take i (c ∷ b) ++ out,
        state,
        rw (found, feed_loop) (ap (emitting (take i (c ∷ b))) runs),
        turned-Settles false (c ∷ b) out i state found settles,
      )
]

abbrev pub joined : List Text → Text
joined [] = []
joined (delta ∷ deltas) = delta ++ joined deltas

flush-visible :
    (inside : Bool) (b : Text) → flush (record { buffer = b; inside = inside }) ≡ visible inside b
flush-visible false b = refl
flush-visible true b = refl

filtered_from :
    (state : FilterState) (deltas : List Text)
    → length state.buffer < length (tag_of state.inside)
    → filtered state deltas ≡ some (reading state.inside 0 (state.buffer ++ joined deltas))
unfolding filtered feed
filtered_from state [] less = ap some (
    flush-visible state.inside state.buffer
    ∙ (sym (reading-short state.inside state.buffer less)
        ∙ ap (reading state.inside 0) (sym (append-nil state.buffer))))
filtered_from state (delta ∷ deltas) less =
    let b = state.buffer ++ delta in
    let (out, next, runs, (settles, kept)) =
      feed_loop_lem (length b) state.inside b (omega arith) in
    rw (runs, filtered, feed)
      (rw (filtered_from next deltas kept) (
        ap some (
          sym (settles (joined deltas))
          ∙ ap (reading state.inside 0) (append_assoc state.buffer delta (joined deltas)))))

-- However a provider splits a text into deltas, the loop of the filter ends at every one of them, and
-- what is let through together with what the flush releases is one reading of the whole text, in
-- which everything from an opening tag to its closing tag, or to the end, is left out.
pub filtered_refines :
    (deltas : List Text) → filtered initial deltas ≡ some (reading false 0 (joined deltas))
filtered_refines deltas = filtered_from initial deltas (omega arith)
