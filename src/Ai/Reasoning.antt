-- ===== src/Ai/Reasoning.antt =====
-- `ReasoningFilter` of `app/services/ai/base.py`: the reasoning that a model writes between tags is
-- removed from a stream of deltas, wherever the stream splits.
use nuvrag_platform.Base.{
  ℕ, zero, suc, ◌+◌, ◌-◌, Bool, true, false, Option, none, some, List, [], ◌∷◌, ◌++◌, if◌then◌else◌,
  length, take, drop, min,
}
use nuvrag_platform.Base.Text.{Text, text, starts_with, last, ends_with}

abbrev pub think_open : Text
think_open = text "<think>"

abbrev pub think_close : Text
think_close = text "</think>"

-- `s.find(tag)`, where -1 is none
unfoldable pub find_tag : Text → Text → Option ℕ
find_tag tag [] = if starts_with tag [] then some 0 else none
find_tag tag (c ∷ s) =
    if starts_with tag (c ∷ s)
    then some 0
    else elim (find_tag tag s) [ none ↦ none | some i ↦ some (suc i) ]

-- The loop of `_partial_tag_suffix` from a size down to one.
unfoldable pub partial_size : Text → Text → ℕ → ℕ
partial_size tag s zero = 0
partial_size tag s (suc size) =
    if ends_with (take (suc size) tag) s then suc size else partial_size tag s size

-- `_partial_tag_suffix`
unfoldable pub partial_tag_suffix : Text → Text → Text
unfolding partial_size
partial_tag_suffix s tag = last (partial_size tag s (min (length tag - 1) (length s))) s

pub record FilterState : Type 0 where
  pub buffer : Text
  pub inside : Bool

abbrev pub emitting : Text → Option (Text × FilterState) → Option (Text × FilterState)
emitting out none = none
emitting out (some (more, state)) = some (out ++ more, state)

-- The loop of `feed`, by fuel: what it emits and the state that it leaves.
unfoldable pub feed_loop : ℕ → Bool → Text → Option (Text × FilterState)
unfolding find_tag partial_tag_suffix
feed_loop fuel inside [] = some ([], record { buffer = []; inside = inside })
feed_loop zero inside (c ∷ b) = none
feed_loop (suc fuel) true (c ∷ b) = elim (find_tag think_close (c ∷ b)) [
  | none ↦ some ([], record { buffer = partial_tag_suffix (c ∷ b) think_close; inside = true })
  | some end ↦ feed_loop fuel false (drop (end + length think_close) (c ∷ b))
]
feed_loop (suc fuel) false (c ∷ b) = elim (find_tag think_open (c ∷ b)) [
  | none ↦
      let held = partial_tag_suffix (c ∷ b) think_open in
      some (take (length (c ∷ b) - length held) (c ∷ b), record { buffer = held; inside = false })
  | some start ↦
      emitting (take start (c ∷ b)) (feed_loop fuel true (drop (start + length think_open) (c ∷ b)))
]

-- Every turn of the loop but the last shortens the buffer.
unfoldable pub feed : FilterState → Text → Option (Text × FilterState)
unfolding feed_loop
feed state delta =
    let buffer = state.buffer ++ delta in feed_loop (length buffer) state.inside buffer

abbrev pub flush : FilterState → Text
flush state = if state.inside then [] else state.buffer

abbrev pub initial : FilterState
initial = record { buffer = []; inside = false }

-- All that a consumer of the stream sees.
unfoldable pub filtered : FilterState → List Text → Option Text
unfolding feed
filtered state [] = some (flush state)
filtered state (delta ∷ deltas) = elim (feed state delta) [
  | none ↦ none
  | some (out, next) ↦ elim (filtered next deltas) [ none ↦ none | some rest ↦ some (out ++ rest) ]
]
