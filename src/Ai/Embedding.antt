-- ===== src/Ai/Embedding.antt =====
-- `LangChainEmbeddings.embed_batch` of `app/services/ai/base.py`: texts are embedded in batches, each
-- with its own tries. The model that answers is an argument, asked by the number of the request.
use nuvrag_platform.Base.{
  ℕ, zero, suc, ◌+◌, ◌-◌, ◌≤◌, ◌<◌, ◌≡◌, ◌⊎◌, refl, sym, ap, ◌∙◌, true, Option, none, some, List,
  [], ◌∷◌, ◌++◌, arith, ◌==◌, if◌then◌else◌, length, length-take, All, take, drop, map, inl, inr,
  Option-cases,
}
use mathlib.Core.List.{append-nil, append_assoc}
use nuvrag_platform.Base.Text.{Text}
use nuvrag_platform.Domain.Errors.{DomainError, Result, err, ok}

-- `_batches`, by the number of texts
unfoldable pub batches : ℕ → ℕ → List Text → List (List Text)
batches zero size texts = []
batches (suc left) size [] = []
batches (suc left) size (t ∷ texts) =
    take size (t ∷ texts) ∷ batches left size (drop size (t ∷ texts))

module _ {Vector : Type 0} (aembed_documents : ℕ → List Text → Option (List Vector)) where
  -- `_embed_once` from request `n` on, by the tries left, with the number of the next request
  unfoldable pub embed_once : ℕ → ℕ → List Text → Option (List Vector) × ℕ
  embed_once zero n texts = (none, n)
  embed_once (suc left) n texts = elim (aembed_documents n texts) [
    | some vectors ↦ (some vectors, suc n)
    | none ↦ embed_once left (suc n) texts
  ]

module _ {Vector : Type 0} (aembed_documents : ℕ → List Text → Option (List Vector))
    (attempts : ℕ) where
  -- The loop over the batches.
  unfoldable pub embed_loop : ℕ → List (List Text) → List Vector → Result (List Vector) × ℕ
  unfolding embed_once
  embed_loop n [] vectors = (ok vectors, n)
  embed_loop n (batch ∷ rest) vectors = elim ((embed_once aembed_documents attempts n batch).0) [
    | none ↦ (err DomainError.upstream_service, (embed_once aembed_documents attempts n batch).1)
    | some more ↦
        embed_loop ((embed_once aembed_documents attempts n batch).1) rest (vectors ++ more)
  ]

  abbrev pub checked_count : ℕ → Result (List Vector) → Result (List Vector)
  checked_count expected (err raised) = err raised
  checked_count expected (ok vectors) =
      if length vectors == expected then ok vectors else err DomainError.upstream_service

  unfoldable pub embed_batch : ℕ → List Text → Result (List Vector)
  unfolding embed_loop batches
  embed_batch size [] = ok []
  embed_batch size (t ∷ texts) =
      checked_count (length (t ∷ texts))
        ((embed_loop 0 (batches (length (t ∷ texts)) size (t ∷ texts)) []).0)

module _ {Vector : Type 0} (each : Text → Vector) where
  abbrev embedded : List (List Text) → List Vector
  embedded [] = []
  embedded (batch ∷ rest) = map each batch ++ embedded rest

  map-take-drop :
      (n : ℕ) (texts : List Text)
      → map each (take n texts) ++ map each (drop n texts) ≡ map each texts
  map-take-drop zero texts = refl
  map-take-drop (suc n) [] = refl
  map-take-drop (suc n) (t ∷ texts) = ap (λ rest. each t ∷ rest) (map-take-drop n texts)

  length-drop-lt :
      (size : ℕ) (texts : List Text) → length (drop (suc size) texts) ≤ length texts - 1
  length-drop-lt size [] = omega arith
  length-drop-lt zero (t ∷ texts) = omega arith
  length-drop-lt (suc size) (t ∷ texts) = omega (arith, length-drop-lt size texts)

  -- The batches hold every text once and in order.
  embedded-batches :
      (left size : ℕ) (texts : List Text)
      → length texts ≤ left
      → embedded (batches left (suc size) texts) ≡ map each texts
  unfolding batches
  embedded-batches zero size [] h = refl
  embedded-batches zero size (t ∷ texts) h = ground (arith, h)
  embedded-batches (suc left) size [] h = refl
  embedded-batches (suc left) size (t ∷ texts) h =
      ap (λ rest. map each (take (suc size) (t ∷ texts)) ++ rest)
        (embedded-batches left size (drop (suc size) (t ∷ texts))
          (omega (arith, h, length-drop-lt size (t ∷ texts))))
      ∙ map-take-drop (suc size) (t ∷ texts)

  module _ (aembed_documents : ℕ → List Text → Option (List Vector)) (attempts : ℕ) where
    -- A request that is answered gets the vector of each of its texts, in order.
    abbrev pub Answers : Type 0
    Answers =
        (n : ℕ) (batch : List Text) (vectors : List Vector)
        → aembed_documents n batch ≡ some vectors
        → vectors ≡ map each batch

    -- All tries at a batch failed, the first of them at request `n`.
    abbrev pub Exhausted : ℕ → List Text → Type 0
    Exhausted n batch = (k : ℕ) → k < attempts → aembed_documents (n + k) batch ≡ none

    embed_once-none :
        (left n : ℕ) (batch : List Text)
        → (embed_once aembed_documents left n batch).0 ≡ none
        → (k : ℕ) → k < left
        → aembed_documents (n + k) batch ≡ none
    unfolding embed_once
    embed_once-none zero n batch h k below = ground (arith, below)
    embed_once-none (suc left) n batch h zero below =
        elim (Option-cases (aembed_documents n batch)) [
          | inl failed ↦
              let here : n + 0 ≡ n = omega arith in ap (λ m. aembed_documents m batch) here ∙ failed
          | inr (vs, answered) ↦ ground (arith, h, answered)
        ]
    embed_once-none (suc left) n batch h (suc k) below =
        elim (Option-cases (aembed_documents n batch)) [
          | inl failed ↦
              let rest : (embed_once aembed_documents left (suc n) batch).0 ≡ none =
                ground (arith, h, failed) in
              let here : n + suc k ≡ suc n + k = omega arith in
              ap (λ m. aembed_documents m batch) here
              ∙ embed_once-none left (suc n) batch rest k (omega (arith, below))
          | inr (vs, answered) ↦ ground (arith, h, answered)
        ]

    embed_once-some :
        (left n : ℕ) (batch : List Text) (vectors : List Vector)
        → Answers
        → (embed_once aembed_documents left n batch).0 ≡ some vectors
        → vectors ≡ map each batch
    unfolding embed_once
    embed_once-some zero n batch vectors answers h = ground (arith, h)
    embed_once-some (suc left) n batch vectors answers h =
        elim (Option-cases (aembed_documents n batch)) [
          | inl failed ↦
              let rest : (embed_once aembed_documents left (suc n) batch).0 ≡ some vectors =
                ground (arith, h, failed) in
              embed_once-some left (suc n) batch vectors answers rest
          | inr (vs, answered) ↦
              let same : vs ≡ vectors = ground (arith, h, answered) in
              sym same ∙ answers n batch vs answered
        ]

    -- A batch that is a non-empty run of the texts, no longer than the size.
    abbrev pub IsPiece : ℕ → List Text → List Text → Type 0
    IsPiece size texts batch =
        (1 ≤ length batch)
        × (length batch ≤ size)
        × ((before : List Text) × (after : List Text) × (texts ≡ before ++ (batch ++ after)))

    take-drop : (n : ℕ) (texts : List Text) → take n texts ++ drop n texts ≡ texts
    take-drop zero texts = refl
    take-drop (suc n) [] = refl
    take-drop (suc n) (t ∷ texts) = ap (λ rest. t ∷ rest) (take-drop n texts)

    batches-IsPiece :
        (left size : ℕ) (texts before rest : List Text)
        → texts ≡ before ++ rest
        → All (IsPiece (suc size) texts) (batches left (suc size) rest)
    unfolding batches
    batches-IsPiece zero size texts before rest h = tt
    batches-IsPiece (suc left) size texts before [] h = tt
    batches-IsPiece (suc left) size texts before (t ∷ rest) h =
        let batch = take (suc size) (t ∷ rest) in
        let after = drop (suc size) (t ∷ rest) in
        let split = h ∙ ap (λ r. before ++ r) (sym (take-drop (suc size) (t ∷ rest))) in
        (
          (omega arith, omega (arith, length-take (suc size) (t ∷ rest)), (before, after, split)),
          batches-IsPiece left size texts (before ++ batch) after
              (split ∙ sym (append_assoc before batch after)),
        )

    -- The outcome of the loop over batches of the texts.
    abbrev pub Concluded : ℕ → List Text → List Vector → Result (List Vector) → Type 0
    Concluded size texts vectors outcome =
        (outcome ≡ ok vectors)
        ⊎ ((outcome ≡ err DomainError.upstream_service)
            × ((n : ℕ) × (batch : List Text) × IsPiece size texts batch × Exhausted n batch))

    embed_loop-Concluded :
        (n size : ℕ) (texts : List Text) (pending : List (List Text)) (vectors : List Vector)
        → Answers
        → All (IsPiece size texts) pending
        → Concluded size texts
            (vectors ++ embedded pending)
            ((embed_loop aembed_documents attempts n pending vectors).0)
    unfolding embed_loop
    embed_loop-Concluded n size texts [] vectors answers pieces =
        inl (ap ok (sym (append-nil vectors)))
    embed_loop-Concluded n size texts (batch ∷ rest) vectors answers pieces =
        elim (Option-cases ((embed_once aembed_documents attempts n batch).0)) [
          | inl failed ↦
              rw (failed, embed_loop)
                (inr (refl, (n, batch, pieces.0, embed_once-none attempts n batch failed)))
          | inr (more, answered) ↦
              rw (answered, embed_loop)
                (rw (embed_once-some attempts n batch more answers answered) (
                  rw (sym (append_assoc vectors (map each batch) (embedded rest))) (
                    embed_loop-Concluded ((embed_once aembed_documents attempts n batch).1) size
                      texts rest (vectors ++ map each batch) answers pieces.1)))
        ]

    length-map-each : (texts : List Text) → (length (map each texts) == length texts) ≡ true
    length-map-each [] = refl
    length-map-each (t ∷ texts) = ground (arith, length-map-each texts)

    -- Splitting the texts into batches does not show: where each answered request gives the vectors of
    -- its own texts, the result is the vector of every text in order, or it is an error, and then all
    -- tries at some non-empty run of the texts, no longer than a batch, failed one after the other.
    -- Batches hold at least one text.
    pub embed_batch-Concluded :
        (size : ℕ) (texts : List Text)
        → Answers
        → Concluded
            (suc size)
            texts
            (map each texts)
            (embed_batch aembed_documents attempts (suc size) texts)
    unfolding embed_batch
    embed_batch-Concluded size [] answers = inl refl
    embed_batch-Concluded size (t ∷ texts) answers =
        let all = t ∷ texts in
        let pending = batches (length all) (suc size) all in
        let same : embedded pending ≡ map each all =
          embedded-batches (length all) size all (omega arith) in
        let pieces = batches-IsPiece (length all) size all [] all refl in
        elim (embed_loop-Concluded 0 (suc size) all pending [] answers pieces) [
          | inl done ↦ inl (
              ap (checked_count aembed_documents attempts (length all)) (done ∙ ap ok same)
              ∙ rw (length-map-each all) refl)
          | inr (failed, why) ↦
              inr (ap (checked_count aembed_documents attempts (length all)) failed, why)
        ]
