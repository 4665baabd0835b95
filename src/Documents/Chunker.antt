-- ===== src/Documents/Chunker.antt =====
-- `chunk_sections` of `app/services/ingestion/chunker.py`. The splitter of LangChain and the token
-- counter of tiktoken are arguments.
use nuvrag_platform.Base.{
  ℕ, zero, suc, ◌+◌, ◌-◌, ◌≤◌, ◌<◌, ◌≡◌, refl, sym, ap, ◌∙◌, leb→le, Bool, true, false, List, [],
  ◌∷◌, ◌++◌, arith, leb, if◌then◌else◌, length, take, Bool-cases, inl, inr, length-append,
}
use nuvrag_platform.Base.Text.{Text, strip, is_empty}
use nuvrag_platform.Documents.{Details}
use mathlib.Core.List.{append-nil, append_assoc}

pub record TextSection : Type 0 where
  pub content : Text
  pub metadata : Details

pub record Chunk : Type 0 where
  pub index : ℕ
  pub content : Text
  pub token_count : ℕ
  pub metadata : Details

module _ (split_text : Text → List Text) (count_tokens : Text → ℕ) (max_chunks : ℕ) where
  abbrev pub chunk_of : ℕ → Text → Details → Chunk
  chunk_of index body metadata = record {
    index = index;
    content = body;
    token_count = count_tokens body;
    metadata = metadata;
  }

  -- The inner loop over the pieces of one section; the flag says that it returned from it.
  unfoldable pub take_pieces : Details → List Text → List Chunk → List Chunk × Bool
  take_pieces metadata [] chunks = (chunks, false)
  take_pieces metadata (piece ∷ pieces) chunks =
      let grown = chunks ++ chunk_of (length chunks) (strip piece) metadata ∷ [] in
      elim (is_empty (strip piece)) [
        | true ↦ take_pieces metadata pieces chunks
        | false ↦ elim (leb max_chunks (length grown)) [
          | true ↦ (grown, true)
          | false ↦ take_pieces metadata pieces grown
        ]
      ]

  -- The outer loop over the sections.
  unfoldable pub take_sections : List TextSection → List Chunk → List Chunk
  unfolding take_pieces
  take_sections [] chunks = chunks
  take_sections (section ∷ sections) chunks =
      let (grown, full) = take_pieces section.metadata (split_text section.content) chunks in
      elim full [ true ↦ grown | false ↦ take_sections sections grown ]

  unfoldable pub chunk_sections : List TextSection → List Chunk
  unfolding take_sections
  chunk_sections sections = take_sections sections []

  -- The texts that are worth a passage, with the provenance of their sections.
  abbrev pub bodies_of : Details → List Text → List (Text × Details)
  bodies_of metadata [] = []
  bodies_of metadata (piece ∷ pieces) =
      if is_empty (strip piece)
      then bodies_of metadata pieces
      else (strip piece, metadata) ∷ bodies_of metadata pieces

  abbrev pub bodies : List TextSection → List (Text × Details)
  bodies [] = []
  bodies (section ∷ sections) =
      bodies_of section.metadata (split_text section.content) ++ bodies sections

  -- Passages with consecutive indices.
  abbrev pub numbered : ℕ → List (Text × Details) → List Chunk
  numbered i [] = []
  numbered i ((body, metadata) ∷ rest) = chunk_of i body metadata ∷ numbered (suc i) rest

  numbered-append :
      (i : ℕ) (xs ys : List (Text × Details))
      → numbered i (xs ++ ys) ≡ numbered i xs ++ numbered (length xs + i) ys
  numbered-append i [] ys = ground arith
  numbered-append i (x ∷ xs) ys = ground (arith, numbered-append (suc i) xs ys)

  take_short :
      (n : ℕ) (xs ys : List (Text × Details)) → n ≤ length xs → take n (xs ++ ys) ≡ take n xs
  take_short zero xs ys h = refl
  take_short (suc n) [] ys h = ground arith
  take_short (suc n) (x ∷ xs) ys h = ground (arith, take_short n xs ys)

  take_long :
      (m n : ℕ) (xs ys : List (Text × Details))
      → n ≡ length xs + m
      → take n (xs ++ ys) ≡ xs ++ take m ys
  take_long m n [] ys h = ground arith
  take_long m zero (x ∷ xs) ys h = ground arith
  take_long m (suc n) (x ∷ xs) ys h = ground (arith, take_long m n xs ys)

  -- What one section adds where there is room for a number of passages, and whether it fills it.
  abbrev Taken : Details → List Text → List Chunk → ℕ → List Chunk × Bool → Type 0
  Taken metadata pieces chunks room (grown, full) =
      (grown ≡ chunks ++ numbered (length chunks) (take room (bodies_of metadata pieces)))
      × (full ≡ leb room (length (bodies_of metadata pieces)))

  take_pieces-Taken :
      (metadata : Details) (pieces : List Text) (chunks : List Chunk) (k : ℕ)
      → max_chunks ≡ length chunks + suc k
      → Taken metadata pieces chunks (suc k) (take_pieces metadata pieces chunks)
  unfolding take_pieces
  take_pieces-Taken metadata [] chunks k h = (sym (append-nil chunks), ground arith)
  take_pieces-Taken metadata (piece ∷ pieces) chunks zero h =
      let c = chunk_of (length chunks) (strip piece) metadata in
      ground (arith, take_pieces-Taken metadata pieces chunks zero h, length-append chunks (c ∷ []))
  take_pieces-Taken metadata (piece ∷ pieces) chunks (suc k) h =
      let c = chunk_of (length chunks) (strip piece) metadata in
      ground (
        arith,
        take_pieces-Taken metadata pieces chunks (suc k) h,
        take_pieces-Taken metadata pieces (chunks ++ c ∷ []) k,
        length-append chunks (c ∷ []),
        append_assoc chunks (c ∷ [])
            (numbered (suc (length chunks)) (take (suc k) (bodies_of metadata pieces))),
      )

  take_all : (n : ℕ) (xs : List (Text × Details)) → length xs ≤ n → take n xs ≡ xs
  take_all zero [] h = refl
  take_all zero (x ∷ xs) h = ground arith
  take_all (suc n) [] h = refl
  take_all (suc n) (x ∷ xs) h = ground (arith, take_all n xs)

  length-numbered : (i : ℕ) (xs : List (Text × Details)) → length (numbered i xs) ≡ length xs
  length-numbered i [] = refl
  length-numbered i (x ∷ xs) = ap suc (length-numbered (suc i) xs)

  -- A section that leaves room is taken whole.
  take_pieces-room :
      (metadata : Details) (pieces : List Text) (chunks : List Chunk) (k : ℕ)
      → max_chunks ≡ length chunks + suc k
      → length (bodies_of metadata pieces) ≤ k
      → take_pieces metadata pieces chunks
        ≡ (chunks ++ numbered (length chunks) (bodies_of metadata pieces), false)
  take_pieces-room metadata pieces chunks k h room =
      let (grown, full) = take_pieces-Taken metadata pieces chunks k h in
      let all = take_all (suc k) (bodies_of metadata pieces) (omega (arith, room)) in
      ground (arith, grown, full, all, room)

  -- A section that does not is cut, and ends the loop.
  take_pieces-full :
      (metadata : Details) (pieces : List Text) (chunks : List Chunk) (k : ℕ)
      → max_chunks ≡ length chunks + suc k
      → suc k ≤ length (bodies_of metadata pieces)
      → take_pieces metadata pieces chunks
        ≡ (chunks ++ numbered (length chunks) (take (suc k) (bodies_of metadata pieces)), true)
  take_pieces-full metadata pieces chunks k h full =
      ground (arith, take_pieces-Taken metadata pieces chunks k h, full)

  take_sections_lem :
      (sections : List TextSection) (chunks : List Chunk) (k : ℕ)
      → max_chunks ≡ length chunks + suc k
      → take_sections sections chunks
        ≡ chunks ++ numbered (length chunks) (take (suc k) (bodies sections))
  unfolding take_sections
  take_sections_lem [] chunks k h = sym (append-nil chunks)
  take_sections_lem (section ∷ sections) chunks k h =
      let here = bodies_of section.metadata (split_text section.content) in
      elim (Bool-cases (leb (length here) k)) [
        | inl room ↦
            let whole =
              take_pieces-room section.metadata (split_text section.content) chunks k h
                (ground (arith, room)) in
            let grown = chunks ++ numbered (length chunks) here in
            let rest = take_sections_lem sections grown (k - length here) (
              omega (
                arith,
                h,
                leb→le (length here) k room,
                length-append chunks (numbered (length chunks) here),
                length-numbered (length chunks) here,
              )) in
            let more = take (suc (k - length here)) (bodies sections) in
            let cut : take (suc k) (here ++ bodies sections) ≡ here ++ more =
              take_long (suc (k - length here)) (suc k) here (bodies sections)
                (omega (arith, leb→le (length here) k room)) in
            let size : length grown ≡ length here + length chunks = omega (
              arith,
              length-append chunks (numbered (length chunks) here),
              length-numbered (length chunks) here,
            ) in
            ap (λ r. elim r.1 [ true ↦ r.0 | false ↦ take_sections sections r.0 ]) whole
            ∙ (rest
                ∙ cc (
                  cut,
                  size,
                  numbered-append (length chunks) here more,
                  append_assoc chunks (numbered (length chunks) here)
                      (numbered (length here + length chunks) more),
                ))
        | inr full ↦
            let cut =
              take_pieces-full section.metadata (split_text section.content) chunks k h
                (ground (arith, full)) in
            ap (λ r. elim r.1 [ true ↦ r.0 | false ↦ take_sections sections r.0 ]) cut
            ∙ ap (λ t. chunks ++ numbered (length chunks) t)
                (sym (take_short (suc k) here (bodies sections) (ground (arith, full))))
      ]

  -- Where at least one passage is allowed, the loops with their early return give the stripped
  -- pieces that are not empty, section by section, cut off at the limit and numbered from zero.
  pub chunk_sections_lem :
      (sections : List TextSection)
      → 0 < max_chunks
      → chunk_sections sections ≡ numbered 0 (take max_chunks (bodies sections))
  unfolding chunk_sections
  chunk_sections_lem sections h =
      let room : max_chunks ≡ suc (max_chunks - 1) = omega (arith, h) in
      take_sections_lem sections [] (max_chunks - 1) (omega (arith, h))
      ∙ ap (λ n. numbered 0 (take n (bodies sections))) (sym room)
