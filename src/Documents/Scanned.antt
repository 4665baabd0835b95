-- ===== src/Documents/Scanned.antt =====
-- What the scanner reads is the file, and what is indexed has been found clean.
use nuvrag_platform.Base.{
  ℕ, zero, suc, ◌≤◌, ◌<◌, ◌≡◌, refl, sym, ap, ◌∙◌, true, false, some, List, [], ◌∷◌, ◌++◌, arith,
  ◌==◌, leb, le→leb, length, take, drop, Bool-cases, inl, inr, length-append,
}
use nuvrag_platform.Base.Text.{Text, text, ends_with}
use nuvrag_platform.Base.Rows.{get}
use nuvrag_platform.Documents.{Document, Library, document_row}
use nuvrag_platform.Documents.Chunker.{Chunk}
use nuvrag_platform.Documents.Pipeline.{
  Attempt, Attempt-cases, Services, IngestionResult, read_chunks, process_document,
}
use nuvrag_platform.Documents.Idempotent.{process_document-done, prepare-parts}
use nuvrag_platform.Documents.Scanner.{
  pack, unpack-pack, send_frames, frames_of, receive_frames, after_chunk, Exchange, Verdict,
  interpret, scan, raise_unless_clean, ensure_clean,
}

pub take-append : (xs ys : List ℕ) → take (length xs) (xs ++ ys) ≡ xs
take-append [] ys = refl
take-append (x ∷ xs) ys = ap (λ t. x ∷ t) (take-append xs ys)

pub drop-append : (xs ys : List ℕ) → drop (length xs) (xs ++ ys) ≡ ys
drop-append [] ys = refl
drop-append (x ∷ xs) ys = drop-append xs ys

take-drop : (n : ℕ) (xs : List ℕ) → take n xs ++ drop n xs ≡ xs
take-drop zero xs = refl
take-drop (suc n) [] = refl
take-drop (suc n) (x ∷ xs) = ap (λ t. x ∷ t) (take-drop n xs)

length-drop-le : (n : ℕ) (xs : List ℕ) → length (drop n xs) ≤ length xs
length-drop-le zero xs = omega arith
length-drop-le (suc n) [] = omega arith
length-drop-le (suc n) (x ∷ xs) = omega (arith, length-drop-le n xs)

length-take-le : (n : ℕ) (xs : List ℕ) → length (take n xs) ≤ n
length-take-le zero xs = omega arith
length-take-le (suc n) [] = omega arith
length-take-le (suc n) (x ∷ xs) = omega (arith, length-take-le n xs)

-- One frame is read as its chunk.
receive_frames-frame :
    (fuel : ℕ) (chunk more : List ℕ)
    → 0 < length chunk
    → length chunk < 4294967296
    → receive_frames (suc fuel) (pack (length chunk) ++ (chunk ++ more))
      ≡ after_chunk chunk (receive_frames fuel more)
unfolding pack receive_frames
receive_frames-frame fuel chunk more pos small =
    let some_bytes : (length chunk == 0) ≡ false = ground (arith, pos) in
    let fits : leb (length chunk) (length (chunk ++ more)) ≡ true =
      le→leb (length chunk) (length (chunk ++ more)) (omega (arith, length-append chunk more)) in
    rw (unpack-pack (length chunk) small, receive_frames)
      (rw some_bytes (rw fits (rw (take-append chunk more) (rw (drop-append chunk more) refl))))

receive_frames-end : (fuel : ℕ) → receive_frames (suc fuel) (pack 0) ≡ some []
unfolding pack receive_frames
receive_frames-end fuel = refl

receive_frames-send_frames :
    (fuel chunk_size : ℕ) (payload : List ℕ)
    → 0 < chunk_size
    → chunk_size < 4294967296
    → length payload ≤ fuel
    → receive_frames (suc fuel) (send_frames fuel chunk_size payload) ≡ some payload
unfolding send_frames
receive_frames-send_frames fuel chunk_size [] pos small h = receive_frames-end fuel
receive_frames-send_frames zero chunk_size (b ∷ payload) pos small h = ground (arith, h)
receive_frames-send_frames (suc fuel) zero (b ∷ payload) pos small h = ground (arith, pos)
receive_frames-send_frames (suc fuel) (suc size) (b ∷ payload) pos small h =
    let rest = drop size payload in
    receive_frames-frame (suc fuel) (b ∷ take size payload) (send_frames fuel (suc size) rest)
      (omega arith) (omega (arith, small, length-take-le size payload))
    ∙ (ap (after_chunk (b ∷ take size payload)) (
          receive_frames-send_frames fuel (suc size) rest pos small
            (omega (arith, h, length-drop-le size payload)))
        ∙ ap (λ t. some (b ∷ t)) (take-drop size payload))

-- The scanner reads exactly the file that is to be indexed: what clamd makes of the frames is the
-- payload, for every size of a frame that is not zero and that the length prefix can hold.
pub receive_frames-frames_of :
    (chunk_size : ℕ) (payload : List ℕ)
    → 0 < chunk_size
    → chunk_size < 4294967296
    → receive_frames (suc (length payload)) (frames_of chunk_size payload) ≡ some payload
receive_frames-frames_of chunk_size payload pos small =
    receive_frames-send_frames (length payload) chunk_size payload pos small (omega arith)

scan-clean :
    (e : Exchange)
    → scan e ≡ Attempt.done Verdict.clean
    → (response : Text) × (e ≡ Exchange.answered response) × (ends_with (text "OK") response ≡ true)
unfolding scan interpret
scan-clean Exchange.timed_out h = cc
scan-clean Exchange.os_error h = cc
scan-clean (Exchange.answered response) h = elim (Bool-cases (ends_with (text "OK") response)) [
  | inl fine ↦ (response, refl, fine)
  | inr other ↦ ground (arith, h, other)
]

raise_unless_clean-done :
    (v : Attempt Verdict) (u : Unit {0})
    → raise_unless_clean v ≡ Attempt.done u
    → v ≡ Attempt.done Verdict.clean
raise_unless_clean-done (Attempt.failed fault) u h = cc
raise_unless_clean-done (Attempt.done Verdict.clean) u h = refl
raise_unless_clean-done (Attempt.done Verdict.infected) u h = cc

ensure_clean-ok :
    (exchange : List ℕ → Exchange) (payload : List ℕ) (filename : Text) (u : Unit {0})
    → ensure_clean (some exchange) payload filename ≡ Attempt.done u
    → (response : Text) × (exchange payload ≡ Exchange.answered response)
      × (ends_with (text "OK") response ≡ true)
unfolding ensure_clean
ensure_clean-ok exchange payload filename u h =
    scan-clean (exchange payload) (raise_unless_clean-done (scan (exchange payload)) u h)

read_chunks-parts :
    (services : Services) (d : Document) (chunks : List Chunk)
    → read_chunks services d ≡ Attempt.done chunks
    → (payload : List ℕ) × (u : Unit {0}) × (services.download d.storage_path
        ≡ Attempt.done payload)
      × (services.check_clean payload d.filename ≡ Attempt.done u)
unfolding read_chunks
read_chunks-parts services d chunks = elim (Attempt-cases (services.download d.storage_path)) [
  | inr (fault, fails) ↦ rw (fails, read_chunks) (λ h. cc)
  | inl (payload, fetched) ↦ elim (Attempt-cases (services.check_clean payload d.filename)) [
    | inr (fault, fails) ↦ rw (fetched, read_chunks) (rw fails (λ h. cc))
    | inl (u, passed) ↦ λ h. (payload, u, fetched, passed)
  ]
]

-- Where a scanner is configured, a document is only indexed if the scanner was given its stored bytes
-- and gave an answer that ends with `OK`: an unreachable scanner, one that does not answer in time and
-- any other answer all keep the file out.
pub indexed_clean :
    (services : Services) (exchange : List ℕ → Exchange) (id : ℕ) (r : IngestionResult)
    (lib : Library)
    → services.check_clean ≡ ensure_clean (some exchange)
    → (process_document services id lib).0 ≡ Attempt.done r
    → (d : Document) × (payload : List ℕ) × (response : Text) × (get id lib.documents ≡ some d)
      × (services.download d.storage_path ≡ Attempt.done payload)
      × (exchange payload ≡ Exchange.answered response)
      × (ends_with (text "OK") response ≡ true)
indexed_clean services exchange id r lib wired h =
    let (d, p, rows, stored, prepared, built) = process_document-done services id r lib h in
    let (chunks, locked, unit, cut, before, client, embedded) =
      prepare-parts services d p lib.configs prepared in
    let (payload, u, fetched, passed) = read_chunks-parts services d chunks cut in
    let (response, answer, fine) =
      ensure_clean-ok exchange payload d.filename u
        (ap (λ check. check payload d.filename) (sym wired) ∙ passed) in
    (d, payload, response, stored, fetched, answer, fine)
