-- ===== src/Documents/Scanner.antt =====
-- `app/services/ingestion/scanner.py`: the wire format of clamd's INSTREAM command, the reading of its
-- answer, and what the pipeline makes of it. The socket and the decoding of the answer are arguments.
use nuvrag_platform.Base.{
  ℕ, zero, suc, ◌+◌, ◌*◌, ◌/◌, ◌%◌, ◌<◌, ◌≡◌, true, false, Option, none, some, List, [], ◌∷◌, ◌++◌,
  arith, ◌==◌, leb, if◌then◌else◌, length, take, drop,
}
use nuvrag_platform.Base.Text.{Text, text, ends_with}
use nuvrag_platform.Domain.Errors.{DomainError}
use nuvrag_platform.Documents.Pipeline.{Attempt, Fault}

-- `struct.pack("!L", n)`, of a number that four bytes hold
unfoldable pub pack : ℕ → List ℕ
pack n = n / 16777216 % 256 ∷ n / 65536 % 256 ∷ n / 256 % 256 ∷ n % 256 ∷ []

-- What `_exchange` writes after the command, by fuel; a step of the range is one frame.
unfoldable pub send_frames : ℕ → ℕ → List ℕ → List ℕ
unfolding pack
send_frames fuel chunk_size [] = pack 0
send_frames zero chunk_size (b ∷ payload) = []
send_frames (suc fuel) chunk_size (b ∷ payload) =
    let chunk = take chunk_size (b ∷ payload) in
    pack (length chunk) ++ (chunk ++ send_frames fuel chunk_size (drop chunk_size (b ∷ payload)))

abbrev pub frames_of : ℕ → List ℕ → List ℕ
frames_of chunk_size payload = send_frames (length payload) chunk_size payload

abbrev pub unpack : ℕ → ℕ → ℕ → ℕ → ℕ
unpack a b c d = ((a * 256 + b) * 256 + c) * 256 + d

abbrev pub after_chunk : List ℕ → Option (List ℕ) → Option (List ℕ)
after_chunk chunk none = none
after_chunk chunk (some rest) = some (chunk ++ rest)

-- How clamd reads the stream: chunks, each behind its length in network order, up to one of length
-- zero.
unfoldable pub receive_frames : ℕ → List ℕ → Option (List ℕ)
receive_frames (suc fuel) (a ∷ b ∷ c ∷ d ∷ stream) =
    let n = unpack a b c d in
    let rest = receive_frames fuel (drop n stream) in
    if n == 0
    then some []
    else if leb n (length stream)
    then after_chunk (take n stream) rest
    else none
receive_frames _ _ = none

-- `ScanResult`, without the name of what was found
pub data Verdict : Type 0 where
  clean infected : Verdict

-- What the exchange comes to.
pub data Exchange : Type 0 where
  answered : Text → Exchange
  timed_out os_error : Exchange

abbrev pub retryable : Fault
retryable = Fault.domain (DomainError.document_processing true)

-- `_interpret`
unfoldable pub interpret : Text → Attempt Verdict
interpret response =
    if ends_with (text "OK") response
    then Attempt.done Verdict.clean
    else if ends_with (text "FOUND") response
    then Attempt.done Verdict.infected
    else Attempt.failed retryable

-- `ClamAVScanner.scan`
unfoldable pub scan : Exchange → Attempt Verdict
unfolding interpret
scan (Exchange.answered response) = interpret response
scan Exchange.timed_out = Attempt.failed retryable
scan Exchange.os_error = Attempt.failed retryable

abbrev pub raise_unless_clean : Attempt Verdict → Attempt (Unit {0})
raise_unless_clean (Attempt.failed fault) = Attempt.failed fault
raise_unless_clean (Attempt.done Verdict.clean) = Attempt.done tt
raise_unless_clean (Attempt.done Verdict.infected) =
    Attempt.failed (Fault.domain (DomainError.document_processing false))

-- `ensure_clean`, where no host means that scanning is disabled
unfoldable pub ensure_clean : Option (List ℕ → Exchange) → List ℕ → Text → Attempt (Unit {0})
unfolding scan
ensure_clean none payload filename = Attempt.done tt
ensure_clean (some exchange) payload filename = raise_unless_clean (scan (exchange payload))

pub unpack-pack :
    (n : ℕ)
    → n < 4294967296
    → unpack (n / 16777216 % 256) (n / 65536 % 256) (n / 256 % 256) (n % 256) ≡ n
unpack-pack n h = omega (arith, h)
