-- ===== src/Documents/Stream.antt =====
-- What `app/services/document.py` accepts of an upload: the file type by its name and its declared
-- content type, and `_MeteredStream`, the bytes on their way to object storage. An upload is the list
-- of what successive reads return.
use nuvrag_platform.Base.{
  ℕ, ◌+◌, ◌≤◌, ◌≡◌, Bool, true, false, ◌&&◌, ◌||◌, not, Option, none, some, List, [], ◌∷◌, ◌++◌,
  arith, ◌==◌, ltb, if◌then◌else◌, length,
}
use nuvrag_platform.Base.Text.{Text, text, text_eq, strip, starts_with}
use nuvrag_platform.Domain.Enums.{FileType}
use nuvrag_platform.Domain.Errors.{DomainError, Result, err, ok}

-- `s.rsplit(".", 1)[-1]`, where there is a dot
unfoldable pub after_last_dot : Text → Option Text
after_last_dot [] = none
after_last_dot (c ∷ s) = elim (after_last_dot s) [
  | some extension ↦ some extension
  | none ↦ if c == 46 then some s else none
]

-- `s.split(";")[0]`
unfoldable pub before_semicolon : Text → Text
before_semicolon [] = []
before_semicolon (c ∷ s) = if c == 59 then [] else c ∷ before_semicolon s

abbrev pub text_in : Text → List Text → Bool
text_in s [] = false
text_in s (t ∷ ts) = text_eq s t || text_in s ts

-- `_EXTENSION_TO_TYPE`
unfoldable pub type_of_extension : Text → Option FileType
type_of_extension extension =
    if text_eq extension (text "pdf")
    then some FileType.pdf
    else if text_eq extension (text "docx")
    then some FileType.docx
    else if text_in extension (text "md" ∷ text "markdown" ∷ [])
    then some FileType.md
    else if text_eq extension (text "mdx")
    then some FileType.mdx
    else if text_in extension (text "txt" ∷ text "text" ∷ [])
    then some FileType.txt
    else none

abbrev pub markdown_content_types : List Text
markdown_content_types =
    text "text/markdown" ∷ text "text/x-markdown" ∷ text "text/mdx" ∷ text "text/plain" ∷ []

-- `_ALLOWED_CONTENT_TYPES`
abbrev pub allowed_content_types : FileType → List Text
allowed_content_types FileType.pdf = text "application/pdf" ∷ text "application/x-pdf" ∷ []
allowed_content_types FileType.docx =
    text "application/vnd.openxmlformats-officedocument.wordprocessingml.document"
    ∷ text "application/zip"
    ∷ []
allowed_content_types FileType.md = markdown_content_types
allowed_content_types FileType.mdx = markdown_content_types
allowed_content_types FileType.txt = text "text/plain" ∷ []

abbrev pub generic_content_types : List Text
generic_content_types = text "application/octet-stream" ∷ text "binary/octet-stream" ∷ [] ∷ []

-- `_MAGIC_PREFIXES`; no prefix is asked of the text formats
abbrev pub magic_prefix : FileType → List ℕ
magic_prefix FileType.pdf = text "%PDF-"
magic_prefix FileType.docx = 80 ∷ 75 ∷ 3 ∷ 4 ∷ []
magic_prefix _ = []

module _ (lower : Text → Text) where
  abbrev pub extension_of : Text → Text
  extension_of filename = elim (after_last_dot filename) [
    | none ↦ []
    | some extension ↦ lower extension
  ]

  abbrev pub declared_type : Text → Text
  declared_type content_type = lower (strip (before_semicolon content_type))

  -- `_resolve_file_type`
  unfoldable pub resolve_file_type : Text → Text → Result FileType
  resolve_file_type filename content_type = elim (type_of_extension (extension_of filename)) [
    | none ↦ err DomainError.unsupported_media_type
    | some file_type ↦
        if not (text_in (declared_type content_type) generic_content_types)
          && not (text_in (declared_type content_type) (allowed_content_types file_type))
        then err DomainError.unsupported_media_type
        else ok file_type
  ]

-- `_MeteredStream.__aiter__` from a size: how it ends, and the chunks that it yields before.
unfoldable pub metered : FileType → ℕ → Bool → ℕ → List (List ℕ) → Result ℕ × List (List ℕ)
unfolding starts_with
metered file_type max_bytes is_first size [] =
    (if size == 0 then err DomainError.unsupported_media_type else ok size, [])
metered file_type max_bytes is_first size ([] ∷ chunks) =
    (if size == 0 then err DomainError.unsupported_media_type else ok size, [])
metered file_type max_bytes is_first size ((b ∷ bytes) ∷ chunks) =
    let grown = size + length (b ∷ bytes) in
    let rest = metered file_type max_bytes false grown chunks in
    if is_first && not (starts_with (magic_prefix file_type) (b ∷ bytes))
    then (err DomainError.unsupported_media_type, [])
    else if ltb max_bytes grown
    then (err DomainError.payload_too_large, [])
    else (rest.0, (b ∷ bytes) ∷ rest.1)

-- What the reads return up to the first empty one: the whole file.
unfoldable pub received : List (List ℕ) → List (List ℕ)
received [] = []
received ([] ∷ chunks) = []
received ((b ∷ bytes) ∷ chunks) = (b ∷ bytes) ∷ received chunks

abbrev pub total_size : List (List ℕ) → ℕ
total_size [] = 0
total_size (chunk ∷ chunks) = length chunk + total_size chunks

abbrev pub joined_chunks : List (List ℕ) → List ℕ
joined_chunks [] = []
joined_chunks (chunk ∷ chunks) = chunk ++ joined_chunks chunks

-- The verdict on a whole file.
abbrev pub judged : FileType → ℕ → List (List ℕ) → Result ℕ
judged file_type max_bytes [] = err DomainError.unsupported_media_type
judged file_type max_bytes (chunk ∷ chunks) =
    if not (starts_with (magic_prefix file_type) chunk)
    then err DomainError.unsupported_media_type
    else if ltb max_bytes (total_size (chunk ∷ chunks))
    then err DomainError.payload_too_large
    else ok (total_size (chunk ∷ chunks))

metered_rest :
    (file_type : FileType) (max_bytes size : ℕ) (chunks : List (List ℕ))
    → 1 ≤ size
    → size ≤ max_bytes
    → (metered file_type max_bytes false size chunks).0 ≡ (
        if ltb max_bytes (size + total_size (received chunks))
        then err DomainError.payload_too_large
        else ok (size + total_size (received chunks)))
unfolding metered received
metered_rest file_type max_bytes size [] pos h = ground arith
metered_rest file_type max_bytes size ([] ∷ chunks) pos h = ground arith
metered_rest file_type max_bytes size ((b ∷ bytes) ∷ chunks) pos h =
    ground (arith, metered_rest file_type max_bytes (size + length (b ∷ bytes)) chunks)

-- Checking the size while the file passes decides as a check of the whole file would: the first
-- chunk's magic bytes, then the total size against the limit, an empty file refused.
metered_exact :
    (file_type : FileType) (max_bytes : ℕ) (chunks : List (List ℕ))
    → (metered file_type max_bytes true 0 chunks).0 ≡ judged file_type max_bytes (received chunks)
unfolding metered received
metered_exact file_type max_bytes [] = ground arith
metered_exact file_type max_bytes ([] ∷ chunks) = ground arith
metered_exact file_type max_bytes ((b ∷ bytes) ∷ chunks) =
    ground (arith, metered_rest file_type max_bytes (length (b ∷ bytes)) chunks)

-- Never more than the limit reaches the storage.
pub total_size-metered-le :
    (file_type : FileType) (max_bytes : ℕ) (is_first : Bool) (size : ℕ) (chunks : List (List ℕ))
    → size ≤ max_bytes
    → size + total_size (metered file_type max_bytes is_first size chunks).1 ≤ max_bytes
unfolding metered
total_size-metered-le file_type max_bytes is_first size [] h = ground arith
total_size-metered-le file_type max_bytes is_first size ([] ∷ chunks) h = ground arith
total_size-metered-le file_type max_bytes is_first size ((b ∷ bytes) ∷ chunks) h =
    ground
      (arith, total_size-metered-le file_type max_bytes false (size + length (b ∷ bytes)) chunks)

-- A file that is accepted has reached the storage whole.
pub metered_whole :
    (file_type : FileType) (max_bytes : ℕ) (is_first : Bool) (size n : ℕ) (chunks : List (List ℕ))
    → (metered file_type max_bytes is_first size chunks).0 ≡ ok n
    → ((metered file_type max_bytes is_first size chunks).1 ≡ received chunks)
      × (n ≡ size + total_size (received chunks))
      × (1 ≤ n)
unfolding metered received
metered_whole file_type max_bytes is_first size n [] h = ground arith
metered_whole file_type max_bytes is_first size n ([] ∷ chunks) h = ground arith
metered_whole file_type max_bytes is_first size n ((b ∷ bytes) ∷ chunks) h =
    ground (arith, metered_whole file_type max_bytes false (size + length (b ∷ bytes)) n chunks)
