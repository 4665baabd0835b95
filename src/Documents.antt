-- ===== src/Documents.antt =====
-- `app/models/document.py`, `app/models/document_chunk.py` and `app/repositories/document.py`: the
-- documents of a chatbot, the passages cut from them, and the objects that hold the raw files.
-- Bytes are numbers, and so are the components of a vector.
pub mod Stream
pub mod Upload
pub mod Uploaded
pub mod Chunker
pub mod Pipeline
pub mod Service
pub mod Counted
pub mod Idempotent
pub mod Repeated
pub mod History
pub mod Task
pub mod Settled
pub mod Scanner
pub mod Scanned
pub mod Tests
use nuvrag_platform.Base.{ℕ, Bool, ◌&&◌, not, Option, none, List, ◌==◌, find, filter}
use nuvrag_platform.Base.Text.{Text}
use nuvrag_platform.Base.Rows.{Keyed}
use nuvrag_platform.Domain.Enums.{DocumentStatus, FileType}
use nuvrag_platform.Ai.{ChatbotAiConfig}

-- The entries of a JSON object of strings.
abbrev pub Details : Type 0
Details = List (Text × Text)

-- `build_storage_key`: the parts of `org/{org}/chatbot/{chatbot}/{document}.{suffix}`
pub record StorageKey : Type 0 where
  pub org_id : ℕ
  pub chatbot_id : ℕ
  pub document_id : ℕ
  pub suffix : Text

pub record Document : Type 0 where
  pub id : ℕ
  pub org_id : ℕ
  pub chatbot_id : ℕ
  pub filename : Text
  pub file_type : FileType
  pub content_type : Text
  pub storage_path : StorageKey
  pub checksum_sha256 : Option Text
  pub size_bytes : ℕ
  pub chunk_count : ℕ
  pub status : DocumentStatus
  pub error_message : Option Text
  pub uploaded_by : Option ℕ

instance abbrev pub document_row : Keyed Document
document_row = record { key = λ d. d.id }

pub record DocumentChunk : Type 0 where
  pub id : ℕ
  pub org_id : ℕ
  pub document_id : ℕ
  pub chatbot_id : ℕ
  pub chunk_index : ℕ
  pub content : Text
  pub token_count : ℕ
  pub embedding_dim : ℕ
  pub embedding : List ℕ
  pub metadata_json : Details

-- `DocumentRepository.get_for_chatbot`
abbrev pub get_for_chatbot : ℕ → ℕ → List Document → Option Document
get_for_chatbot document_id chatbot_id =
    find (λ d. (d.id == document_id) && (d.chatbot_id == chatbot_id))

abbrev pub belongs_to : ℕ → DocumentChunk → Bool
belongs_to document_id c = c.document_id == document_id

-- `DocumentChunkRepository.delete_for_document`, and the cascade of a deleted document
abbrev pub delete_for_document : ℕ → List DocumentChunk → List DocumentChunk
delete_for_document document_id = filter (λ c. not (belongs_to document_id c))

-- The tables that the components of this part share.
pub record Library : Type 0 where
  pub documents : List Document
  pub chunks : List DocumentChunk
  pub configs : List ChatbotAiConfig

pub record StoredObject : Type 0 where
  pub path : StorageKey
  pub content : List ℕ
