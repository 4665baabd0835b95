-- ===== src/Ai/Tests.antt =====
-- Provider configurations, the reasoning filter and the frames of the scanner at concrete inputs.
use nuvrag_platform.Base.{
  All, ℕ, ◌==◌, if◌then◌else◌, map, arith, zero, suc, ap, ◌≡◌, refl, true, false, Option, none,
  some, List, [], ◌∷◌, ◌++◌, length, drop, take,
}
use nuvrag_platform.Base.Text.{Text, text, starts_with, text_eq, strip, lstrip, is_space}
use nuvrag_platform.Base.Rows.{get}
use nuvrag_platform.Domain.Errors.{ok}
use nuvrag_platform.Ai.{ChatProviderName, EmbeddingProviderName, config_row}
use nuvrag_platform.Ai.Reasoning.{
  find_tag, partial_size, partial_tag_suffix, feed_loop, feed, initial, filtered,
}
use nuvrag_platform.Ai.Filtered.{reading, joined, filtered_refines}
use nuvrag_platform.Ai.Embedding.{Answers, Concluded, embed_batch, embed_batch-Concluded}
use nuvrag_platform.Ai.Registry.{
  Credentials, embedding_requirements, missing_credential_fields, no_fields,
}
use nuvrag_platform.Ai.Config.{AiConfigUpdate, ProviderCall, Providers, as_dict, apply}
use nuvrag_platform.Ai.Saving.{
  Chatbot, Workspace, AiConfigRead, test_config, save_config, concluded, discover, measure,
}
use nuvrag_platform.Ai.Widths.{IsAligned}
use nuvrag_platform.Ai.Wide.{IsWide}
use nuvrag_platform.Ai.Operations.{Operation, perform_all, perform_all-IsAligned}
use nuvrag_platform.Ai.Kept.{save_config_then_test, embedding_test}
use nuvrag_platform.Documents.Pipeline.{
  process_document, set_status, settle_dimension, record_embedding_dimension, rows_of, persist,
}
use nuvrag_platform.Documents.Chunker.{chunk_sections}
use nuvrag_platform.Documents.Scanned.{take-append, drop-append}
use nuvrag_platform.Documents.Tests.{services, shelf, no_connection}

-- A tag that arrives in pieces.
abbrev deltas : List Text
deltas = text "a<th" ∷ text "ink>b</" ∷ text "think>c<" ∷ []

deltas-filtered : filtered initial deltas ≡ some (text "ac<")
unfolding filtered feed feed_loop find_tag partial_tag_suffix partial_size starts_with text_eq
deltas-filtered = refl

filtered_refines_example : filtered initial deltas ≡ some (reading false 0 (joined deltas))
filtered_refines_example = filtered_refines deltas

abbrev key : Credentials
key = record { api_key = some (text "k"); access_key_id = none; secret_access_key = none }

key_complete :
    no_fields
      (missing_credential_fields (embedding_requirements EmbeddingProviderName.azure) (as_dict key))
    ≡ true
unfolding missing_credential_fields
key_complete = refl

-- A cipher that only marks which values are present.
abbrev written : Option Text → Text
written none = 0 ∷ []
written (some s) = suc (length s) ∷ s

abbrev read_value : Text → Option Text × Text
read_value [] = (none, [])
read_value (zero ∷ rest) = (none, rest)
read_value (suc n ∷ rest) = (some (take n rest), drop n rest)

read_value-written : (o : Option Text) (rest : Text) → read_value (written o ++ rest) ≡ (o, rest)
read_value-written none rest = refl
read_value-written (some s) rest = rw (take-append s rest) (rw (drop-append s rest) refl)

abbrev encoded : Credentials → Text
encoded c = written c.api_key ++ (written c.access_key_id ++ (written c.secret_access_key ++ []))

abbrev decoded : Text → Credentials
decoded s =
    let (a, s1) = read_value s in
    let (b, s2) = read_value s1 in
    let (c, s3) = read_value s2 in record { api_key = a; access_key_id = b; secret_access_key = c }

decoded-encoded : (c : Credentials) → decoded (encoded c) ≡ c
decoded-encoded c =
    let first =
      read_value-written c.api_key
        (written c.access_key_id ++ (written c.secret_access_key ++ [])) in
    let second = read_value-written c.access_key_id (written c.secret_access_key ++ []) in
    let third = read_value-written c.secret_access_key [] in rw first (rw second (rw third refl))

abbrev providers : Providers
providers = record {
  encrypt = encoded;
  decrypt = λ token. ok (decoded token);
  stream = λ provider model connection credentials. ProviderCall.returns (text "ok");
  embed = λ provider model connection credentials. ProviderCall.returns ((1 ∷ 2 ∷ 3 ∷ []) ∷ []);
}

abbrev azure : AiConfigUpdate
azure = record {
  chat = record {
    provider = ChatProviderName.ollama;
    model = text "m";
    connection = no_connection;
    credentials = none;
  };
  embedding = record {
    provider = EmbeddingProviderName.azure;
    model = text "e";
    connection = no_connection;
    credentials = some key;
  };
}

abbrev bot : Chatbot
bot = record { id = 7; org_id = 1; floor = record { override = none; calibrated = some 4 } }

abbrev desk : Workspace
desk = record { chatbots = bot ∷ []; library = shelf }

azure_saved : (r : AiConfigRead) × ((save_config providers 71 1 7 azure desk).0 ≡ ok r)
unfolding save_config apply concluded discover measure record_embedding_dimension text_eq
azure_saved = (_, refl)

save_config_then_test_example :
    let configs = (save_config providers 71 1 7 azure desk).1.library.configs in
    test_config providers 7 (embedding_test azure.embedding none) configs
    ≡ test_config providers 7 (embedding_test azure.embedding (some key)) configs
save_config_then_test_example =
    save_config_then_test providers 7 71 1 azure desk azure_saved.0 key
      (λ d. ap (λ c. ok c) (decoded-encoded d)) refl refl key_complete azure_saved.1

-- A save that moves the model, an ingestion, a save that is refused, a deletion.
abbrev operations : List Operation
operations =
    Operation.save providers 71 1 7 azure
    ∷ Operation.process services 40
    ∷ Operation.save providers 72 1 7
        (record azure { embedding = record azure.embedding { model = text "other" } })
    ∷ Operation.delete true 7 40
    ∷ []

third_fresh :
    get 72
      (process_document services 40 (save_config providers 71 1 7 azure desk).1.library).1.configs
    ≡ none
unfolding process_document set_status chunk_sections settle_dimension record_embedding_dimension
    rows_of persist strip lstrip is_space save_config apply concluded discover measure text_eq
third_fresh = refl

perform_all-IsAligned_example :
    IsAligned (perform_all operations desk).library
    × All IsWide (perform_all operations desk).library.chunks
perform_all-IsAligned_example =
    perform_all-IsAligned operations desk (refl, (tt, (third_fresh, (tt, tt)))) ((refl, tt), tt) tt

-- A model that fails its first request.
abbrev waking : ℕ → List Text → Option (List ℕ)
waking n batch = if n == 0 then none else some (map length batch)

waking-Answers : Answers length waking 2
waking-Answers n batch vectors h = ground (arith, h)

second_try : embed_batch waking 2 1 (text "a" ∷ text "bcd" ∷ []) ≡ ok (1 ∷ 3 ∷ [])
unfolding embed_batch
second_try = refl

embed_batch-Concluded_example :
    Concluded length waking 2 1
      (text "a" ∷ text "bcd" ∷ [])
      (1 ∷ 3 ∷ [])
      (embed_batch waking 2 1 (text "a" ∷ text "bcd" ∷ []))
embed_batch-Concluded_example =
    embed_batch-Concluded length waking 2 0 (text "a" ∷ text "bcd" ∷ []) waking-Answers
