-- ===== src/Ai/Widths.antt =====
-- All vectors of a chatbot have the width that its configuration records, through saves and tests of
-- the configuration and through ingestion.
use nuvrag_platform.Base.{
  ℕ, ◌≡◌, ◌≢◌, ◌⊎◌, refl, sym, ap, ◌∙◌, Option, none, some, List, [], ◌∷◌, ◌==◌, arith, ◌<◌, count,
  All, Bool-cases, Option-cases, inl, inr,
}
use mathlib.Core.Path.{subst}
use nuvrag_platform.Base.Rows.{
  get, save, HasUniqueKeys, get_of_find, save-absent, save-HasUniqueKeys,
}
use nuvrag_platform.Ai.{ChatbotAiConfig, config_row, get_config}
use nuvrag_platform.Documents.{DocumentChunk, Library, document_row}
use nuvrag_platform.Documents.Pipeline.{record_embedding_dimension}
use nuvrag_platform.Documents.Idempotent.{get_config-save, get_config-chatbot_id}

-- The width that is recorded for a chatbot.
abbrev pub width_of : ℕ → List ChatbotAiConfig → Option ℕ
width_of chatbot_id configs = elim (get_config chatbot_id configs) [
  | none ↦ none
  | some c ↦ c.embedding_dimension
]

abbrev pub AllAligned : List ChatbotAiConfig → List DocumentChunk → Type 0
AllAligned configs = All (λ c. width_of c.chatbot_id configs ≡ some c.embedding_dim)

-- Primary keys are distinct, and every vector is as wide as its chatbot's configuration records.
abbrev pub IsAligned : Library → Type 0
IsAligned lib = HasUniqueKeys lib.configs × AllAligned lib.configs lib.chunks

-- Saving one chatbot's configuration does not change another's.
get_config-save_other :
    (other : ℕ) (c c' : ChatbotAiConfig) (configs : List ChatbotAiConfig)
    → HasUniqueKeys configs
    → get c'.id configs ≡ some c
    → c'.chatbot_id ≡ c.chatbot_id
    → c.chatbot_id ≢ other
    → get_config other (save c' configs) ≡ get_config other configs
get_config-save_other other c c' [] u h e n = refl
get_config-save_other other c c' (x ∷ configs) u h e n =
    ground (arith, get_config-save_other other c c' configs u.1, save-absent c' configs)

pub AllAligned-congr :
    (chatbot_id : ℕ) (configs configs' : List ChatbotAiConfig) (chunks : List DocumentChunk)
    → ((other : ℕ) → chatbot_id ≢ other → width_of other configs' ≡ width_of other configs)
    → ((w : ℕ)
        → width_of chatbot_id configs ≡ some w
        → 0 < count (λ c. c.chatbot_id == chatbot_id) chunks
        → width_of chatbot_id configs' ≡ some w)
    → AllAligned configs chunks
    → AllAligned configs' chunks
AllAligned-congr chatbot_id configs configs' [] others same h = tt
AllAligned-congr chatbot_id configs configs' (c ∷ chunks) others same h = (
  elim (Bool-cases (c.chatbot_id == chatbot_id)) [
    | inl hit ↦
        let e : c.chatbot_id ≡ chatbot_id = ground (arith, hit) in
        subst (λ i. width_of i configs' ≡ some c.embedding_dim) (sym e)
          (same c.embedding_dim (subst (λ i. width_of i configs ≡ some c.embedding_dim) e h.0)
            (ground (arith, hit)))
    | inr miss ↦ others c.chatbot_id (ground (arith, miss)) ∙ h.0
  ],
  AllAligned-congr chatbot_id configs configs' chunks others
      (λ w e pos. same w e (ground (arith, pos))) h.1,
)

-- A saved row of a chatbot, with whatever width, leaves the others' widths.
pub save-AllAligned :
    (chatbot_id : ℕ) (c c' : ChatbotAiConfig) (configs : List ChatbotAiConfig)
    (chunks : List DocumentChunk)
    → HasUniqueKeys configs
    → get_config chatbot_id configs ≡ some c
    → c'.id ≡ c.id
    → c'.chatbot_id ≡ c.chatbot_id
    → ((w : ℕ)
        → c.embedding_dimension ≡ some w
        → 0 < count (λ x. x.chatbot_id == chatbot_id) chunks
        → c'.embedding_dimension ≡ some w)
    → AllAligned configs chunks
    → AllAligned (save c' configs) chunks
save-AllAligned chatbot_id c c' configs chunks unique found i j keeps aligned =
    let owner = get_config-chatbot_id chatbot_id c configs found in
    let stored : get c'.id configs ≡ some c =
      ground (arith, i, get_of_find (λ r. r.chatbot_id == chatbot_id) configs c unique found) in
    let saved = get_config-save chatbot_id c c' configs i j found in
    AllAligned-congr chatbot_id configs (save c' configs) chunks
      (λ other n.
        ap (λ o. elim o as (λ _. Option ℕ) [ none ↦ none | some x ↦ x.embedding_dimension ])
          (get_config-save_other other c c' configs unique stored j (ground (arith, owner, n))))
      (λ w e pos. ground (arith, keeps w, e, pos, saved, found)) aligned

pub record_embedding_dimension-IsAligned :
    (chatbot_id width : ℕ) (lib : Library)
    → (width_of chatbot_id lib.configs ≡ none) ⊎ (width_of chatbot_id lib.configs ≡ some width)
    → IsAligned lib
    → IsAligned (record lib { configs = record_embedding_dimension chatbot_id width lib.configs })
unfolding record_embedding_dimension
record_embedding_dimension-IsAligned chatbot_id width lib free (unique, aligned) =
    elim (Option-cases (get_config chatbot_id lib.configs)) [
      | inl missing ↦ rw (missing, record_embedding_dimension) (unique, aligned)
      | inr (c, found) ↦
          let c' = record c { embedding_dimension = some width } in
          rw (found, record_embedding_dimension)
            (
              save-HasUniqueKeys c' lib.configs unique,
              save-AllAligned chatbot_id c c' lib.configs lib.chunks unique found refl refl
                  (λ w e pos. ground (arith, free, e, found)) aligned,
            )
    ]
