-- ===== src/Memory/Transcript.antt =====
-- `_render_transcript` of `app/services/nuvrag_mem/extraction.py`: the turns that a model is shown.
use nuvrag_platform.Base.{
  ℕ, ◌-◌, Bool, true, false, List, [], ◌∷◌, ◌++◌, reverse, ◌==◌, ltb, take, length, if◌then◌else◌,
}
use nuvrag_platform.Base.Text.{Text, text, is_space, is_empty}
use nuvrag_platform.Domain.Enums.{MessageRole}
use nuvrag_platform.Desk.{Message}

abbrev pub transcript_max_characters : ℕ
transcript_max_characters = 6000

abbrev pub message_max_characters : ℕ
message_max_characters = 1200

-- `" ".join(s.split())`; the flag is set between words.
unfoldable pub collapse_from : Bool → Text → Text
unfolding is_space
collapse_from between [] = []
collapse_from between (c ∷ s) =
    let skipped = collapse_from true s in
    let kept = collapse_from false s in
    if is_space c then skipped else if between then 32 ∷ c ∷ kept else c ∷ kept

abbrev pub without_lead : Text → Text
without_lead [] = []
without_lead (c ∷ s) = if c == 32 then s else c ∷ s

unfoldable pub collapse : Text → Text
unfolding collapse_from
collapse s = without_lead (collapse_from true s)

-- `_ROLE_LABELS`
abbrev pub role_label : MessageRole → Text
role_label MessageRole.user = text "visitor"
role_label MessageRole.assistant = text "assistant"
role_label MessageRole.staff = text "staff"

abbrev pub line_of : Message → Text → Text
line_of m body = role_label m.role ++ text ": " ++ body

-- The loop of `_render_transcript` over the turns from the newest, and its blocks.
unfoldable pub blocks_within : ℕ → List Message → List Text
unfolding collapse
blocks_within budget [] = []
blocks_within budget (m ∷ older) =
    let body = take message_max_characters (collapse m.content) in
    let line = line_of m body in
    let without = blocks_within budget older in
    let with = line ∷ blocks_within (budget - length line) older in
    if is_empty body then without else if ltb budget (length line) then [] else with

-- `"\n".join(lines)`
unfoldable pub join_lines : List Text → Text
join_lines [] = []
join_lines (l ∷ []) = l
join_lines (l ∷ k ∷ ls) = l ++ 10 ∷ join_lines (k ∷ ls)

-- `_render_transcript`
unfoldable pub render_transcript : List Message → Text
unfolding blocks_within join_lines
render_transcript history =
    join_lines (reverse (blocks_within transcript_max_characters (reverse history)))
