-- ===== src/Core/ContextMgmt.antt =====
-- crates/night24-core/src/context_mgmt.rs. A panic is `none`; what a method writes through `&mut`
-- comes back beside its result. `usize` has 64 bits.
pub mod Truncate
pub mod Bounds
pub mod Compact
pub mod Results
pub mod Panics
use Prim.Native.Nat.{min, max}
use night.Prelude.{
  ℕ, ◌+◌, ◌-◌, ◌/◌, ◌^◌, Option, none, some, List, [], ◌∷◌, ◌++◌, reverse, map, ltb, leb, ◌==◌,
  if◌then◌else◌, length, take, drop, ◌>>=◌, ◌&&◌, ◌||◌, ◌%◌,
}
use night.Text.{Text, lit, len, slice_to, is_empty}
use night.Text.Parts.{join}
use night.Text.Decimal.{to_decimal}
use night.Json.{JsonApi}
use night.Core.Model.{
  role_name, system, ContentBlock, text, tool_request, tool_response, thinking, Message,
}

abbrev pub usize_max : ℕ
usize_max = 2 ^ 64 - 1

-- `usize::saturating_add`
abbrev pub saturating_add : ℕ → ℕ → ℕ
saturating_add a b = min (a + b) usize_max

pub record ContextManager : Type 0 where
  pub max_messages : ℕ
  pub preserve_recent : ℕ
  pub max_tool_output_chars : ℕ
  pub token_estimate : ℕ

-- `Default::default`
abbrev pub default : ContextManager
default = record {
  max_messages = 64;
  preserve_recent = 12;
  max_tool_output_chars = 4000;
  token_estimate = 0;
}

-- The sum of `usize` wraps, as in a build without overflow checks.
unfoldable pub new : ℕ → ℕ → ContextManager
new max_messages preserve_recent = record {
  max_messages = max max_messages ((preserve_recent + 1) % 2 ^ 64);
  preserve_recent = preserve_recent;
  max_tool_output_chars = 4000;
  token_estimate = 0;
}

pub data CompactionResult : Type 0 where
  noop : CompactionResult
  compacted : ℕ → ℕ → CompactionResult

-- The text that stands for the characters cut off.
unfoldable pub marker : ℕ → Text
marker removed =
    lit "\n…[truncated " ++ (to_decimal removed ++ lit " characters by context manager]")

unfoldable pub truncate_content : ℕ → Text → Text
truncate_content limit content =
    if ltb limit (length content)
    then take limit content ++ marker (length content - limit)
    else content

module _ {V : Type 0} where
  -- A block after the loop body, and what the body adds to `truncated`.
  unfoldable pub truncate_block : ℕ → ContentBlock V → ContentBlock V × ℕ
  unfolding truncate_content
  truncate_block limit (tool_response id content is_error) = (
    tool_response id (truncate_content limit content) is_error,
    if ltb limit (length content) then 1 else 0,
  )
  truncate_block limit block = (block, 0)

  unfoldable pub truncate_blocks : ℕ → List (ContentBlock V) → List (ContentBlock V) × ℕ
  truncate_blocks limit [] = ([], 0)
  truncate_blocks limit (block ∷ blocks) =
      let (b, n) = truncate_block limit block in
      let (bs, m) = truncate_blocks limit blocks in (b ∷ bs, n + m)

  unfoldable pub truncate_messages : ℕ → List (Message V) → List (Message V) × ℕ
  truncate_messages limit [] = ([], 0)
  truncate_messages limit (msg ∷ messages) =
      let (blocks, n) = truncate_blocks limit msg.content in
      let (rest, m) = truncate_messages limit messages in
      (record msg { content = blocks } ∷ rest, n + m)

  -- `truncate_tool_outputs`: the messages and the count.
  unfoldable pub truncate_tool_outputs : ContextManager → List (Message V) → List (Message V) × ℕ
  truncate_tool_outputs cm messages = truncate_messages cm.max_tool_output_chars messages

  -- What `drain` takes from the front, and what it leaves.
  abbrev pub drained : ℕ → List (Message V) → List (Message V)
  drained keep messages = take (length messages - keep) messages

  abbrev pub kept : ℕ → List (Message V) → List (Message V)
  kept keep messages = drop (length messages - keep) messages

-- `&text[..120]` panics inside a character.
unfoldable pub snippet : Text → Option Text
snippet body =
    if ltb 120 (len body)
    then (do head ← slice_to body 120; some (head ++ lit "..."))
    else some body

module _ (json : JsonApi) where
  open json use {Value, to_string, display}

  -- `(text.len() + 4) / 4`, saturating.
  abbrev pub text_tokens : Text → ℕ
  text_tokens body = saturating_add (len body) 4 / 4

  unfoldable pub block_tokens : ℕ → ContentBlock Value → ℕ
  block_tokens total (text body) = saturating_add total (text_tokens body)
  block_tokens total (tool_request id name arguments) =
      saturating_add (saturating_add total (text_tokens name))
        (elim (to_string arguments) [ none ↦ 0 | some s ↦ text_tokens s ])
  block_tokens total (tool_response id content is_error) =
      let t = saturating_add total (text_tokens content) in
      if is_error then saturating_add t 10 else t
  block_tokens total (thinking body) = saturating_add total (text_tokens body)

  unfoldable pub blocks_tokens : ℕ → List (ContentBlock Value) → ℕ
  blocks_tokens total [] = total
  blocks_tokens total (block ∷ blocks) = blocks_tokens (block_tokens total block) blocks

  unfoldable pub messages_tokens : ℕ → List (Message Value) → ℕ
  messages_tokens total [] = total
  messages_tokens total (msg ∷ messages) =
      messages_tokens (blocks_tokens total msg.content) messages

  unfoldable pub estimate_tokens : List (Message Value) → ℕ
  unfolding messages_tokens blocks_tokens block_tokens
  estimate_tokens messages = messages_tokens 0 messages

  -- The closure of `filter_map` in `summarize`.
  unfoldable pub block_summary : ContentBlock Value → Text
  block_summary (text body) = body
  block_summary (tool_response id content is_error) =
      (if is_error then lit "tool-error" else lit "tool") ++ (lit "(" ++ (content ++ lit ")"))
  block_summary (tool_request id name arguments) =
      name ++ (lit "(" ++ (display arguments ++ lit ")"))
  block_summary (thinking body) = lit "thinking: " ++ body

  abbrev pub message_text : Message Value → Text
  message_text msg = join (lit "; ") (map block_summary msg.content)

  -- The body of the loop of `summarize`: what it appends.
  unfoldable pub summary_line : Message Value → Option Text
  summary_line msg = if is_empty (message_text msg) then some [] else (do
    s ← snippet (message_text msg)
    some (lit "\n- " ++ (role_name msg.role ++ (lit ": " ++ s))))

  unfoldable pub summary_lines : List (Message Value) → Option Text
  summary_lines [] = some []
  summary_lines (msg ∷ rest) = do
    line ← summary_line msg
    lines ← summary_lines rest
    some (line ++ lines)

  unfoldable pub summarize : List (Message Value) → Option Text
  summarize removed = do
    lines ← summary_lines (take 8 (reverse removed))
    some (lit "[compacted context]" ++ lines)

  -- The summary goes in front; `uuid` and `now` are `Uuid::new_v4` and `Utc::now` of the call.
  unfoldable pub insert_summary :
      Text → ℕ → List (Message Value) → List (Message Value) → Option (List (Message Value))
  insert_summary uuid now [] rest = some rest
  insert_summary uuid now (msg ∷ removed) rest = do
    summary ← summarize (msg ∷ removed)
    some (
        if is_empty summary
        then rest
        else record { id = uuid; role = system; content = text summary ∷ []; created_at = now }
          ∷ rest)

  -- The stored estimate and the result, for the messages before and after.
  abbrev pub compaction_done :
      ContextManager
      → List (Message Value)
      → List (Message Value)
      → ContextManager × List (Message Value) × CompactionResult
  compaction_done cm before after = (
    record cm { token_estimate = estimate_tokens after },
    after,
    compacted (length before - length after) (length after),
  )

  unfoldable pub maybe_compact :
      Text
      → ℕ
      → ContextManager
      → List (Message Value)
      → Option (ContextManager × List (Message Value) × CompactionResult)
  maybe_compact uuid now cm messages₀ =
      let messages = (truncate_tool_outputs cm messages₀).0 in
      let keep = min cm.preserve_recent (length messages) in
      if leb (length messages) cm.max_messages
      then some (record cm { token_estimate = estimate_tokens messages }, messages, noop)
      else if ltb 0 keep && ltb keep (length messages)
      then (do
        after ← insert_summary uuid now (drained keep messages) (kept keep messages)
        some (compaction_done cm messages after))
      else some (compaction_done cm messages messages)

  unfoldable pub maybe_compact_by_token_threshold :
      Text
      → ℕ
      → ContextManager
      → List (Message Value)
      → ℕ
      → Option (ContextManager × List (Message Value) × CompactionResult)
  maybe_compact_by_token_threshold uuid now cm messages₀ max_tokens =
      let messages = (truncate_tool_outputs cm messages₀).0 in
      let estimate = estimate_tokens messages in
      let keep = min cm.preserve_recent (length messages) in
      let cm' = record cm { token_estimate = estimate } in
      if max_tokens == 0 || ltb estimate max_tokens
      then some (cm', messages, noop)
      else if keep == 0 || leb (length messages) keep
      then some (cm', messages, noop)
      else (do
        after ← insert_summary uuid now (drained keep messages) (kept keep messages)
        some (compaction_done cm messages after))
