-- ===== src/Core/ContextMgmt/Bounds.antt =====
-- The size of what `truncate_tool_outputs` of context_mgmt.rs leaves.
use night.Text.Decimal.{length-to_decimal}
use night.Core.ContextMgmt.Truncate.{length-truncate_content, length-marker, truncate_content-short}
use night.Core.ContextMgmt.{
  truncate_block, truncate_blocks, truncate_messages, truncate_tool_outputs, usize_max,
  ContextManager, truncate_content,
}
use night.Core.Model.{ContentBlock, Message, tool_response, text, tool_request, thinking}
use night.Text.{Text}
use night.Prelude.{
  ltb, ltb→lt, Bool-cases, length, ℕ, ◌+◌, ◌-◌, ◌≤◌, inl, inr, List, ◌∷◌, arith, [],
}

length-truncate_content-le :
    (limit : ℕ) (content : Text)
    → length content ≤ usize_max
    → length (truncate_content limit content) ≤ limit + 64
length-truncate_content-le limit content h = elim (Bool-cases (ltb limit (length content))) [
  | inl over ↦ omega (
    arith,
    length-truncate_content limit content (ltb→lt _ _ over),
    length-marker (length content - limit),
    length-to_decimal (length content - limit) (omega arith),
  )
  | inr short ↦ rw (truncate_content-short limit content short) (ground arith)
]

module _ {V : Type 0} where
  -- Every text of a tool response has `n` characters at most.
  abbrev pub BlockWithin : ℕ → ContentBlock V → Type 0
  BlockWithin n (tool_response id content is_error) = length content ≤ n
  BlockWithin n block = Unit

  abbrev pub BlocksWithin : ℕ → List (ContentBlock V) → Type 0
  BlocksWithin n [] = Unit
  BlocksWithin n (block ∷ blocks) = BlockWithin n block × BlocksWithin n blocks

  abbrev pub ResponsesWithin : ℕ → List (Message V) → Type 0
  ResponsesWithin n [] = Unit
  ResponsesWithin n (msg ∷ messages) = BlocksWithin n msg.content × ResponsesWithin n messages

  truncate_block-Within :
      (limit : ℕ) (block : ContentBlock V)
      → BlockWithin usize_max block
      → BlockWithin (limit + 64) (truncate_block limit block).0
  unfolding truncate_block
  truncate_block-Within limit (tool_response id content is_error) h =
      length-truncate_content-le limit content h
  truncate_block-Within limit (text _) h = tt
  truncate_block-Within limit (tool_request _ _ _) h = tt
  truncate_block-Within limit (thinking _) h = tt

  truncate_blocks-Within :
      (limit : ℕ) (blocks : List (ContentBlock V))
      → BlocksWithin usize_max blocks
      → BlocksWithin (limit + 64) (truncate_blocks limit blocks).0
  unfolding truncate_blocks
  truncate_blocks-Within limit [] h = tt
  truncate_blocks-Within limit (block ∷ blocks) h =
      (truncate_block-Within limit block h.0, truncate_blocks-Within limit blocks h.1)

  truncate_messages-Within :
      (limit : ℕ) (messages : List (Message V))
      → ResponsesWithin usize_max messages
      → ResponsesWithin (limit + 64) (truncate_messages limit messages).0
  unfolding truncate_messages
  truncate_messages-Within limit [] h = tt
  truncate_messages-Within limit (msg ∷ messages) h =
      (truncate_blocks-Within limit msg.content h.0, truncate_messages-Within limit messages h.1)

  -- After the capping no tool response is longer than the limit and 64 characters for the marker,
  -- if the lengths before fit a `usize`.
  pub truncate_tool_outputs-Within :
      (cm : ContextManager) (messages : List (Message V))
      → ResponsesWithin usize_max messages
      → ResponsesWithin (cm.max_tool_output_chars + 64) (truncate_tool_outputs cm messages).0
  unfolding truncate_tool_outputs
  truncate_tool_outputs-Within cm messages h =
      truncate_messages-Within cm.max_tool_output_chars messages h
