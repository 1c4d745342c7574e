-- ===== src/Examples/Contexts.antt =====
-- Runs of crates/night24-core/src/context_mgmt.rs.
use night.Core.ContextMgmt.Panics.{maybe_compact-total, maybe_compact-panics}
use night.Examples.{Toy, toy}
use night.Core.ContextMgmt.Bounds.{ResponsesWithin, truncate_tool_outputs-Within}
use night.Core.ContextMgmt.Results.{Reported, maybe_compact-le-max, maybe_compact-Reported}
use night.Core.ContextMgmt.Compact.{Outcome}
use night.Core.Model.{Message, user_message, tool_response_message}
use night.Text.{Text, lit}
use night.Core.ContextMgmt.{
  ContextManager, maybe_compact, truncate_content, truncate_tool_outputs, noop, marker,
}
use night.Prelude.{
  ltb→lt, length, ℕ, zero, suc, ◌+◌, ◌≤◌, ◌≡◌, refl, false, none, some, List, ◌∷◌, ◌++◌, arith, [],
}

abbrev small : ContextManager
small = record {
  max_messages = 2;
  preserve_recent = 1;
  max_tool_output_chars = 3;
  token_estimate = 0;
}

abbrev said : Text → Message Toy
said body = user_message (lit "m") 0 body

abbrev answered : Text → Message Toy
answered body = tool_response_message (lit "t") 0 (lit "id") body false

abbrev chat : List (Message Toy)
chat = said (lit "a") ∷ answered (lit "12345") ∷ said (lit "b") ∷ []

abbrev compacted_chat : Outcome toy
compacted_chat = elim (maybe_compact toy (lit "u") 7 small chat) [
  | none ↦ (small, [], noop)
  | some o ↦ o
]

chat-compacts : maybe_compact toy (lit "u") 7 small chat ≡ some compacted_chat
unfolding maybe_compact truncate_tool_outputs night.Core.ContextMgmt.truncate_messages
    night.Core.ContextMgmt.insert_summary night.Core.ContextMgmt.summarize
    night.Core.ContextMgmt.summary_lines night.Core.ContextMgmt.summary_line night.Text.Parts.join
    night.Core.ContextMgmt.truncate_blocks night.Core.ContextMgmt.block_summary
    night.Core.ContextMgmt.truncate_block night.Core.ContextMgmt.snippet night.Text.len
    night.Text.len_utf8 marker night.Text.Decimal.to_decimal
chat-compacts = refl

maybe_compact-Reported_example : Reported toy (lit "u") 7 small chat compacted_chat
maybe_compact-Reported_example =
    maybe_compact-Reported toy (lit "u") 7 small chat compacted_chat chat-compacts

maybe_compact-le-max_example : length compacted_chat.1 ≤ 2
maybe_compact-le-max_example =
    maybe_compact-le-max toy (lit "u") 7 small chat (omega arith) (omega arith) compacted_chat
      chat-compacts

abbrev roomy : ContextManager
roomy = record small { max_tool_output_chars = 100 }

maybe_compact-total_example :
    (o : Outcome toy) × (maybe_compact toy (lit "u") 7 roomy chat ≡ some o)
unfolding truncate_tool_outputs night.Core.ContextMgmt.truncate_messages night.Text.Parts.join
    night.Core.ContextMgmt.truncate_blocks night.Core.ContextMgmt.block_summary
    night.Core.ContextMgmt.truncate_block
maybe_compact-total_example = maybe_compact-total toy (lit "u") 7 roomy chat (refl, (refl, tt))

truncate_tool_outputs-Within_example :
    ResponsesWithin (small.max_tool_output_chars + 64) (truncate_tool_outputs small chat).0
truncate_tool_outputs-Within_example =
    truncate_tool_outputs-Within small chat ((tt, tt), ((omega arith, tt), ((tt, tt), tt)))

-- A message of one ASCII character and forty of three bytes.
abbrev wide : ℕ → Text
wide zero = []
wide (suc n) = 0x4e2d ∷ wide n

abbrev wide_chat : List (Message Toy)
wide_chat = said (lit "a" ++ wide 40) ∷ said (lit "b") ∷ said (lit "c") ∷ []

maybe_compact-panics_example : maybe_compact toy (lit "u") 7 small wide_chat ≡ none
unfolding truncate_tool_outputs night.Core.ContextMgmt.truncate_messages
    night.Core.ContextMgmt.truncate_blocks night.Core.ContextMgmt.truncate_block
    night.Text.Parts.join night.Core.ContextMgmt.block_summary night.Text.len night.Text.len_utf8
maybe_compact-panics_example =
    maybe_compact-panics toy (lit "u") 7 small wide_chat (omega arith) (omega arith) (omega arith) 1
      (said (lit "a" ++ wide 40)) (lit "a") (wide 40) refl refl refl refl (omega arith)
      (λ e. ground (arith, e)) (ltb→lt 120 121 refl)
