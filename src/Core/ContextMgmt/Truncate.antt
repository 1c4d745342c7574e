-- ===== src/Core/ContextMgmt/Truncate.antt =====
-- Capping of tool outputs: `truncate_tool_outputs` of context_mgmt.rs.
use night.Core.Model.{ContentBlock, Message, tool_response, text, tool_request, thinking}
use night.Prelude.{
  ℕ, ◌+◌, ◌-◌, ◌<◌, ◌≡◌, ap, false, ◌++◌, arith, ltb, ltb→lt, lt→ltb, length, take, length-append,
  length-take, take-append, take-take, ◌∙◌, Bool-cases, inl, inr, List, map, ◌∷◌, suc, refl, [],
}
use night.Text.{Text, lit}
use night.Text.Decimal.{to_decimal}
use night.Core.ContextMgmt.{
  marker, truncate_content, truncate_block, truncate_blocks, truncate_messages,
  truncate_tool_outputs, ContextManager,
}

abbrev marker_tail : Text
marker_tail = lit " characters by context manager]"

pub length-marker : (n : ℕ) → length (marker n) ≡ length (to_decimal n) + 44
unfolding marker
length-marker n = omega (arith, length-append {0} (to_decimal n) marker_tail)

length-cut :
    (limit : ℕ) (content : Text) → limit < length content → length (take limit content) ≡ limit
length-cut limit content h = omega (arith, length-take limit content)

truncate_content-over :
    (limit : ℕ) (content : Text)
    → limit < length content
    → truncate_content limit content ≡ take limit content ++ marker (length content - limit)
unfolding truncate_content
truncate_content-over limit content h = rw (lt→ltb _ _ h)

pub truncate_content-short :
    (limit : ℕ) (content : Text)
    → ltb limit (length content) ≡ false
    → truncate_content limit content ≡ content
unfolding truncate_content
truncate_content-short limit content h = rw h

pub length-truncate_content :
    (limit : ℕ) (content : Text)
    → limit < length content
    → length (truncate_content limit content) ≡ limit + length (marker (length content - limit))
length-truncate_content limit content h = rw (truncate_content-over limit content h) (
    length-append (take limit content) (marker (length content - limit))
    ∙ ap (λ k. k + length (marker (length content - limit))) (length-cut limit content h))

module _ (limit : ℕ) (content : Text) where
  -- The characters up to the limit stay.
  pub take-truncate_content : take limit (truncate_content limit content) ≡ take limit content
  take-truncate_content = elim (Bool-cases (ltb limit (length content))) [
    | inl over ↦ rw (truncate_content-over limit content (ltb→lt _ _ over)) (
        take-append limit (take limit content) (marker (length content - limit))
          (omega (arith, length-cut limit content (ltb→lt _ _ over)))
        ∙ take-take limit content)
    | inr short ↦ rw (truncate_content-short limit content short)
  ]

  -- An output over the limit is over it again after the cut, and the second pass reports the length
  -- of the first marker in place of the number of characters that were cut.
  truncate_content_again :
      limit < length content
      → truncate_content limit (truncate_content limit content)
        ≡ take limit content ++ marker (length (marker (length content - limit)))
  truncate_content_again h =
      let again : limit < length (truncate_content limit content) =
        omega (
          arith,
          length-truncate_content limit content h,
          length-marker (length content - limit),
        ) in
      let cut : length (truncate_content limit content) - limit
          ≡ length (marker (length content - limit)) =
        omega (arith, length-truncate_content limit content h) in
      truncate_content-over limit (truncate_content limit content) again
      ∙ ap (λ k. take limit (truncate_content limit content) ++ marker k) cut
      ∙ ap (λ t. t ++ marker (length (marker (length content - limit)))) take-truncate_content

module _ {V : Type 0} where
  -- A block, a message and a conversation without the texts of the tool responses.
  abbrev pub outline_block : ContentBlock V → ContentBlock V
  outline_block (tool_response id content is_error) = tool_response id [] is_error
  outline_block block = block

  abbrev pub outline : List (Message V) → List (Message V)
  outline [] = []
  outline (msg ∷ messages) =
      record msg { content = map outline_block msg.content } ∷ outline messages

  outline-truncate_block :
      (limit : ℕ) (block : ContentBlock V)
      → outline_block (truncate_block limit block).0 ≡ outline_block block
  unfolding truncate_block
  outline-truncate_block limit (tool_response id content is_error) = refl
  outline-truncate_block limit (text _) = refl
  outline-truncate_block limit (tool_request _ _ _) = refl
  outline-truncate_block limit (thinking _) = refl

  outline-truncate_blocks :
      (limit : ℕ) (blocks : List (ContentBlock V))
      → map outline_block (truncate_blocks limit blocks).0 ≡ map outline_block blocks
  unfolding truncate_blocks
  outline-truncate_blocks limit [] = refl
  outline-truncate_blocks limit (block ∷ blocks) =
      cc (outline-truncate_block limit block, outline-truncate_blocks limit blocks)

  outline-truncate_messages :
      (limit : ℕ) (messages : List (Message V))
      → outline (truncate_messages limit messages).0 ≡ outline messages
  unfolding truncate_messages
  outline-truncate_messages limit [] = refl
  outline-truncate_messages limit (msg ∷ messages) = λ i.
      record msg { content = outline-truncate_blocks limit msg.content i }
      ∷ outline-truncate_messages limit messages i

  -- Capping changes nothing but the texts of tool responses: the messages, their order, ids, roles
  -- and times, and all other blocks stay.
  outline-truncate_tool_outputs :
      (cm : ContextManager) (messages : List (Message V))
      → outline (truncate_tool_outputs cm messages).0 ≡ outline messages
  unfolding truncate_tool_outputs
  outline-truncate_tool_outputs cm messages =
      outline-truncate_messages cm.max_tool_output_chars messages

  pub length-truncate_messages :
      (limit : ℕ) (messages : List (Message V))
      → length (truncate_messages limit messages).0 ≡ length messages
  unfolding truncate_messages
  length-truncate_messages limit [] = refl
  length-truncate_messages limit (msg ∷ messages) = ap suc (length-truncate_messages limit messages)

  truncate_block-same :
      (limit : ℕ) (block : ContentBlock V)
      → (truncate_block limit block).1 ≡ 0
      → (truncate_block limit block).0 ≡ block
  unfolding truncate_block
  truncate_block-same limit (tool_response id content is_error) h =
      ground (arith, truncate_content-short limit content)
  truncate_block-same limit (text _) h = refl
  truncate_block-same limit (tool_request _ _ _) h = refl
  truncate_block-same limit (thinking _) h = refl

  truncate_blocks-same :
      (limit : ℕ) (blocks : List (ContentBlock V))
      → (truncate_blocks limit blocks).1 ≡ 0
      → (truncate_blocks limit blocks).0 ≡ blocks
  unfolding truncate_blocks
  truncate_blocks-same limit [] h = refl
  truncate_blocks-same limit (block ∷ blocks) h =
      ground (arith, truncate_block-same limit block, truncate_blocks-same limit blocks)

  truncate_messages-same :
      (limit : ℕ) (messages : List (Message V))
      → (truncate_messages limit messages).1 ≡ 0
      → (truncate_messages limit messages).0 ≡ messages
  unfolding truncate_messages
  truncate_messages-same limit [] h = refl
  truncate_messages-same limit (msg ∷ messages) h =
      let here : (truncate_blocks limit msg.content).0 ≡ msg.content =
        truncate_blocks-same limit msg.content (omega arith) in
      let there : (truncate_messages limit messages).0 ≡ messages =
        truncate_messages-same limit messages (omega arith) in
      λ i. record msg { content = here i } ∷ there i

  -- When nothing was counted, nothing was changed.
  pub truncate_tool_outputs-zero :
      (cm : ContextManager) (messages : List (Message V))
      → (truncate_tool_outputs cm messages).1 ≡ 0
      → (truncate_tool_outputs cm messages).0 ≡ messages
  unfolding truncate_tool_outputs
  truncate_tool_outputs-zero cm messages h =
      truncate_messages-same cm.max_tool_output_chars messages h
