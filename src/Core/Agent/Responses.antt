-- ===== src/Core/Agent/Responses.antt =====
-- crates/night24-core/src/agent.rs: every tool request of a run is answered, in order, by one
-- response under its id.
use mathlib.Core.Path.{ap₂}
use night.Text.{Text}
use night.Core.Agent.{
  Reply, read_stream, turn_result, Outside, refused, is_request, AgentConfig, streamed,
  first_is_request, execute_blocks, timed_out, is_nil, response_block, execute_messages,
}
use night.Core.Model.{ContentBlock, Message, tool_request, tool_response, text, thinking}
use night.Prelude.{
  Result, ok, err, any, ◌≡◌, refl, sym, ◌∙◌, Bool, false, ◌||◌, Option, none, some, List, ◌∷◌, ◌++◌,
  arith, [], not, Bool-cases, ap, inl, inr, true, ◌&&◌, append_assoc, append-nil,
}

module _ {V : Type 0} where
  unfoldable pub request_ids : List (ContentBlock V) → List Text
  request_ids [] = []
  request_ids (tool_request id name arguments ∷ blocks) = id ∷ request_ids blocks
  request_ids (text body ∷ blocks) = request_ids blocks
  request_ids (tool_response id content is_error ∷ blocks) = request_ids blocks
  request_ids (thinking body ∷ blocks) = request_ids blocks

  unfoldable pub response_ids : List (ContentBlock V) → List Text
  response_ids [] = []
  response_ids (tool_response id content is_error ∷ blocks) = id ∷ response_ids blocks
  response_ids (text body ∷ blocks) = response_ids blocks
  response_ids (tool_request id name arguments ∷ blocks) = response_ids blocks
  response_ids (thinking body ∷ blocks) = response_ids blocks

  -- The ids of the requests, and of the responses, in a list of messages.
  unfoldable pub requests : List (Message V) → List Text
  requests [] = []
  requests (msg ∷ messages) = request_ids msg.content ++ requests messages

  unfoldable pub responses : List (Message V) → List Text
  responses [] = []
  responses (msg ∷ messages) = response_ids msg.content ++ responses messages

  -- The messages that a reply streams, up to its end.
  unfoldable pub item_messages : List (Result (Option (Message V)) Text) → List (Message V)
  item_messages [] = []
  item_messages (ok (some msg) ∷ items) = msg ∷ item_messages items
  item_messages (ok none ∷ items) = item_messages items
  item_messages (err e ∷ items) = item_messages items

  unfoldable pub reply_messages : Reply V → List (Message V)
  reply_messages (refused e) = []
  reply_messages timed_out = []
  reply_messages (streamed items) = item_messages items

  pub requests-append :
      (ms ns : List (Message V)) → requests (ms ++ ns) ≡ requests ms ++ requests ns
  unfolding requests
  requests-append [] ns = refl
  requests-append (m ∷ ms) ns =
      rw (requests-append ms ns)
        (sym (append_assoc (request_ids m.content) (requests ms) (requests ns)))

  pub responses-append :
      (ms ns : List (Message V)) → responses (ms ++ ns) ≡ responses ms ++ responses ns
  unfolding responses
  responses-append [] ns = refl
  responses-append (m ∷ ms) ns =
      rw (responses-append ms ns)
        (sym (append_assoc (response_ids m.content) (responses ms) (responses ns)))

  no_request-ids :
      (blocks : List (ContentBlock V)) → any is_request blocks ≡ false → request_ids blocks ≡ []
  unfolding request_ids
  no_request-ids [] h = refl
  no_request-ids (text body ∷ blocks) h = no_request-ids blocks h
  no_request-ids (tool_request id name arguments ∷ blocks) h = ground arith
  no_request-ids (tool_response id content is_error ∷ blocks) h = no_request-ids blocks h
  no_request-ids (thinking body ∷ blocks) h = no_request-ids blocks h

  nil-ids : (blocks : List (ContentBlock V)) → is_nil blocks ≡ true → response_ids blocks ≡ []
  unfolding response_ids
  nil-ids [] h = refl
  nil-ids (block ∷ blocks) h = ground arith

  read_stream-messages :
      (items : List (Result (Option (Message V)) Text)) (acc : List (Message V)) (b : Bool)
      (r : List (Message V) × Bool)
      → read_stream items acc b ≡ ok r
      → r.0 ≡ acc ++ item_messages items
  unfolding read_stream item_messages
  read_stream-messages [] acc b r h = ground (arith, append-nil acc)
  read_stream-messages (ok (some msg) ∷ items) acc b r h =
      read_stream-messages items (acc ++ (msg ∷ [])) (b || first_is_request msg.content) r h
      ∙ append_assoc acc (msg ∷ []) (item_messages items)
  read_stream-messages (ok none ∷ items) acc b r h = read_stream-messages items acc b r h
  read_stream-messages (err e ∷ items) acc b r h = ground arith

  pub turn_result-messages :
      (config : AgentConfig) (reply : Reply V) (r : List (Message V) × Bool)
      → turn_result config reply ≡ ok r
      → r.0 ≡ reply_messages reply
  unfolding turn_result reply_messages
  turn_result-messages config (refused e) r h = ground arith
  turn_result-messages config timed_out r h = ground arith
  turn_result-messages config (streamed items) r h = read_stream-messages items [] false r h

  response_block-response :
      (id : Text) (result : Result Text Text) (blocks : List (ContentBlock V))
      → response_ids (response_block id result ∷ blocks) ≡ id ∷ response_ids blocks
  unfolding response_ids
  response_block-response id (ok r) blocks = refl
  response_block-response id (err e) blocks = refl

  response_block-request :
      (id : Text) (result : Result Text Text) (blocks : List (ContentBlock V))
      → request_ids (response_block id result ∷ blocks) ≡ request_ids blocks
  unfolding request_ids
  response_block-request id (ok r) blocks = refl
  response_block-request id (err e) blocks = refl

  module _ {W : Type 0} (outside : Outside V W) (dir : Text) where
    execute_blocks-ids :
        (w : W) (blocks : List (ContentBlock V))
        → response_ids ((execute_blocks outside dir w blocks).1) ≡ request_ids blocks
    unfolding execute_blocks request_ids response_ids
    execute_blocks-ids w [] = refl
    execute_blocks-ids w (text body ∷ blocks) = execute_blocks-ids w blocks
    execute_blocks-ids w (tool_request id name arguments ∷ blocks) =
        let w' = (outside.execute_tool w name arguments dir).0 in
        let result = (outside.execute_tool w name arguments dir).1 in
        response_block-response id result ((execute_blocks outside dir w' blocks).1)
        ∙ ap (λ ids. id ∷ ids) (execute_blocks-ids w' blocks)
    execute_blocks-ids w (tool_response id content is_error ∷ blocks) = execute_blocks-ids w blocks
    execute_blocks-ids w (thinking body ∷ blocks) = execute_blocks-ids w blocks

    execute_blocks-requests :
        (w : W) (blocks : List (ContentBlock V))
        → request_ids ((execute_blocks outside dir w blocks).1) ≡ []
    unfolding execute_blocks request_ids
    execute_blocks-requests w [] = refl
    execute_blocks-requests w (text body ∷ blocks) = execute_blocks-requests w blocks
    execute_blocks-requests w (tool_request id name arguments ∷ blocks) =
        let w' = (outside.execute_tool w name arguments dir).0 in
        let result = (outside.execute_tool w name arguments dir).1 in
        response_block-request id result ((execute_blocks outside dir w' blocks).1)
        ∙ execute_blocks-requests w' blocks
    execute_blocks-requests w (tool_response id content is_error ∷ blocks) =
        execute_blocks-requests w blocks
    execute_blocks-requests w (thinking body ∷ blocks) = execute_blocks-requests w blocks

    -- A message that adds no tool message has no request.
    skipped-ids :
        (w : W) (content : List (ContentBlock V))
        → (any is_request content && not (is_nil ((execute_blocks outside dir w content).1)))
          ≡ false
        → request_ids content ≡ []
    skipped-ids w content h = elim (Bool-cases (any is_request content)) [
      | inr n ↦ no_request-ids content n
      | inl e ↦
          sym (execute_blocks-ids w content)
          ∙ nil-ids ((execute_blocks outside dir w content).1) (ground (arith, e, h))
    ]

    -- The tool messages of a turn answer its requests, in order and under their ids, and make none.
    pub execute_messages-ids :
        (w : W) (messages : List (Message V))
        → (responses ((execute_messages outside dir w messages).1) ≡ requests messages)
          × (requests ((execute_messages outside dir w messages).1) ≡ [])
    unfolding execute_messages requests responses
    execute_messages-ids w [] = (refl, refl)
    execute_messages-ids w (msg ∷ messages) =
        let w1 = (execute_blocks outside dir w msg.content).0 in
        let blocks = (execute_blocks outside dir w msg.content).1 in
        let (answered, quiet) = execute_messages-ids w1 messages in
        elim (Bool-cases (any is_request msg.content && not (is_nil blocks))) [
          | inl e ↦ rw e (
            ap₂ (λ a b. a ++ b) (execute_blocks-ids w msg.content) answered,
            ap₂ (λ a b. a ++ b) (execute_blocks-requests w msg.content) quiet,
          )
          | inr e ↦ rw e (
            answered ∙ sym (ap (λ a. a ++ requests messages) (skipped-ids w msg.content e)),
            quiet,
          )
        ]
