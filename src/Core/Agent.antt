-- ===== src/Core/Agent.antt =====
-- crates/night24-core/src/agent.rs: the agent loop. `W` is the outside world, that the provider, the
-- tools, the ids and the clock read and change. A panic is `none`.
use night.Core.Session.{Session}
pub mod Responses
pub mod Turns
pub mod Stops
pub mod Outcome
use night.Core.ContextMgmt.{ContextManager, maybe_compact}
use night.Json.{JsonApi}
use night.Core.Model.{ContentBlock, Message, tool_request, tool_response, tool}
use night.Text.{Text, lit, is_empty}
use night.Prelude.{
  Result, ok, err, not, if◌then◌else◌, any, ℕ, zero, suc, Bool, true, false, ◌&&◌, ◌||◌, Option,
  none, some, List, ◌∷◌, ◌++◌, ◌>>=◌, [],
}

-- The durations are kept in the form that the error messages print.
pub record AgentConfig : Type 0 where
  pub system_prompt : Text
  pub max_turns : ℕ
  pub turn_timeout : Text
  pub total_timeout : Text

-- What the call of the provider comes to: `stream` fails, the turn's time is over, or the stream ends
-- after these items.
pub data Reply (V : Type 0) : Type 0 where
  refused : Text → Reply V
  timed_out : Reply V
  streamed : List (Result (Option (Message V)) Text) → Reply V

-- The code that the loop calls: `Provider::stream` with the built-in tools, `execute_tool` with the
-- inspector, and the next id and time.
pub record Outside (V W : Type 0) : Type 0 where
  pub stream : W → Text → List (Message V) → W × Reply V
  pub execute_tool : W → Text → V → Text → W × Result Text Text
  pub fresh : W → W × Text × ℕ

abbrev pub is_nil : {A : Type 0} → List A → Bool
is_nil [] = true
is_nil (x ∷ xs) = false

abbrev pub no_followup : Text
no_followup = lit "模型在工具结果返回后没有继续生成回复。可能是模型服务未接受工具结果，或返回了空响应。"

abbrev pub system_text : AgentConfig → Text
system_text config =
    if is_empty config.system_prompt
    then lit "You are a helpful AI assistant."
    else config.system_prompt

module _ {V : Type 0} where
  -- `matches!(msg.content.first(), Some(ToolRequest { .. }))`
  abbrev pub first_is_request : List (ContentBlock V) → Bool
  first_is_request (tool_request id name arguments ∷ blocks) = true
  first_is_request blocks = false

  -- The `while let` loop over the stream.
  unfoldable pub read_stream :
      List (Result (Option (Message V)) Text)
      → List (Message V)
      → Bool
      → Result (List (Message V) × Bool) Text
  read_stream [] turn_messages has_tool_requests = ok (turn_messages, has_tool_requests)
  read_stream (ok (some msg) ∷ items) turn_messages has_tool_requests =
      read_stream items (turn_messages ++ (msg ∷ []))
        (has_tool_requests || first_is_request msg.content)
  read_stream (ok none ∷ items) turn_messages has_tool_requests =
      read_stream items turn_messages has_tool_requests
  read_stream (err e ∷ items) turn_messages has_tool_requests = err e

  unfoldable pub turn_result : AgentConfig → Reply V → Result (List (Message V) × Bool) Text
  turn_result config (refused e) = err e
  turn_result config timed_out = err (lit "agent turn timed out after " ++ config.turn_timeout)
  turn_result config (streamed items) = read_stream items [] false

  abbrev pub response_block : Text → Result Text Text → ContentBlock V
  response_block id (ok result) = tool_response id result false
  response_block id (err e) = tool_response id (lit "error: " ++ e) true

  abbrev pub is_request : ContentBlock V → Bool
  is_request (tool_request id name arguments) = true
  is_request block = false

  module _ {W : Type 0} (outside : Outside V W) where
    -- The inner loop over the blocks of a message: what it pushes to `blocks`.
    unfoldable pub execute_blocks : Text → W → List (ContentBlock V) → W × List (ContentBlock V)
    execute_blocks dir w [] = (w, [])
    execute_blocks dir w (tool_request id name arguments ∷ blocks) =
        let (w1, result) = outside.execute_tool w name arguments dir in
        let (w2, rest) = execute_blocks dir w1 blocks in (w2, response_block id result ∷ rest)
    execute_blocks dir w (block ∷ blocks) = execute_blocks dir w blocks

    -- The loop over the messages of the turn: what it pushes to `executed_messages`.
    unfoldable pub execute_messages : Text → W → List (Message V) → W × List (Message V)
    execute_messages dir w [] = (w, [])
    execute_messages dir w (msg ∷ messages) =
        let (w1, blocks) = execute_blocks dir w msg.content in
        let (w2, rest) = execute_messages dir w1 messages in
        if any is_request msg.content && not (is_nil blocks)
        then (w2, record msg { role = tool; content = blocks } ∷ rest)
        else (w2, rest)

module _ (json : JsonApi) {W : Type 0} (outside : Outside json.Value W) where
  -- The outcome of the loop: the world, the manager, and `messages` and `final_messages`.
  abbrev pub Loop : Type 0
  Loop =
      Option
        (W × ContextManager × Result (List (Message json.Value) × List (Message json.Value)) Text)

  -- `for turn in 0..max_turns`, on the turns that are left.
  unfoldable pub run_turns :
      AgentConfig
      → Text
      → ℕ
      → W
      → ContextManager
      → Bool
      → List (Message json.Value)
      → List (Message json.Value)
      → Loop
  run_turns config dir zero w cm awaiting messages final = some (w, cm, ok (messages, final))
  run_turns config dir (suc turns) w cm awaiting messages final =
      let (w1, reply) = outside.stream w (system_text config) messages in
      elim (turn_result config reply) [
        | err e ↦ some (w1, cm, err e)
        | ok (turn_messages, has_tool_requests) ↦ elim (is_nil turn_messages) [
          | true ↦ some (w1, cm, if awaiting then err no_followup else ok (messages, final))
          | false ↦
              let (w2, executed) = execute_messages outside dir w1 turn_messages in
              let (w3, uuid, now) = outside.fresh w2 in
              (do
                (cm', compacted', result) ←
                    maybe_compact json uuid now cm (messages ++ (turn_messages ++ executed))
                elim has_tool_requests [
                  | true ↦
                      run_turns config dir turns w3 cm' true compacted'
                        (final ++ (turn_messages ++ executed))
                  | false ↦ some (w3, cm', ok (compacted', final ++ (turn_messages ++ executed)))
                ])
        ]
      ]

  -- The session and the result after the loop.
  abbrev pub finish :
      ℕ
      → Session json.Value
      → Result (List (Message json.Value) × List (Message json.Value)) Text
      → Session json.Value × Result (List (Message json.Value)) Text
  finish now session (err e) = (session, err e)
  finish now session (ok (messages, final)) =
      (record session { conversation = messages; updated_at = now }, ok final)

  -- `Agent::run`; `expired` says that `total_timeout` passed before the loop was done. The session is
  -- written after the loop only.
  unfoldable pub run :
      AgentConfig
      → Bool
      → ℕ
      → W
      → ContextManager
      → Session json.Value
      → Message json.Value
      → Option (Session json.Value × Result (List (Message json.Value)) Text)
  run config true now w cm session message =
      some (session, err (lit "agent run timed out after " ++ config.total_timeout))
  run config false now w cm session message = do
    (w', cm', result) ←
        run_turns config session.working_dir config.max_turns w cm false
          (session.conversation ++ (message ∷ [])) []
    some (finish now session result)
