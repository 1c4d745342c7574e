-- ===== src/Examples/Agents.antt =====
-- A run of crates/night24-core/src/agent.rs: the provider asks for one tool, then answers.
use night.Core.Agent.Stops.{text_first-ends}
use night.Core.Agent.Outcome.{run-Bounded, run-answered, RespondsNever}
use night.Examples.{Toy, toy, null}
use night.Core.Agent.Turns.{State, loop}
use night.Text.{Text, lit}
use night.Core.Agent.Responses.{responses, response_ids, requests, reply_messages, item_messages}
use night.Core.Model.{Message, assistant, text, user_message, tool_request}
use night.Prelude.{
  Result, ok, err, length, ℕ, zero, suc, ◌≤◌, max, ◌≡◌, refl, false, none, some, List, ◌∷◌, arith,
  [],
}
use night.Core.Agent.{run, Reply, Outside, AgentConfig, streamed}
use night.Core.Session.{new, Session, user_session}
use night.Core.ContextMgmt.{default, ContextManager}

abbrev asks : Message Toy
asks = record {
  id = lit "1";
  role = assistant;
  content = tool_request (lit "call-1") (lit "developer__echo") null ∷ [];
  created_at = 0;
}

abbrev says : Message Toy
says = record asks { content = text (lit "done") ∷ tool_request (lit "call-2") (lit "x") null ∷ [] }

abbrev script : ℕ → ℕ × Reply Toy
script zero = (1, streamed (ok (some asks) ∷ []))
script (suc n) = (suc (suc n), streamed (ok (some says) ∷ []))

abbrev scripted : Outside Toy ℕ
scripted = record {
  stream = λ w system messages. script w;
  execute_tool = λ w name arguments dir. (w, ok name);
  fresh = λ w. (w, lit "u", 0);
}

abbrev config : AgentConfig
config = record {
  system_prompt = [];
  max_turns = 5;
  turn_timeout = lit "60s";
  total_timeout = lit "180s";
}

abbrev start : Session Toy
start = new (lit "s") 0 (lit "s") (lit "/tmp") user_session

abbrev hello : Message Toy
hello = user_message (lit "0") 0 (lit "hello")

abbrev manager : ContextManager
manager = default

abbrev finished : Session Toy × Result (List (Message Toy)) Text
finished = elim (run toy scripted config false 9 0 manager start hello) [
  | none ↦ (start, err [])
  | some r ↦ r
]

abbrev said : List (Message Toy)
said = elim (finished.1) [ err e ↦ [] | ok final ↦ final ]

script-RespondsNever : RespondsNever toy scripted config
unfolding responses response_ids reply_messages item_messages
script-RespondsNever zero system messages = refl
script-RespondsNever (suc n) system messages = refl

run-answered_example : responses said ≡ requests said
unfolding run night.Core.Agent.run_turns night.Core.Agent.turn_result night.Core.Agent.read_stream
    night.Core.ContextMgmt.maybe_compact night.Core.ContextMgmt.truncate_tool_outputs
    night.Core.ContextMgmt.truncate_messages new night.Core.Agent.execute_messages
    night.Core.Agent.execute_blocks
run-answered_example =
    run-answered toy scripted config manager 9 0 start hello finished.0 script-RespondsNever false
      said refl

run-Bounded_example :
    (length (finished.0).conversation ≤ max 64 (suc (length start.conversation)))
    × ((e : Text) → finished.1 ≡ err e → finished.0 ≡ start)
unfolding run night.Core.Agent.run_turns night.Core.Agent.turn_result night.Core.Agent.read_stream
    night.Core.ContextMgmt.maybe_compact night.Core.ContextMgmt.truncate_tool_outputs
    night.Core.ContextMgmt.truncate_messages new night.Core.Agent.execute_messages
    night.Core.Agent.execute_blocks
run-Bounded_example =
    run-Bounded toy scripted config manager 9 0 start hello finished.0 (omega arith) (omega arith)
      false finished.1 refl

abbrev later : State toy scripted config (lit "/tmp")
later = record { world = 1; manager = manager; messages = hello ∷ []; final = [] }

text_first-ends_example :
    loop toy scripted config (lit "/tmp") 5 false later
    ≡ loop toy scripted config (lit "/tmp") 1 false later
text_first-ends_example =
    text_first-ends toy scripted config (lit "/tmp") false later 4 says (lit "done")
      (tool_request (lit "call-2") (lit "x") null ∷ []) refl refl
