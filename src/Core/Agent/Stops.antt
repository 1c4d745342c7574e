-- ===== src/Core/Agent/Stops.antt =====
-- crates/night24-core/src/agent.rs: a message that starts with text ends the loop, whatever tool
-- requests follow in it.
use night.Core.Model.{Message, ContentBlock, text}
use night.Core.Agent.Turns.{State, replied, loop, compaction, loop-turn}
use night.Text.{Text}
use night.Core.Agent.{Outside, AgentConfig, turn_result, read_stream, streamed}
use night.Json.{JsonApi}
use night.Prelude.{ok, Option-cases, ℕ, suc, ◌≡◌, refl, inl, inr, Bool, false, some, List, ◌∷◌, []}

module _ (json : JsonApi) {W : Type 0} (outside : Outside json.Value W) (config : AgentConfig)
    (dir : Text) (awaiting : Bool) (s : State json outside config dir) where
  abbrev OneMessage : Message json.Value → Type 0
  OneMessage msg = (replied json outside config dir s).1 ≡ streamed (ok (some msg) ∷ [])

  text_first :
      (msg : Message json.Value) (body : Text) (rest : List (ContentBlock json.Value))
      → OneMessage msg
      → msg.content ≡ text body ∷ rest
      → turn_result config ((replied json outside config dir s).1) ≡ ok (msg ∷ [], false)
  unfolding turn_result read_stream
  text_first msg body rest h c = rw (h, c) refl

  ends :
      (n : ℕ) (msg : Message json.Value)
      → turn_result config ((replied json outside config dir s).1) ≡ ok (msg ∷ [], false)
      → loop json outside config dir (suc n) awaiting s ≡ loop json outside config dir 1 awaiting s
  ends n msg r = elim (Option-cases (compaction json outside config dir n awaiting s (msg ∷ []))) [
    | inl q ↦
        rw
          (
            loop-turn json outside config dir n awaiting s (msg ∷ []) false r refl,
            loop-turn json outside config dir 0 awaiting s (msg ∷ []) false r refl,
            q,
          )
          refl
    | inr (o, q) ↦
        rw
          (
            loop-turn json outside config dir n awaiting s (msg ∷ []) false r refl,
            loop-turn json outside config dir 0 awaiting s (msg ∷ []) false r refl,
            q,
          )
          refl
  ]

  -- When the provider streams one message, whose first block is text, then the loop with any number
  -- of turns left does the same as the loop with one, whatever tool requests follow the text.
  pub text_first-ends :
      (n : ℕ) (msg : Message json.Value) (body : Text) (rest : List (ContentBlock json.Value))
      → OneMessage msg
      → msg.content ≡ text body ∷ rest
      → loop json outside config dir (suc n) awaiting s ≡ loop json outside config dir 1 awaiting s
  text_first-ends n msg body rest h c = ends n msg (text_first msg body rest h c)
