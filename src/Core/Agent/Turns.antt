-- ===== src/Core/Agent/Turns.antt =====
-- crates/night24-core/src/agent.rs: what holds before the first turn and is kept by a turn holds at
-- the end of the loop.
use night.Core.Model.{Message}
use night.Core.ContextMgmt.{ContextManager, CompactionResult, maybe_compact}
use night.Text.{Text}
use night.Core.Agent.{
  Outside, AgentConfig, Reply, Loop, system_text, execute_messages, run_turns, turn_result, is_nil,
  no_followup,
}
use night.Json.{JsonApi}
use night.Prelude.{
  ok, ℕ, ◌≡◌, Bool, some, List, ◌++◌, ◌>>=◌, err, if◌then◌else◌, suc, refl, true, false,
  Result-cases, Bool-cases, zero, inl, inr, sym, ◌∙◌, subst, arith, Option-cases, ap, Option,
}

module _ (json : JsonApi) {W : Type 0} (outside : Outside json.Value W) where
  module _ (config : AgentConfig) (dir : Text) where
    -- What the loop carries from turn to turn.
    pub record State : Type 0 where
      pub world : W
      pub manager : ContextManager
      pub messages : List (Message json.Value)
      pub final : List (Message json.Value)

    abbrev pub replied : State → W × Reply json.Value
    replied s = outside.stream s.world (system_text config) s.messages

    -- What a turn adds to the conversation.
    abbrev pub added : State → List (Message json.Value) → List (Message json.Value)
    added s turn_messages =
        turn_messages ++ (execute_messages outside dir (replied s).0 turn_messages).1

    -- One turn from a state to the next.
    pub record Turn (s s' : State) : Type 0 where
      pub turn_messages : List (Message json.Value)
      pub has_tool_requests : Bool
      pub uuid : Text
      pub now : ℕ
      pub result : CompactionResult
      pub streams : turn_result config ((replied s).1) ≡ ok (turn_messages, has_tool_requests)
      pub compacts :
          maybe_compact json uuid now s.manager (s.messages ++ added s turn_messages)
          ≡ some (s'.manager, s'.messages, result)
      pub collects : s'.final ≡ s.final ++ added s turn_messages

    abbrev pub loop : ℕ → Bool → State → Loop json outside
    loop turns awaiting s =
        run_turns json outside config dir turns s.world s.manager awaiting s.messages s.final

    module _ (n : ℕ) (awaiting : Bool) (s : State) where
      pub loop-err :
          (e : Text)
          → turn_result config ((replied s).1) ≡ err e
          → loop (suc n) awaiting s ≡ some ((replied s).0, s.manager, err e)
      unfolding run_turns
      loop-err e h = rw (h, run_turns) refl

      module _ (turn_messages : List (Message json.Value)) where
        abbrev pub executed_world : W
        executed_world = (execute_messages outside dir (replied s).0 turn_messages).0

        abbrev pub drawn : W × Text × ℕ
        drawn = outside.fresh executed_world

        abbrev pub compaction :
            Option (ContextManager × List (Message json.Value) × CompactionResult)
        compaction =
            maybe_compact json (drawn.1) (drawn.2) s.manager (s.messages ++ added s turn_messages)

        -- The state after a turn.
        abbrev pub next : ContextManager → List (Message json.Value) → State
        next cm' messages' = record {
          world = drawn.0;
          manager = cm';
          messages = messages';
          final = s.final ++ added s turn_messages;
        }

        -- The loop after the compaction.
        abbrev pub continue :
            Bool → ContextManager × List (Message json.Value) × CompactionResult → Loop json outside
        continue has (cm', messages', result) = elim has [
          | true ↦ loop n true (next cm' messages')
          | false ↦ some (drawn.0, cm', ok (messages', s.final ++ added s turn_messages))
        ]

        module _ (has : Bool)
            (h : turn_result config ((replied s).1) ≡ ok (turn_messages, has)) where
          pub loop-nil :
              is_nil turn_messages ≡ true
              → loop (suc n) awaiting s
                ≡ some (
                  (replied s).0,
                  s.manager,
                  (if awaiting then err no_followup else ok (s.messages, s.final)),
                )
          unfolding run_turns
          loop-nil e = rw (h, e, run_turns) refl

          pub loop-turn :
              is_nil turn_messages ≡ false → loop (suc n) awaiting s ≡ (compaction >>= continue has)
          unfolding run_turns
          loop-turn e = rw (h, e, run_turns) refl

          Turn-next :
              (cm' : ContextManager) (messages' : List (Message json.Value))
              (result : CompactionResult)
              → compaction ≡ some (cm', messages', result)
              → Turn s (next cm' messages')
          Turn-next cm' messages' result q = record {
            turn_messages = turn_messages;
            has_tool_requests = has;
            uuid = drawn.1;
            now = drawn.2;
            result = result;
            streams = h;
            compacts = q;
            collects = refl;
          }

    abbrev pub Property : Type 1
    Property = ContextManager → List (Message json.Value) → List (Message json.Value) → Type 0

    abbrev pub Holds : Property → State → Type 0
    Holds P s = P s.manager s.messages s.final

    module _ (P : Property) where
      returned :
          (w₀ w : W) (cm₀ cm : ContextManager)
          (messages₀ messages final₀ final : List (Message json.Value))
          → P cm₀ messages₀ final₀
          → ◌≡◌ {A = Loop json outside}
              (some (w₀, cm₀, ok (messages₀, final₀)))
              (some (w, cm, ok (messages, final)))
          → P cm messages final
      returned w₀ w cm₀ cm messages₀ messages final₀ final p h =
          let parts : (cm₀ ≡ cm) × (messages₀ ≡ messages) × (final₀ ≡ final) = ground arith in
          subst (λ f. P cm messages f) (parts.2)
            (subst (λ m. P cm m final₀) (parts.1) (subst (λ c. P c messages₀ final₀) (parts.0) p))

      returned_if :
          (awaiting : Bool) (w₀ w : W) (cm₀ cm : ContextManager)
          (messages₀ messages final₀ final : List (Message json.Value))
          → P cm₀ messages₀ final₀
          → ◌≡◌ {A = Loop json outside}
              (some (w₀, cm₀, (if awaiting then err no_followup else ok (messages₀, final₀))))
              (some (w, cm, ok (messages, final)))
          → P cm messages final
      returned_if true w₀ w cm₀ cm messages₀ messages final₀ final p h = ground arith
      returned_if false w₀ w cm₀ cm messages₀ messages final₀ final p h =
          returned w₀ w cm₀ cm messages₀ messages final₀ final p h

      continue_invariant :
          (n : ℕ) (awaiting : Bool) (s : State) (turn_messages : List (Message json.Value))
          (has : Bool) (w : W) (cm : ContextManager) (messages final : List (Message json.Value))
          (cm' : ContextManager) (messages' : List (Message json.Value)) (result : CompactionResult)
          → (Holds P (next n awaiting s turn_messages cm' messages')
              → loop n true (next n awaiting s turn_messages cm' messages')
                ≡ some (w, cm, ok (messages, final))
              → P cm messages final)
          → Holds P (next n awaiting s turn_messages cm' messages')
          → continue n awaiting s turn_messages has (cm', messages', result)
            ≡ some (w, cm, ok (messages, final))
          → P cm messages final
      continue_invariant n awaiting s turn_messages true w cm messages final cm' messages' result
            again p h =
          again p h
      continue_invariant n awaiting s turn_messages false w cm messages final cm' messages' result
            again p h =
          returned ((drawn n awaiting s turn_messages).0) w cm' cm messages' messages
            (s.final ++ added s turn_messages) final p h

      -- A property that every turn keeps holds of the conversation and of the messages that the loop
      -- returns.
      pub loop-invariant :
          ((s s' : State) → Turn s s' → Holds P s → Holds P s')
          → (n : ℕ) (awaiting : Bool) (s : State) (w : W) (cm : ContextManager)
            (messages final : List (Message json.Value))
          → Holds P s
          → loop n awaiting s ≡ some (w, cm, ok (messages, final))
          → P cm messages final
      unfolding run_turns
      loop-invariant keeps zero awaiting s w cm messages final p h =
          returned s.world w s.manager cm s.messages messages s.final final p h
      loop-invariant keeps (suc n) awaiting s w cm messages final p h =
          elim (Result-cases (turn_result config ((replied s).1))) [
            | inr (e, r) ↦ ground (arith, h, loop-err n awaiting s e r)
            | inl ((turn_messages, has), r) ↦ elim (Bool-cases (is_nil turn_messages)) [
              | inl e ↦
                  returned_if awaiting ((replied s).0) w s.manager cm s.messages messages s.final
                    final p (sym (loop-nil n awaiting s turn_messages has r e) ∙ h)
              | inr e ↦ elim (Option-cases (compaction n awaiting s turn_messages)) [
                | inl q ↦ ground (arith, h, q, loop-turn n awaiting s turn_messages has r e)
                | inr ((cm', messages', result), q) ↦
                    continue_invariant n awaiting s turn_messages has w cm messages final cm'
                      messages' result
                      (λ p'.
                        loop-invariant keeps n true (next n awaiting s turn_messages cm' messages')
                          w cm messages final p')
                      (keeps s (next n awaiting s turn_messages cm' messages')
                        (Turn-next n awaiting s turn_messages has r cm' messages' result q) p)
                      (sym (
                          loop-turn n awaiting s turn_messages has r e
                          ∙ ap (λ o. o >>= continue n awaiting s turn_messages has) q)
                        ∙ h)
              ]
            ]
          ]
