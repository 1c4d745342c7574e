-- ===== src/Core/Agent/Outcome.antt =====
-- crates/night24-core/src/agent.rs: what a caller of `Agent::run` gets.
use night.Core.ContextMgmt.Results.{maybe_compact-Reported, maybe_compact-le-max}
use night.Core.Session.{Session}
use mathlib.Core.Path.{ap₂}
use night.Core.ContextMgmt.{ContextManager, CompactionResult, estimate_tokens}
use night.Core.Agent.Turns.{State, Turn, added, loop-invariant, replied}
use night.Core.Model.{Message}
use night.Core.Agent.Responses.{
  requests, responses, reply_messages, responses-append, execute_messages-ids, turn_result-messages,
  requests-append,
}
use night.Text.{Text}
use night.Core.Agent.{Outside, AgentConfig, run_turns, execute_messages, system_text, run, finish}
use night.Json.{JsonApi}
use night.Prelude.{
  ok, ℕ, ◌≡◌, refl, sym, ap, ◌∙◌, false, some, List, ◌++◌, append-nil, [], Result, err, length, ◌≤◌,
  ◌<◌, max, Bool, ◌∷◌, arith, some-eq, Option-cases, inl, inr, true, ok-eq, length-append, suc,
}

module _ (json : JsonApi) {W : Type 0} (outside : Outside json.Value W) (config : AgentConfig) where
  -- The provider streams no tool responses.
  abbrev pub RespondsNever : Type 0
  RespondsNever =
      (w : W) (system : Text) (messages : List (Message json.Value))
      → responses (reply_messages ((outside.stream w system messages).1)) ≡ []

  -- What a turn adds has as many requests as responses, under the same ids.
  added-answered :
      RespondsNever
      → (dir : Text) (s s' : State json outside config dir)
        (turn : Turn json outside config dir s s')
      → responses (added json outside config dir s turn.turn_messages)
        ≡ requests (added json outside config dir s turn.turn_messages)
  added-answered never dir s s' turn =
      let executed =
        (execute_messages outside dir ((replied json outside config dir s).0)
          turn.turn_messages).1 in
      let (answers, none_asked) =
        execute_messages-ids outside dir ((replied json outside config dir s).0)
          turn.turn_messages in
      let silent : responses turn.turn_messages ≡ [] =
        ap responses (
          turn_result-messages config ((replied json outside config dir s).1)
            (turn.turn_messages, turn.has_tool_requests) turn.streams)
        ∙ never s.world (system_text config) s.messages in
      responses-append turn.turn_messages executed
      ∙ ap₂ (λ a b. a ++ b) silent answers
      ∙ sym (append-nil (requests turn.turn_messages))
      ∙ sym (ap (λ a. requests turn.turn_messages ++ a) none_asked)
      ∙ sym (requests-append turn.turn_messages executed)

  -- When the provider never streams tool responses itself, the tool responses in the messages that
  -- the loop returns have the ids of the tool requests in them, in the same order.
  run_turns-answered :
      RespondsNever
      → (dir : Text) (n : ℕ) (w w' : W) (cm cm' : ContextManager)
        (messages₀ messages final : List (Message json.Value))
      → run_turns json outside config dir n w cm false messages₀ []
        ≡ some (w', cm', ok (messages, final))
      → responses final ≡ requests final
  unfolding requests responses
  run_turns-answered never dir n w w' cm cm' messages₀ messages final h =
      loop-invariant json outside config dir (λ c m f. responses f ≡ requests f)
        (λ s s' turn p.
          ap responses turn.collects
          ∙ responses-append s.final (added json outside config dir s turn.turn_messages)
          ∙ ap₂ (λ a b. a ++ b) p (added-answered never dir s s' turn)
          ∙ sym (requests-append s.final (added json outside config dir s turn.turn_messages))
          ∙ sym (ap requests turn.collects))
        n false (record { world = w; manager = cm; messages = messages₀; final = [] }) w' cm'
        messages final refl h

  -- The settings of the manager stay, and the conversation has `bound` messages at most.
  abbrev Bounded :
      ContextManager
      → ℕ
      → ContextManager
      → List (Message json.Value)
      → List (Message json.Value)
      → Type 0
  Bounded cm bound c messages final =
      (c.max_messages ≡ cm.max_messages)
      × (c.preserve_recent ≡ cm.preserve_recent)
      × (length messages ≤ max cm.max_messages bound)

  Turn-Bounded :
      (cm : ContextManager) (bound : ℕ) (dir : Text) (s s' : State json outside config dir)
      → 0 < cm.preserve_recent
      → cm.preserve_recent < cm.max_messages
      → Turn json outside config dir s s'
      → Bounded cm bound s.manager s.messages s.final
      → Bounded cm bound s'.manager s'.messages s'.final
  Turn-Bounded cm bound dir s s' pos valid turn (m, p, l) =
      let body = s.messages ++ added json outside config dir s turn.turn_messages in
      let o : ContextManager × List (Message json.Value) × CompactionResult =
        (s'.manager, s'.messages, turn.result) in
      let kept : s'.manager
          ≡ record s.manager { token_estimate = estimate_tokens json s'.messages } =
        (maybe_compact-Reported json turn.uuid turn.now s.manager body o turn.compacts).0 in
      let short : length s'.messages ≤ s.manager.max_messages =
        maybe_compact-le-max json turn.uuid turn.now s.manager body (rw p pos) (rw (p, m) valid) o
          turn.compacts in
      (ap (λ c. c.max_messages) kept ∙ m, ap (λ c. c.preserve_recent) kept ∙ p, omega arith)

  run_turns-Bounded :
      (cm : ContextManager)
      → 0 < cm.preserve_recent
      → cm.preserve_recent < cm.max_messages
      → (dir : Text) (n : ℕ) (w w' : W) (cm' : ContextManager)
        (messages₀ messages final : List (Message json.Value))
      → run_turns json outside config dir n w cm false messages₀ []
        ≡ some (w', cm', ok (messages, final))
      → length messages ≤ max cm.max_messages (length messages₀)
  run_turns-Bounded cm pos valid dir n w w' cm' messages₀ messages final h =
      (loop-invariant json outside config dir (Bounded cm (length messages₀))
        (λ s s' turn. Turn-Bounded cm (length messages₀) dir s s' pos valid turn) n false
        (record { world = w; manager = cm; messages = messages₀; final = [] }) w' cm' messages final
        (refl, refl, omega arith) h).2

  module _ (cm : ContextManager) (now : ℕ) (w : W) (session : Session json.Value)
      (message : Message json.Value) (session' : Session json.Value) where
    -- A run that returns messages has come to the end of the loop, and only the conversation and the
    -- time of the session change; one that returns an error leaves the session as it was.
    abbrev Ran : Result (List (Message json.Value)) Text → Type 0
    Ran (err e) = session' ≡ session
    Ran (ok final) =
        (messages : List (Message json.Value)) × (w' : W) × (cm' : ContextManager) × (run_turns json
            outside config session.working_dir config.max_turns w cm false
            (session.conversation ++ (message ∷ [])) []
          ≡ some (w', cm', ok (messages, final)))
        × (session' ≡ record session { conversation = messages; updated_at = now })

    ran :
        (w' : W) (cm' : ContextManager)
        (r : Result (List (Message json.Value) × List (Message json.Value)) Text)
        (result : Result (List (Message json.Value)) Text)
        → run_turns json outside config session.working_dir config.max_turns w cm false
            (session.conversation ++ (message ∷ []))
            []
          ≡ some (w', cm', r)
        → ◌≡◌ {A = Session json.Value × Result (List (Message json.Value)) Text}
            (finish json outside now session r)
            (session', result)
        → Ran result
    ran w' cm' (err e) (err e') q h = sym (ap (λ x. x.0) h)
    ran w' cm' (err e) (ok final') q h = ground (arith, ap (λ x. x.1) h)
    ran w' cm' (ok (messages, final)) (err e') q h = ground (arith, ap (λ x. x.1) h)
    ran w' cm' (ok (messages, final)) (ok final') q h = (
      messages,
      w',
      cm',
      q ∙ ap (λ f. some (w', cm', ok (messages, f))) (ok-eq (ap (λ x. x.1) h)),
      sym (ap (λ x. x.0) h),
    )

    run-Ran :
        (expired : Bool) (result : Result (List (Message json.Value)) Text)
        → run json outside config expired now w cm session message ≡ some (session', result)
        → Ran result
    unfolding run
    run-Ran true (err e) h = sym (ap (λ x. x.0) (some-eq h))
    run-Ran true (ok final) h = ground (arith, ap (λ x. x.1) (some-eq h))
    run-Ran false result h =
        elim (Option-cases (
          run_turns json outside config session.working_dir config.max_turns w cm false
            (session.conversation ++ (message ∷ [])) [])) [
              | inl n ↦ ground (arith, n, h)
              | inr ((w', cm', r), q) ↦ ran w' cm' r result q (some-eq (rw (q, run) at h))
            ]

    -- When the provider never streams tool responses itself and a run returns messages, then the tool
    -- responses in them have the ids of the tool requests in them, in the same order.
    pub run-answered :
        RespondsNever
        → (expired : Bool) (final : List (Message json.Value))
        → run json outside config expired now w cm session message ≡ some (session', ok final)
        → responses final ≡ requests final
    run-answered never expired final h =
        let (messages, w', cm', q, e) = run-Ran expired (ok final) h in
        run_turns-answered never session.working_dir config.max_turns w w' cm cm'
          (session.conversation ++ (message ∷ [])) messages final q

    -- When the manager preserves some messages and fewer than `max_messages`, the conversation of the
    -- session after a run has `max_messages` messages at most, or at most one more than before the
    -- run; an error leaves the session as it was.
    pub run-Bounded :
        0 < cm.preserve_recent
        → cm.preserve_recent < cm.max_messages
        → (expired : Bool) (result : Result (List (Message json.Value)) Text)
        → run json outside config expired now w cm session message ≡ some (session', result)
        → (length session'.conversation ≤ max cm.max_messages (suc (length session.conversation)))
          × ((e : Text) → result ≡ err e → session' ≡ session)
    run-Bounded pos valid expired (err e) h =
        let same : session' ≡ session = run-Ran expired (err e) h in
        (rw same (omega arith), (λ e' q. same))
    run-Bounded pos valid expired (ok final) h =
        let (messages, w', cm', q, e) = run-Ran expired (ok final) h in
        let small : length messages
            ≤ max cm.max_messages (length (session.conversation ++ (message ∷ []))) =
          run_turns-Bounded cm pos valid session.working_dir config.max_turns w w' cm'
            (session.conversation ++ (message ∷ [])) messages final q in
        (
          rw e (omega (arith, length-append {0} session.conversation (message ∷ []))),
          (λ e' d. ground (arith, d)),
        )
