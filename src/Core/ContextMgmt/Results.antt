-- ===== src/Core/ContextMgmt/Results.antt =====
-- What a caller of `maybe_compact` and `maybe_compact_by_token_threshold` of context_mgmt.rs gets.
use night.Core.ContextMgmt.Truncate.{length-truncate_messages}
use night.Core.ContextMgmt.Compact.{
  Outcome, Outcomes, length-kept, summary_message, Settled, maybe_compact-Outcomes,
  maybe_compact-Settled, maybe_compact_by_token_threshold-Outcomes,
  maybe_compact_by_token_threshold-Settled, maybe_compact-Compaction,
}
use night.Core.Model.{Message}
use night.Core.ContextMgmt.{
  ContextManager, truncate_tool_outputs, estimate_tokens, maybe_compact, kept, noop, compacted,
  maybe_compact_by_token_threshold, new,
}
use night.Text.{Text}
use night.Json.{JsonApi}
use night.Prelude.{
  length, drop, ℕ, suc, ◌-◌, ◌≤◌, ◌≡◌, refl, ap, ◌⊎◌, inl, inr, some, List, ◌∷◌, arith, leb,
  Bool-cases, ◌<◌, ◌+◌, ◌^◌,
}

module _ (json : JsonApi) (uuid : Text) (now : ℕ) (cm : ContextManager) where
  open json use {Value}

  module _ (messages : List (Message Value)) where
    -- The capped messages.
    abbrev pub input : List (Message Value)
    input = (truncate_tool_outputs cm messages).0

    length-input : length input ≡ length messages
    unfolding truncate_tool_outputs
    length-input = length-truncate_messages cm.max_tool_output_chars messages

    -- The estimate stored is that of the messages returned, the settings stay, the last
    -- `preserve_recent` messages are those of the capped input, and the result is `noop` with the
    -- capped input or counts the messages.
    abbrev pub Reported : Outcome json → Type 0
    Reported o =
        (o.0 ≡ record cm { token_estimate = estimate_tokens json o.1 })
        × (kept cm.preserve_recent o.1 ≡ kept cm.preserve_recent input)
        × (length o.1 ≤ length messages)
        × (((o.2 ≡ noop) × (o.1 ≡ input))
            ⊎ (o.2 ≡ compacted (length messages - length o.1) (length o.1)))

    kept-Outcomes :
        (o : Outcome json)
        → Outcomes json uuid now cm input o
        → (kept cm.preserve_recent o.1 ≡ kept cm.preserve_recent input)
          × (length o.1 ≤ length messages)
    kept-Outcomes o (inl same) = rw same (refl, omega (arith, length-input))
    kept-Outcomes o (inr (pos, lt, (body, s, e))) =
        let len : length (kept cm.preserve_recent input) ≡ cm.preserve_recent =
          length-kept json cm.preserve_recent input lt in
        let whole : drop (suc (length (kept cm.preserve_recent input)) - cm.preserve_recent)
              (summary_message json uuid now body ∷ kept cm.preserve_recent input)
            ≡ kept cm.preserve_recent input =
          ap (λ k. drop k (summary_message json uuid now body ∷ kept cm.preserve_recent input))
            (let one : suc (length (kept cm.preserve_recent input)) - cm.preserve_recent ≡ 1 =
                omega arith in
              one) in
        rw e (whole, omega (arith, length-input))

    reported :
        (o : Outcome json)
        → Outcomes json uuid now cm input o
        → Settled json uuid now cm messages o
        → Reported o
    reported o outcomes settled =
        let (recent, shorter) = kept-Outcomes o outcomes in
        (settled.0, recent, shorter, rw length-input at (settled.1))

    -- Whenever `maybe_compact` returns, it stores the estimate of the messages that it returns and
    -- leaves the settings, the last `preserve_recent` messages are those of the capped input, no
    -- message is gained, and the result is `noop` with the capped input, or it tells by how many
    -- messages the conversation got shorter and how many are left.
    pub maybe_compact-Reported :
        (o : Outcome json) → maybe_compact json uuid now cm messages ≡ some o → Reported o
    maybe_compact-Reported o h =
        reported o (maybe_compact-Outcomes json uuid now cm messages o h)
          (maybe_compact-Settled json uuid now cm messages o h)

    -- The same of `maybe_compact_by_token_threshold`, for every threshold.
    pub maybe_compact_by_token_threshold-Reported :
        (max_tokens : ℕ) (o : Outcome json)
        → maybe_compact_by_token_threshold json uuid now cm messages max_tokens ≡ some o
        → Reported o
    maybe_compact_by_token_threshold-Reported max_tokens o h =
        reported o
          (maybe_compact_by_token_threshold-Outcomes json uuid now cm messages max_tokens o h)
          (maybe_compact_by_token_threshold-Settled json uuid now cm messages max_tokens o h)

    -- With recent messages to preserve and fewer of them than `max_messages`, a conversation that
    -- `maybe_compact` returns has `max_messages` messages at most.
    pub maybe_compact-le-max :
        0 < cm.preserve_recent
        → cm.preserve_recent < cm.max_messages
        → (o : Outcome json) → maybe_compact json uuid now cm messages ≡ some o
        → length o.1 ≤ cm.max_messages
    unfolding maybe_compact
    maybe_compact-le-max pos valid o h = elim (Bool-cases (leb (length input) cm.max_messages)) [
      | inl small ↦ ground arith
      | inr big ↦
          let over : cm.max_messages < length input = ground arith in
          let (body, s, e) =
            maybe_compact-Compaction json uuid now cm messages over pos (omega arith) o h in
          rw e (omega (arith, length-kept json cm.preserve_recent input (omega arith)))
    ]

-- The constructor makes room for the recent messages and the summary, where the addition does not wrap.
pub new-valid :
    (m p : ℕ)
    → p + 1 < 2 ^ 64
    → ((new m p).preserve_recent < (new m p).max_messages) × (m ≤ (new m p).max_messages)
unfolding new
new-valid m p small = omega arith
