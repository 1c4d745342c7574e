-- ===== src/Core/ContextMgmt/Compact.antt =====
-- Compaction: `maybe_compact` and `maybe_compact_by_token_threshold` of context_mgmt.rs.
use night.Text.{Text, is_empty}
use night.Core.Model.{Message, system, text}
use night.Core.ContextMgmt.{
  ContextManager, insert_summary, CompactionResult, summarize, kept, summary_lines, drained,
  truncate_tool_outputs, maybe_compact, compaction_done, maybe_compact_by_token_threshold,
  estimate_tokens, noop, compacted,
}
use night.Json.{JsonApi}
use night.Prelude.{
  Option-cases, length, take, ℕ, ◌<◌, ◌≡◌, inl, inr, some, List, ◌∷◌, reverse, arith, [],
  length-take, length-drop, ◌-◌, ◌⊎◌, false, refl, Option, ltb, leb, ◌==◌, Bool-cases, min, subst,
  ◌&&◌, ◌||◌, ◌>>=◌, ap,
}

module _ (json : JsonApi) where
  open json use {Value}

  abbrev pub Outcome : Type 0
  Outcome = ContextManager × List (Message Value) × CompactionResult

  -- The message that `insert` puts in front.
  abbrev pub summary_message : Text → ℕ → Text → Message Value
  summary_message uuid now body = record {
    id = uuid;
    role = system;
    content = text body ∷ [];
    created_at = now;
  }

  -- What a compaction makes of the capped messages: it drops all but the last `keep` and puts their
  -- summary in front.
  abbrev pub Compaction : Text → ℕ → ℕ → List (Message Value) → List (Message Value) → Type 0
  Compaction uuid now keep messages after =
      (body : Text) × (summarize json (drained keep messages) ≡ some body)
      × (after ≡ summary_message uuid now body ∷ kept keep messages)

  summary_nonempty :
      (removed : List (Message Value)) (body : Text)
      → summarize json removed ≡ some body
      → is_empty body ≡ false
  unfolding summarize
  summary_nonempty removed body h =
      elim (Option-cases (summary_lines json (take 8 (reverse removed)))) [
        | inl e ↦ ground arith
        | inr p ↦ ground arith
      ]

  insert_summary-some :
      (uuid : Text) (now : ℕ) (removed rest after : List (Message Value))
      → 0 < length removed
      → insert_summary json uuid now removed rest ≡ some after
      → (body : Text) × (summarize json removed ≡ some body)
        × (after ≡ summary_message uuid now body ∷ rest)
  unfolding insert_summary
  insert_summary-some uuid now [] rest after pos h = absurd (omega arith)
  insert_summary-some uuid now (msg ∷ removed) rest after pos h =
      elim (Option-cases (summarize json (msg ∷ removed))) [
        | inl e ↦ absurd (ground arith)
        | inr p ↦ (p.0, p.1, ground (arith, summary_nonempty (msg ∷ removed) p.0))
      ]

  pub length-drained :
      (keep : ℕ) (messages : List (Message Value))
      → keep < length messages
      → 0 < length (drained keep messages)
  length-drained keep messages h = omega (arith, length-take (length messages - keep) messages)

  pub length-kept :
      (keep : ℕ) (messages : List (Message Value))
      → keep < length messages
      → length (kept keep messages) ≡ keep
  length-kept keep messages h = omega (arith, length-drop (length messages - keep) messages)

  module _ (uuid : Text) (now : ℕ) (cm : ContextManager) where
    -- The end of both functions, once messages are to be drained.
    abbrev pub drain : ℕ → List (Message Value) → Option Outcome
    drain keep messages = do
      after ← insert_summary json uuid now (drained keep messages) (kept keep messages)
      some (compaction_done json cm messages after)

    pub drain-some :
        (keep : ℕ) (messages : List (Message Value)) (o : Outcome)
        → keep < length messages
        → drain keep messages ≡ some o
        → Compaction uuid now keep messages o.1 × (o ≡ compaction_done json cm messages o.1)
    drain-some keep messages o lt h =
        elim (Option-cases
          (insert_summary json uuid now (drained keep messages) (kept keep messages))) [
            | inl e ↦ absurd (ground arith)
            | inr p ↦
                let c : Compaction uuid now keep messages p.0 =
                  insert_summary-some uuid now (drained keep messages) (kept keep messages) p.0
                    (length-drained keep messages lt) p.1 in
                let e : o ≡ compaction_done json cm messages p.0 = ground arith in rw e (c, refl)
          ]

    -- What both functions may do to the capped messages: nothing, or one compaction that keeps the
    -- last `preserve_recent`.
    abbrev pub Outcomes : List (Message Value) → Outcome → Type 0
    Outcomes messages o =
        (o.1 ≡ messages)
        ⊎ ((0 < cm.preserve_recent)
            × (cm.preserve_recent < length messages)
            × Compaction uuid now cm.preserve_recent messages o.1)

    module _ (messages₀ : List (Message Value)) where
      abbrev pub capped : List (Message Value)
      capped = (truncate_tool_outputs cm messages₀).0

      -- The stored estimate and the numbers reported.
      abbrev pub Settled : Outcome → Type 0
      Settled o =
          (o.0 ≡ record cm { token_estimate = estimate_tokens json o.1 })
          × (((o.2 ≡ noop) × (o.1 ≡ capped))
              ⊎ (o.2 ≡ compacted (length capped - length o.1) (length o.1)))

      drain-Settled :
          (keep : ℕ) (o : Outcome) → keep < length capped → drain keep capped ≡ some o → Settled o
      drain-Settled keep o lt h =
          let e : o ≡ compaction_done json cm capped o.1 = (drain-some keep capped o lt h).1 in
          (ap (λ x. x.0) e, inr (ap (λ x. x.2) e))

      keep_all : ℕ
      keep_all = min cm.preserve_recent (length capped)

      drain-Compaction :
          (o : Outcome)
          → 0 < keep_all
          → keep_all < length capped
          → drain keep_all capped ≡ some o
          → (0 < cm.preserve_recent)
            × (cm.preserve_recent < length capped)
            × Compaction uuid now cm.preserve_recent capped o.1
      unfolding keep_all
      drain-Compaction o pos lt h =
          let same : keep_all ≡ cm.preserve_recent = omega arith in
          (
            omega (arith, same),
            omega (arith, same),
            subst (λ k. Compaction uuid now k capped o.1) same
                (drain-some keep_all capped o lt h).0,
          )

      drain-Outcomes :
          (o : Outcome)
          → 0 < keep_all
          → keep_all < length capped
          → drain keep_all capped ≡ some o
          → Outcomes capped o
      drain-Outcomes o pos lt h = inr (drain-Compaction o pos lt h)

      module _ (over : cm.max_messages < length capped) (pos : 0 < cm.preserve_recent)
          (lt : cm.preserve_recent < length capped) where
        -- Above `max_messages` the messages are drained.
        pub maybe_compact-drains :
            maybe_compact json uuid now cm messages₀ ≡ drain cm.preserve_recent capped
        unfolding maybe_compact
        maybe_compact-drains =
            let same : min cm.preserve_recent (length capped) ≡ cm.preserve_recent = omega arith in
            rw same (ground arith)

        pub maybe_compact-Compaction :
            (o : Outcome)
            → maybe_compact json uuid now cm messages₀ ≡ some o
            → Compaction uuid now cm.preserve_recent capped o.1
        maybe_compact-Compaction o h =
            (drain-some cm.preserve_recent capped o lt (rw maybe_compact-drains at h)).0

      pub maybe_compact-Outcomes :
          (o : Outcome) → maybe_compact json uuid now cm messages₀ ≡ some o → Outcomes capped o
      unfolding maybe_compact keep_all
      maybe_compact-Outcomes o h = elim (Bool-cases (leb (length capped) cm.max_messages)) [
        | inl small ↦ inl (ground arith)
        | inr big ↦ elim (Bool-cases (ltb 0 keep_all && ltb keep_all (length capped))) [
          | inl ok ↦ drain-Outcomes o (ground arith) (ground arith) (rw (big, ok) at h)
          | inr not_ok ↦ inl (ground arith)
        ]
      ]

      pub maybe_compact_by_token_threshold-Outcomes :
          (max_tokens : ℕ) (o : Outcome)
          → maybe_compact_by_token_threshold json uuid now cm messages₀ max_tokens ≡ some o
          → Outcomes capped o
      unfolding maybe_compact_by_token_threshold keep_all
      maybe_compact_by_token_threshold-Outcomes max_tokens o h =
          elim (Bool-cases (max_tokens == 0 || ltb (estimate_tokens json capped) max_tokens)) [
            | inl small ↦ inl (ground arith)
            | inr big ↦ elim (Bool-cases (keep_all == 0 || leb (length capped) keep_all)) [
              | inl ok ↦ inl (ground arith)
              | inr not_ok ↦ drain-Outcomes o (ground arith) (ground arith) (rw (big, not_ok) at h)
            ]
          ]

      pub maybe_compact-Settled :
          (o : Outcome) → maybe_compact json uuid now cm messages₀ ≡ some o → Settled o
      unfolding maybe_compact keep_all
      maybe_compact-Settled o h = elim (Bool-cases (leb (length capped) cm.max_messages)) [
        | inl small ↦ ground arith
        | inr big ↦ elim (Bool-cases (ltb 0 keep_all && ltb keep_all (length capped))) [
          | inl ok ↦ drain-Settled keep_all o (ground arith) (rw (big, ok) at h)
          | inr not_ok ↦ ground arith
        ]
      ]

      pub maybe_compact_by_token_threshold-Settled :
          (max_tokens : ℕ) (o : Outcome)
          → maybe_compact_by_token_threshold json uuid now cm messages₀ max_tokens ≡ some o
          → Settled o
      unfolding maybe_compact_by_token_threshold keep_all
      maybe_compact_by_token_threshold-Settled max_tokens o h =
          elim (Bool-cases (max_tokens == 0 || ltb (estimate_tokens json capped) max_tokens)) [
            | inl small ↦ ground arith
            | inr big ↦ elim (Bool-cases (keep_all == 0 || leb (length capped) keep_all)) [
              | inl ok ↦ ground arith
              | inr not_ok ↦ drain-Settled keep_all o (ground arith) (rw (big, not_ok) at h)
            ]
          ]
