-- ===== src/Core/ContextMgmt/Panics.antt =====
-- The slice `&text[..120]` in `summarize` of context_mgmt.rs: where it panics, and where not.
use night.Core.ContextMgmt.Compact.{capped, Outcome, maybe_compact-drains, length-drained}
use night.Core.Model.{Message}
use night.Json.{JsonApi}
use night.Core.ContextMgmt.{
  snippet, summary_line, summary_lines, summarize, insert_summary, ContextManager, message_text,
  drained, maybe_compact, kept,
}
use night.Text.{slice_to, len_utf8, Text, len, is_empty}
use night.Prelude.{
  ltb, leb, lt→ltb, Bool-cases, length, take, all, ℕ, zero, suc, ◌-◌, ◌%◌, ◌≤◌, ◌<◌, ◌≡◌, ◌≢◌, inl,
  inr, Bool, true, ◌&&◌, none, ◌∷◌, ◌++◌, arith, [], Option-cases, get_elem?, false, some, List,
  reverse, min, refl,
}

abbrev pub is_ascii : ℕ → Bool
is_ascii c = ltb c 128

-- The characters that UTF-8 writes in three bytes, such as the Chinese ones.
abbrev pub is_three_bytes : ℕ → Bool
is_three_bytes c = leb 0x800 c && ltb c 0x10000

slice_to-three_bytes :
    (s : Text) (n : ℕ) → all is_three_bytes s ≡ true → n % 3 ≢ 0 → slice_to s n ≡ none
unfolding slice_to len_utf8
slice_to-three_bytes [] n h k = ground arith
slice_to-three_bytes (c ∷ s) n h k = ground (arith, slice_to-three_bytes s (n - 3))

slice_to-ascii_append :
    (p s : Text) (n : ℕ)
    → all is_ascii p ≡ true
    → length p ≤ n
    → slice_to s (n - length p) ≡ none
    → slice_to (p ++ s) n ≡ none
unfolding slice_to len_utf8
slice_to-ascii_append [] s n h le e = ground arith
slice_to-ascii_append (c ∷ p) s n h le e = ground (arith, slice_to-ascii_append p s (n - 1))

slice_to-ascii :
    (s : Text) (n : ℕ) → n ≤ len s → all is_ascii (take n s) ≡ true → slice_to s n ≢ none
unfolding slice_to len_utf8 len
slice_to-ascii [] n le h = ground arith
slice_to-ascii (c ∷ s) zero le h = ground arith
slice_to-ascii (c ∷ s) (suc n) le h = ground (arith, slice_to-ascii s n)

snippet-panics :
    (p s : Text)
    → all is_ascii p ≡ true
    → all is_three_bytes s ≡ true
    → length p ≤ 120
    → length p % 3 ≢ 0
    → 120 < len (p ++ s)
    → snippet (p ++ s) ≡ none
unfolding snippet
snippet-panics p s hp hs le k over = rw (
  lt→ltb 120 (len (p ++ s)) over,
  slice_to-ascii_append p s 120 hp le (slice_to-three_bytes s (120 - length p) hs (omega arith)),
)

snippet-ascii : (s : Text) → all is_ascii (take 120 s) ≡ true → snippet s ≢ none
unfolding snippet
snippet-ascii s h = elim (Bool-cases (ltb 120 (len s))) [
  | inl over ↦ ground (arith, slice_to-ascii s 120)
  | inr short ↦ ground arith
]

is_empty-len : (s : Text) → 120 < len s → is_empty s ≡ false
unfolding len
is_empty-len [] h = absurd (omega arith)
is_empty-len (c ∷ s) h = refl

module _ (json : JsonApi) where
  open json use {Value}

  summary_line-none :
      (msg : Message Value)
      → is_empty (message_text json msg) ≡ false
      → snippet (message_text json msg) ≡ none
      → summary_line json msg ≡ none
  unfolding summary_line
  summary_line-none msg h e = rw (h, e)

  summary_lines-none :
      (messages : List (Message Value)) (i : ℕ) (msg : Message Value)
      → get_elem? messages i ≡ some msg
      → summary_line json msg ≡ none
      → summary_lines json messages ≡ none
  unfolding summary_lines
  summary_lines-none [] i msg at e = cc
  summary_lines-none (m ∷ messages) zero msg at e = ground arith
  summary_lines-none (m ∷ messages) (suc i) msg at e = elim (Option-cases (summary_line json m)) [
    | inl first ↦ rw first
    | inr p ↦ rw (p.1, summary_lines-none messages i msg at e)
  ]

  -- The texts that `summarize` slices are ASCII as far as the slice goes.
  abbrev pub AsciiHeads : List (Message Value) → Type 0
  AsciiHeads [] = Unit
  AsciiHeads (msg ∷ messages) =
      (all is_ascii (take 120 (message_text json msg)) ≡ true) × AsciiHeads messages

  summary_line-ascii :
      (msg : Message Value)
      → all is_ascii (take 120 (message_text json msg)) ≡ true
      → summary_line json msg ≢ none
  unfolding summary_line
  summary_line-ascii msg h = elim (Option-cases (snippet (message_text json msg))) [
    | inl e ↦ absurd (snippet-ascii (message_text json msg) h e)
    | inr p ↦ ground arith
  ]

  summary_lines-ascii :
      (messages : List (Message Value)) → AsciiHeads messages → summary_lines json messages ≢ none
  unfolding summary_lines
  summary_lines-ascii [] h = ground arith
  summary_lines-ascii (msg ∷ messages) h =
      ground (arith, summary_line-ascii msg, summary_lines-ascii messages)

  summarize-ascii :
      (removed : List (Message Value))
      → AsciiHeads (take 8 (reverse removed))
      → summarize json removed ≢ none
  unfolding summarize
  summarize-ascii removed h = ground (arith, summary_lines-ascii (take 8 (reverse removed)) h)

  insert_summary-none :
      (uuid : Text) (now : ℕ) (removed rest : List (Message Value))
      → 0 < length removed
      → summarize json removed ≡ none
      → insert_summary json uuid now removed rest ≡ none
  unfolding insert_summary
  insert_summary-none uuid now [] rest pos e = absurd (omega arith)
  insert_summary-none uuid now (msg ∷ removed) rest pos e = rw e

  insert_summary-total :
      (uuid : Text) (now : ℕ) (removed rest : List (Message Value))
      → summarize json removed ≢ none
      → insert_summary json uuid now removed rest ≢ none
  unfolding insert_summary
  insert_summary-total uuid now [] rest e = ground arith
  insert_summary-total uuid now (msg ∷ removed) rest e = ground arith

  module _ (uuid : Text) (now : ℕ) (cm : ContextManager) (messages : List (Message Value)) where
    -- The messages to summarise, newest first, as far as the summary reads them.
    abbrev pub summarized : List (Message Value)
    summarized = take 8 (reverse (drained cm.preserve_recent (capped json uuid now cm messages)))

    summarize-none :
        (i : ℕ) (msg : Message Value)
        → get_elem? summarized i ≡ some msg
        → is_empty (message_text json msg) ≡ false
        → snippet (message_text json msg) ≡ none
        → summarize json (drained cm.preserve_recent (capped json uuid now cm messages)) ≡ none
    unfolding summarize
    summarize-none i msg at full e =
        rw (summary_lines-none summarized i msg at (summary_line-none msg full e))

    -- A conversation over `max_messages` cannot be compacted when one of the eight newest messages
    -- to drain has a text over 120 bytes that is some ASCII, of a length that is no multiple of
    -- three and 120 at most, and then characters of three bytes: the slice at byte 120 panics.
    pub maybe_compact-panics :
        cm.max_messages < length (capped json uuid now cm messages)
        → 0 < cm.preserve_recent
        → cm.preserve_recent < length (capped json uuid now cm messages)
        → (i : ℕ) (msg : Message Value) (p s : Text) → get_elem? summarized i ≡ some msg
        → message_text json msg ≡ p ++ s
        → all is_ascii p ≡ true
        → all is_three_bytes s ≡ true
        → length p ≤ 120
        → length p % 3 ≢ 0
        → 120 < len (p ++ s)
        → maybe_compact json uuid now cm messages ≡ none
    maybe_compact-panics over pos lt i msg p s at e hp hs le k long =
        let cut : snippet (message_text json msg) ≡ none =
          rw e (snippet-panics p s hp hs le k long) in
        let full : is_empty (message_text json msg) ≡ false = rw e (is_empty-len (p ++ s) long) in
        rw (
          maybe_compact-drains json uuid now cm messages over pos lt,
          insert_summary-none uuid now
              (drained cm.preserve_recent (capped json uuid now cm messages))
              (kept cm.preserve_recent (capped json uuid now cm messages))
              (length-drained json cm.preserve_recent (capped json uuid now cm messages) lt)
              (summarize-none i msg at full cut),
        )

    maybe_compact-ne-none : AsciiHeads summarized → maybe_compact json uuid now cm messages ≢ none
    unfolding maybe_compact
    maybe_compact-ne-none h e =
        let xs : List (Message Value) = capped json uuid now cm messages in
        let keep : ℕ = min cm.preserve_recent (length xs) in
        elim (Bool-cases (leb (length xs) cm.max_messages)) [
          | inl small ↦ ground arith
          | inr big ↦ elim (Bool-cases (ltb 0 keep && ltb keep (length xs))) [
            | inl ok ↦
                let same : keep ≡ cm.preserve_recent = ground arith in
                insert_summary-total uuid now (drained keep xs) (kept keep xs)
                  (rw same (summarize-ascii (drained cm.preserve_recent xs) h)) (ground arith)
            | inr not_ok ↦ ground arith
          ]
        ]

    -- When the texts of the messages that a summary would read begin with 120 ASCII characters, or
    -- are shorter and ASCII, `maybe_compact` returns.
    pub maybe_compact-total :
        AsciiHeads summarized
        → (o : Outcome json) × (maybe_compact json uuid now cm messages ≡ some o)
    maybe_compact-total h = elim (Option-cases (maybe_compact json uuid now cm messages)) [
      | inl e ↦ absurd (maybe_compact-ne-none h e)
      | inr p ↦ p
    ]
