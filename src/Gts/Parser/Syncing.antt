-- ===== src/Gts/Parser/Syncing.antt =====
-- crates/night24-gts/src/parser/parser.rs: recovery ends, and where.
use night.Gts.Token.{r_brace, l_brace, semi, Token}
use night.Gts.Lexer.{Chars, loop_while}
use night.Prelude.{
  Bool-cases, ℕ, zero, suc, ◌<◌, ◌≡◌, ap, ◌⊎◌, inl, inr, Bool, true, false, ◌||◌, if◌then◌else◌,
  refl, List, ◌∷◌, arith, [],
}
use night.Gts.Parser.{
  Parser, pending, next_token, read_token, sync, sync_round, syncing, starts_statement, cur_is,
}
use night.Gts.Lexer.Sources.{is_eof, next_token-left}
use night.Gts.Lexer.Spans.{loop_while-keeps, loop_while-ends, impossible}
use night.Gts.Lexer.Next

-- Some number of calls of `next_token`.
unfoldable pub skips : Chars → ℕ → Parser → Parser
skips chars zero p = p
skips chars (suc n) p = next_token chars (skips chars n p)

abbrev at_boundary : Parser → Bool
at_boundary p = cur_is r_brace p || cur_is l_brace p || starts_statement p.cur.kind

-- The parser has skipped some tokens, and stands behind a semicolon, at a brace or at the start of a
-- statement.
abbrev pub Recovered : Chars → Parser → Parser → Type 0
Recovered chars p q =
    ((n : ℕ) × (cur_is semi (skips chars n p) ≡ true) × (q ≡ skips chars (suc n) p))
    ⊎ ((n : ℕ) × (q ≡ skips chars n p) × (at_boundary q ≡ true))

abbrev Syncing : Chars → Parser → Parser × Bool → Type 0
Syncing chars p (q, returned) =
    ((n : ℕ) × (q ≡ skips chars n p)) × (returned ≡ true → Recovered chars p q)

module _ (chars : Chars) where
  sync_round-Syncing :
      (p : Parser) (s : Parser × Bool)
      → syncing chars s ≡ true
      → Syncing chars p s
      → Syncing chars p (sync_round chars s)
  unfolding skips
  sync_round-Syncing p (q, returned) t ((n, e), h) = elim (Bool-cases (cur_is semi q)) [
    | inl a ↦
        rw a ((suc n, ap (next_token chars) e), λ _. inl (n, rw (← e) a, ap (next_token chars) e))
    | inr a ↦ elim (Bool-cases (at_boundary q)) [
      | inl b ↦ rw (a, b) ((n, e), λ _. inr (n, e, b))
      | inr b ↦ rw (a, b) ((suc n, ap (next_token chars) e), λ no_. absurd (impossible no_))
    ]
  ]

-- What a round of `sync` makes smaller.
abbrev weight : Parser × Bool → ℕ
weight (p, returned) = if returned then 0 else pending p

module _ (chars : Chars) (nul : chars.is_alphabetic 0 ≡ false) where
  next_token-pending :
      (p : Parser) → is_eof p.cur.kind ≡ false → pending (next_token chars p) < pending p
  unfolding next_token read_token
  next_token-pending p h = of_buf p.buf refl
    where
      of_buf : (buf : List Token) → p.buf ≡ buf → pending (next_token chars p) < pending p
      of_buf [] e =
          let (tok, l) = Next.next_token chars p.lexer in
          let (less, lesser) = next_token-left chars nul p.lexer in
          elim (Bool-cases (is_eof tok.kind)) [
            | inl t ↦ rw (e, h, t) (omega (arith, less))
            | inr f ↦ rw (e, h, f) (omega (arith, lesser f))
          ]
      of_buf (tok ∷ buf) e = elim (Bool-cases (is_eof tok.kind)) [
        | inl t ↦ rw (e, h, t) (omega arith)
        | inr f ↦ rw (e, h, f) (omega arith)
      ]

  sync_round-pending :
      (s : Parser × Bool) → syncing chars s ≡ true → weight (sync_round chars s) < weight s
  sync_round-pending (q, returned) t =
      let live : is_eof q.cur.kind ≡ false = ground arith in
      let open_ : returned ≡ false = ground arith in
      elim (Bool-cases (cur_is semi q)) [
        | inl a ↦ rw (a, open_) (omega (arith, next_token-pending q live))
        | inr a ↦ elim (Bool-cases (at_boundary q)) [
          | inl b ↦ rw (a, b, open_, live) (omega arith)
          | inr b ↦ rw (a, b, open_) (omega (arith, next_token-pending q live))
        ]
      ]

  -- Recovery ends: it stands at the end of the source, or behind a semicolon, at a brace or at the first token
  -- of a statement, and it has done nothing but read tokens, where the classification of letters has no NUL.
  pub sync-Recovers :
      (p : Parser) → (is_eof (sync chars p).cur.kind ≡ true) ⊎ Recovered chars p (sync chars p)
  unfolding sync skips
  sync-Recovers p =
      let last = loop_while (pending p) (syncing chars) (sync_round chars) (p, false) in
      let ((n, e), done) =
        loop_while-keeps (Syncing chars p) (syncing chars) (sync_round chars)
          (sync_round-Syncing chars p) (pending p) (p, false)
          ((0, refl), λ no_. absurd (impossible no_)) in
      let ended : syncing chars last ≡ false =
        loop_while-ends weight (syncing chars) (sync_round chars) sync_round-pending (pending p)
          (p, false) (omega arith) in
      elim (Bool-cases last.1) [ inl t ↦ inr (done t) | inr f ↦ inl (ground arith) ]
