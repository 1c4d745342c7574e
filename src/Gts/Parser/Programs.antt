-- ===== src/Gts/Parser/Programs.antt =====
-- crates/night24-gts/src/parser/parser.rs and statements.rs: the loop over statements, with the guard of an
-- `if`. What parses the other statements, and the rest of an `if`, is an argument: it is not modelled.
use night.Gts.Lexer.Spans.{loop_while-keeps, impossible}
use night.Gts.Lexer.Sources.{is_eof}
use night.Text.{lit, Text}
use night.Gts.Lexer.{loop_while}
use night.Gts.Token.{l_paren, kw_if, TokenKind, eof}
use night.Prelude.{
  not, if◌then◌else◌, ℕ, ◌≡◌, true, false, Option, none, some, List, ◌∷◌, ◌++◌, [], leb, ◌==◌,
  Bool-cases, length, refl, ◌∙◌, inl, inr,
}
use night.Gts.Parser.{Parser, add_error, peek_is, cur_is, same_kind}

if_is_no_end : (kind : TokenKind) → same_kind kind kw_if ≡ true → is_eof kind ≡ false
unfolding is_eof
if_is_no_end eof h = absurd (impossible h)
if_is_no_end _ h = refl

module _ {ℓ} {A : Type ℓ} (parse_if_rest others : Parser → Option A × Parser) where
  unfoldable pub parse_if : Parser → Option A × Parser
  parse_if p =
      if not (peek_is l_paren p)
      then (none, add_error (lit "expected ( after if") p)
      else parse_if_rest p

  unfoldable pub parse_statement : Parser → Option A × Parser
  parse_statement p = if cur_is kw_if p then parse_if p else others p

  -- A statement that there is goes to the body.
  abbrev pub keep : List A → Option A × Parser → List A × Parser
  keep body (some stmt, p) = (body ++ stmt ∷ [], p)
  keep body (none, p) = (body, p)

  abbrev pub program_round : List A × Parser → List A × Parser
  program_round (body, p) = keep body (parse_statement p)

  -- The statements after this number of rounds at most, and the parser.
  unfoldable pub parse_program : ℕ → Parser → List A × Parser
  parse_program n p =
      loop_while n (λ (s : List A × Parser). not (is_eof s.1.cur.kind)) program_round ([], p)

  add_error-place :
      (msg : Text) (q : Parser)
      → ((add_error msg q).cur ≡ q.cur) × ((add_error msg q).peek ≡ q.peek)
  unfolding add_error
  add_error-place msg q = elim (Bool-cases (leb 100 (length q.errors))) [
    | inl t ↦ elim (Bool-cases (length q.errors == 100)) [
      | inl u ↦ rw (t, u, add_error) (refl, refl)
      | inr f ↦ rw (t, f, add_error) (refl, refl)
    ]
    | inr f ↦ rw (f, add_error) (refl, refl)
  ]

  abbrev Stuck : Parser → List A × Parser → Type ℓ
  Stuck p (body, q) = (q.cur ≡ p.cur) × (q.peek ≡ p.peek) × (body ≡ [])

  program_round-Stuck :
      (p : Parser) (s : List A × Parser)
      → cur_is kw_if p ≡ true
      → peek_is l_paren p ≡ false
      → Stuck p s
      → Stuck p (program_round s)
  unfolding parse_statement parse_if
  program_round-Stuck p (body, q) c k (cur, peek, empty) =
      let if_ : cur_is kw_if q ≡ true = rw cur c in
      let open_ : peek_is l_paren q ≡ false = rw peek k in
      let (e, f) = add_error-place (lit "expected ( after if") q in
      let result : parse_statement q ≡ (none, add_error (lit "expected ( after if") q) =
        rw (if_, open_, parse_statement, parse_if) in
      rw result (e ∙ cur, f ∙ peek, empty)

  -- An `if` that no `(` follows is never left: after any number of rounds the loop is at the same `if`, not at
  -- the end of the source, and has no statement more, whatever parses the other statements.
  pub parse_program-stuck :
      (p : Parser) (n : ℕ)
      → cur_is kw_if p ≡ true
      → peek_is l_paren p ≡ false
      → ((parse_program n p).1.cur ≡ p.cur)
        × (is_eof (parse_program n p).1.cur.kind ≡ false)
        × ((parse_program n p).0 ≡ [])
  unfolding parse_program
  parse_program-stuck p n c k =
      let (cur, peek, empty) =
        loop_while-keeps (Stuck p) _ program_round (λ s t h. program_round-Stuck p s c k h) n
          ([], p) (refl, refl, refl) in
      (cur, rw cur (if_is_no_end p.cur.kind c), empty)
