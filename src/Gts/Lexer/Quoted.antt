-- ===== src/Gts/Lexer/Quoted.antt =====
-- crates/night24-gts/src/lexer/lexer.rs: strings and templates push the characters that they pass over.
use night.Text.{lit}
use night.Gts.Lexer.Spans.{advance-Spans, loop_while-keeps}
use night.Gts.Lexer.Readers.{
  read_string, read_template, Reading, Template, in_string, push, quoted_round, plain_round,
  template_round, string_round, reading, ends_with,
}
use night.Gts.Lexer.{Lexer, peek, peek_at, loop_while, left}
use night.Prelude.{
  not, ltb, ◌==◌, ==_iff, Bool-cases, ℕ, ◌≡◌, inl, inr, Bool, true, false, ◌&&◌, ◌||◌, arith,
}
use night.Gts.Lexer.Literals.{Reads, push-Reads, fail-Reads, first-Reads}

string_round-Reads :
    (l : Lexer) (quote : ℕ) (r : Reading)
    → in_string quote r ≡ true
    → Reads l r
    → Reads l (string_round r)
string_round-Reads l quote r t h =
    let first : Reads l (push r) = push-Reads l r (ground arith) h in
    elim (Bool-cases (peek r.lexer == 92)) [
      | inl b ↦ elim (Bool-cases (peek (push r).lexer == 0)) [
        | inl z ↦ rw (b, z) first
        | inr n ↦ rw (b, n) (push-Reads l (push r) n first)
      ]
      | inr b ↦ rw b first
    ]

pub read_string-Reads :
    (l : Lexer) (quote : ℕ)
    → (quote == 0) ≡ false
    → peek l ≡ quote
    → Reads l (read_string quote l).1
unfolding read_string
read_string-Reads l quote live e =
    let start : Reading = push (reading l) in
    let end : Reading = loop_while (left start.lexer) (in_string quote) string_round start in
    let loop : Reads l end =
      loop_while-keeps (Reads l) (in_string quote) string_round (string_round-Reads l quote)
        (left start.lexer) start (first-Reads l (rw e live)) in
    elim (Bool-cases (peek end.lexer == quote)) [
      | inl t ↦
          rw (t, read_string)
            (push-Reads l end (rw ((==_iff (peek end.lexer) quote).0 t) live) loop)
      | inr f ↦ rw (f, read_string) (fail-Reads l (lit "unterminated string literal") end loop)
    ]

quoted_round-Reads :
    (l : Lexer) (t : Template)
    → (peek t.out.lexer == 0) ≡ false
    → Reads l t.out
    → Reads l (quoted_round (peek t.out.lexer) t).out
quoted_round-Reads l t live h =
    let next : Reads l (push t.out) = push-Reads l t.out live h in
    elim (Bool-cases t.escape) [
      | inl b ↦ rw b next
      | inr b ↦ elim (Bool-cases (peek t.out.lexer == 92)) [
        | inl d ↦ rw (b, d) next
        | inr d ↦ rw (b, d) next
      ]
    ]

plain_round-Reads :
    (l : Lexer) (t : Template)
    → (peek t.out.lexer == 0) ≡ false
    → Reads l t.out
    → Reads l (plain_round (peek t.out.lexer) t).out
plain_round-Reads l t live h =
    let next : Reads l (push t.out) = push-Reads l t.out live h in
    elim (Bool-cases (peek t.out.lexer == 96)) [
      | inl b ↦ rw b next
      | inr b ↦ elim (Bool-cases (peek t.out.lexer == 36 && peek_at 1 t.out.lexer == 123)) [
        | inl d ↦
            let brace : (peek_at 1 t.out.lexer == 0) ≡ false = ground arith in
            rw (b, d)
              (push-Reads l (push t.out) (rw ((advance-Spans t.out.lexer live).1) brace) next)
        | inr d ↦ rw (b, d) next
      ]
    ]

template_round-Reads :
    (l : Lexer) (t : Template)
    → (not t.closed && not (peek t.out.lexer == 0)) ≡ true
    → Reads l t.out
    → Reads l (template_round t).out
template_round-Reads l t test h =
    let live : (peek t.out.lexer == 0) ≡ false = ground arith in
    elim (Bool-cases (t.quote == 0)) [
      | inl b ↦ elim (Bool-cases (t.expr_depth == 0)) [
        | inl d ↦ rw (b, d) (plain_round-Reads l t live h)
        | inr d ↦ rw (b, d) (push-Reads l t.out live h)
      ]
      | inr b ↦ rw b (quoted_round-Reads l t live h)
    ]

pub read_template-Reads : (l : Lexer) → (peek l == 0) ≡ false → Reads l (read_template l).1
unfolding read_template
read_template-Reads l live =
    let start : Template = record {
      out = push (reading l);
      expr_depth = 0;
      quote = 0;
      escape = false;
      closed = false;
    } in
    let test : Template → Bool = λ t. not t.closed && not (peek t.out.lexer == 0) in
    let end : Template = loop_while (left l) test template_round start in
    let loop : Reads l end.out =
      loop_while-keeps (λ (t : Template). Reads l t.out) test template_round
        (template_round-Reads l) (left l) start (first-Reads l live) in
    elim (Bool-cases (ltb 0 end.expr_depth || not (ends_with 96 end.out.text))) [
      | inl t ↦
          rw (t, read_template) (fail-Reads l (lit "unterminated template literal") end.out loop)
      | inr f ↦ rw (f, read_template) loop
    ]
