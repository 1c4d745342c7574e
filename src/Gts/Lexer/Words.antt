-- ===== src/Gts/Lexer/Words.antt =====
-- crates/night24-gts/src/lexer/lexer.rs: names and regexp literals push the characters that they pass over,
-- and a slash that starts a regexp has an end.
use night.Gts.Token.{regexp_token, illegal}
use night.Text.{is_ascii_digit, lit, Text}
use night.Gts.Lexer.Spans.{loop_while-keeps, advance-Spans, loop_while_stop, loop_while_go}
use night.Gts.Lexer.{peek, Lexer, Chars, left, advance, loop_while, char_at}
use night.Prelude.{
  ◌==◌, Bool-cases, ℕ, ◌≤◌, ◌≡◌, refl, inl, inr, true, false, ◌||◌, arith, zero, suc, ◌∷◌, not,
  length, sym, ap, [], if◌then◌else◌, drop, ◌∙◌,
}
use night.Gts.Lexer.Literals.{
  Reads, push-Reads, push_while-Reads, fail-Reads, first-Reads, push_while-first-Reads,
}
use night.Gts.Lexer.Regexps.{
  Regexp, regexp_round, in_regexp, regexp_end, is_letter, read_identifier, read_regexp, terminated,
  has_regexp_terminator,
}
use night.Gts.Lexer.Readers.{push}

regexp_round_out : (r : Regexp) → (regexp_round r).out ≡ push r.out
regexp_round_out r = elim (Bool-cases r.escape) [
  | inl t ↦ rw t
  | inr e ↦ elim (Bool-cases (peek r.out.lexer == 92)) [
    | inl t ↦ rw (e, t)
    | inr b ↦ elim (Bool-cases r.in_class) [
      | inl t ↦ rw (e, b, t)
      | inr c ↦ elim (Bool-cases (peek r.out.lexer == 91)) [
        | inl t ↦ rw (e, b, c, t)
        | inr o ↦ elim (Bool-cases (peek r.out.lexer == 47)) [
          | inl t ↦ rw (e, b, c, o, t)
          | inr s ↦ rw (e, b, c, o, s)
        ]
      ]
    ]
  ]
]

regexp_round-Reads :
    (l : Lexer) (r : Regexp) → in_regexp r ≡ true → Reads l r.out → Reads l (regexp_round r).out
regexp_round-Reads l r t h = rw (regexp_round_out r) (push-Reads l r.out (ground arith) h)

regexp_end-Reads : (l : Lexer) → (peek l == 0) ≡ false → Reads l (regexp_end l).out
unfolding regexp_end
regexp_end-Reads l live =
    loop_while-keeps (λ (r : Regexp). Reads l r.out) in_regexp regexp_round (regexp_round-Reads l)
      (left (advance l)) _ (first-Reads l live)

module _ (chars : Chars) (nul : chars.is_alphabetic 0 ≡ false) where
  letter_dead : is_letter chars 0 ≡ false
  letter_dead = rw nul refl

  pub read_identifier-Reads :
      (l : Lexer) → is_letter chars (peek l) ≡ true → Reads l (read_identifier chars l)
  unfolding read_identifier is_ascii_digit
  read_identifier-Reads l h =
      push_while-first-Reads l (λ ch. is_letter chars ch || is_ascii_digit ch) (rw nul refl)
        (rw h refl)

  pub read_regexp-Reads : (l : Lexer) → (peek l == 0) ≡ false → Reads l (read_regexp chars l).1
  unfolding read_regexp
  read_regexp-Reads l live =
      let end : Reads l (regexp_end l).out = regexp_end-Reads l live in
      elim (Bool-cases (regexp_end l).closed) [
        | inl t ↦
            rw (t, read_regexp)
              (push_while-Reads l (is_letter chars) (regexp_end l).out letter_dead end)
        | inr f ↦
            rw (f, read_regexp)
              (fail-Reads l (lit "unterminated regexp literal") (regexp_end l).out end)
      ]

-- The rest of `read_regexp` behind these rounds agrees with the test on this text.
abbrev Agrees : ℕ → Text → Type 0
Agrees fuel text =
    (r : Regexp)
    → r.out.lexer.rest ≡ text
    → r.closed ≡ false
    → (loop_while fuel in_regexp regexp_round r).closed ≡ terminated r.in_class r.escape text

round-Agrees :
    (fuel : ℕ) (text : Text)
    → Agrees fuel text
    → (r : Regexp) → (push r.out).lexer.rest ≡ text
    → r.closed ≡ false
    → (peek r.out.lexer == 0 || peek r.out.lexer == 10) ≡ false
    → (loop_while fuel in_regexp regexp_round (regexp_round r)).closed
      ≡ terminated r.in_class r.escape (peek r.out.lexer ∷ text)
unfolding terminated
round-Agrees fuel text step r e live n = elim (Bool-cases r.escape) [
  | inl t ↦ rw (n, t, terminated) (step (record r { out = push r.out; escape = false }) e live)
  | inr a ↦ elim (Bool-cases (peek r.out.lexer == 92)) [
    | inl t ↦ rw (n, a, t, terminated) (step (record r { out = push r.out; escape = true }) e live)
    | inr b ↦ elim (Bool-cases r.in_class) [
      | inl t ↦
          rw (n, a, b, t, terminated)
            (step
              record {
                out = push r.out;
                in_class = not (peek r.out.lexer == 93);
                escape = false;
                closed = r.closed;
              }
              e live)
      | inr c ↦ elim (Bool-cases (peek r.out.lexer == 91)) [
        | inl t ↦
            rw (n, a, b, c, t, terminated)
              (step record { out = push r.out; in_class = true; escape = false; closed = r.closed }
                e live)
        | inr o ↦ elim (Bool-cases (peek r.out.lexer == 47)) [
          | inl t ↦
              rw (n, a, b, c, o, t, terminated)
                (ap (λ (r : Regexp). r.closed)
                  (loop_while_stop in_regexp regexp_round fuel
                    record { out = push r.out; in_class = false; escape = false; closed = true }
                    refl))
          | inr s ↦
              rw (n, a, b, c, o, s, terminated)
                (step
                  record { out = push r.out; in_class = false; escape = false; closed = r.closed } e
                  live)
        ]
      ]
    ]
  ]
]

loop-Agrees : (fuel : ℕ) (text : Text) → length text ≤ fuel → Agrees fuel text
unfolding terminated
loop-Agrees fuel [] h r e live =
    rw (loop_while_stop in_regexp regexp_round fuel r (rw (live, e))) live
loop-Agrees zero (c ∷ text) h r e live = absurd (omega (arith, h))
loop-Agrees (suc fuel) (c ∷ text) h r e live =
    let here : peek r.out.lexer ≡ c = ap (λ t. char_at t 0) e in
    elim (Bool-cases (peek r.out.lexer == 0 || peek r.out.lexer == 10)) [
      | inl t ↦
          rw
            (
              loop_while_stop in_regexp regexp_round (suc fuel) r (ground arith),
              sym here,
              t,
              terminated,
            )
            live
      | inr n ↦
          rw (loop_while_go in_regexp regexp_round fuel r (ground arith), sym here)
            (round-Agrees fuel text (loop-Agrees fuel text (omega (arith, h))) r
              (passed r c text e (ground arith)) live n)
    ]
  where
    passed :
        (r : Regexp) (c : ℕ) (text : Text)
        → r.out.lexer.rest ≡ c ∷ text
        → (peek r.out.lexer == 0) ≡ false
        → (push r.out).lexer.rest ≡ text
    passed r c text e n =
        let moved : r.out.lexer.rest ≡ peek r.out.lexer ∷ (advance r.out.lexer).rest =
          (advance-Spans r.out.lexer n).0.rest_eq in
        ap (drop 1) (sym moved ∙ e)

-- A slash that `has_regexp_terminator` lets start a regexp literal has its end, and no other one has.
pub read_regexp-closes : (l : Lexer) → peek l ≡ 47 → (regexp_end l).closed ≡ has_regexp_terminator l
unfolding has_regexp_terminator regexp_end
read_regexp-closes l e =
    let moved : l.rest ≡ peek l ∷ (advance l).rest = (advance-Spans l (rw e refl)).0.rest_eq in
    loop-Agrees (left (advance l)) (advance l).rest (omega arith) _ refl refl
    ∙ ap (λ t. terminated false false (drop 1 t)) (sym moved)

-- At a slash, `read_regexp` yields a regexp literal where `has_regexp_terminator` holds, and the illegal
-- token of an unterminated one where it does not: the two loops, written apart, agree on every text.
pub read_regexp_lem :
    (chars : Chars) (l : Lexer)
    → peek l ≡ 47
    → (read_regexp chars l).0 ≡ (if has_regexp_terminator l then regexp_token else illegal)
unfolding read_regexp
read_regexp_lem chars l e =
    rw (sym (read_regexp-closes l e)) (elim (Bool-cases (regexp_end l).closed) [
      | inl t ↦ rw (t, read_regexp)
      | inr f ↦ rw (f, read_regexp)
    ])
