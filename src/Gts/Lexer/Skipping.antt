-- ===== src/Gts/Lexer/Skipping.antt =====
-- crates/night24-gts/src/lexer/lexer.rs: whitespace and comments are skipped, and the loops end.
use night.Gts.Lexer.Spans.{
  Moved, loop_while-keeps, add_error-Moved, Moved-trans, Moved-advance, loop_while-ends, Spans-refl,
  advance-Moved, left-advance, impossible, left-Moved, Spans-left,
}
use night.Prelude.{
  not, ltb, ◌==◌, ==_iff, Bool-cases, ℕ, ◌<◌, ◌≡◌, refl, sym, ap, ◌∙◌, inl, inr, Bool, true, false,
  ◌&&◌, ◌||◌, ◌∷◌, arith, [],
}
use night.Gts.Lexer.{
  Lexer, skip_line_comment, advance, loop_while, skip_block_comment, skip_one, is_blank,
  skip_whitespace_and_comments, peek, comment_round, left, at_trivia, char_at, peek_at,
}

and-right : (a b : Bool) → (a && not b) ≡ true → b ≡ false
and-right a b h = ground arith

Moved-left : (l l' : Lexer) → Moved l l' → (peek l' == peek l) ≡ false → left l' < left l
Moved-left l l' ([], h) differ =
    let same : peek l' ≡ peek l = ap (λ r. char_at r 0) (sym h.rest_eq) in
    absurd (impossible (sym differ ∙ (==_iff (peek l') (peek l)).1 same))
Moved-left l l' (c ∷ text, h) differ = omega (arith, Spans-left l l' (c ∷ text) h)

skip_line_comment-Moved : (l : Lexer) → Moved l (skip_line_comment l)
unfolding skip_line_comment
skip_line_comment-Moved l =
    loop_while-keeps (Moved l) _ advance (λ s t h. Moved-advance l s h) (left l) l
      ([], Spans-refl l)

skip_line_comment-Stops :
    (l : Lexer)
    → (not (peek (skip_line_comment l) == 10) && not (peek (skip_line_comment l) == 0)) ≡ false
unfolding skip_line_comment
skip_line_comment-Stops l =
    loop_while-ends left (λ l. not (peek l == 10) && not (peek l == 0)) advance
      (λ s t. left-advance s (and-right (not (peek s == 10)) (peek s == 0) t)) (left l) l
      (omega arith)

comment_round-Moved : (l : Lexer) (s : ℕ × Lexer) → Moved l s.1 → Moved l (comment_round s).1
comment_round-Moved l (depth, k) h = elim (Bool-cases (peek k == 47 && peek_at 1 k == 42)) [
  | inl t ↦ rw t (Moved-advance l (advance k) (Moved-advance l k h))
  | inr f ↦ elim (Bool-cases (peek k == 42 && peek_at 1 k == 47)) [
    | inl t ↦ rw (f, t) (Moved-advance l (advance k) (Moved-advance l k h))
    | inr g ↦ rw (f, g) (Moved-advance l k h)
  ]
]

-- The state behind a block comment, before an error is added.
abbrev inside : Lexer → Lexer
inside l = advance (advance l)

abbrev comment_end : Lexer → ℕ × Lexer
comment_end l =
    loop_while (left (inside l)) (λ s. ltb 0 s.0 && not (peek s.1 == 0)) comment_round (1, inside l)

comment_end-Moved : (l : Lexer) → Moved (inside l) (comment_end l).1
comment_end-Moved l =
    loop_while-keeps (λ (s : ℕ × Lexer). Moved (inside l) s.1) _ comment_round
      (λ s t h. comment_round-Moved (inside l) s h) (left (inside l)) (1, inside l)
      ([], Spans-refl (inside l))

skip_block_comment-inside : (l : Lexer) → Moved (inside l) (skip_block_comment l)
unfolding skip_block_comment
skip_block_comment-inside l = elim (Bool-cases (ltb 0 (comment_end l).0)) [
  | inl t ↦
      rw (t, skip_block_comment)
        (add_error-Moved (inside l) (comment_end l).1 _ (comment_end-Moved l))
  | inr f ↦ rw (f, skip_block_comment) (comment_end-Moved l)
]

skip_block_comment-Moved : (l : Lexer) → Moved l (skip_block_comment l)
skip_block_comment-Moved l =
    Moved-trans l (inside l) (skip_block_comment l) (Moved-advance l (advance l) (advance-Moved l))
      (skip_block_comment-inside l)

skip_one-Moved : (l : Lexer) → Moved l (skip_one l)
unfolding skip_one
skip_one-Moved l = elim (Bool-cases (is_blank (peek l))) [
  | inl t ↦ rw (t, skip_one) (advance-Moved l)
  | inr f ↦ elim (Bool-cases (peek_at 1 l == 47)) [
    | inl t ↦ rw (f, t, skip_one) (skip_line_comment-Moved l)
    | inr g ↦ rw (f, g, skip_one) (skip_block_comment-Moved l)
  ]
]

blank-nonzero : (c : ℕ) → is_blank c ≡ true → (c == 0) ≡ false
blank-nonzero c h = ground arith

slash-nonzero :
    (a c : ℕ)
    → is_blank c ≡ false
    → (is_blank c || (c == 47 && (a == 47 || a == 42))) ≡ true
    → c ≡ 47
slash-nonzero a c f h = ground arith

skip_one-less : (l : Lexer) → at_trivia l ≡ true → left (skip_one l) < left l
unfolding skip_one
skip_one-less l h = elim (Bool-cases (is_blank (peek l))) [
  | inl t ↦ rw (t, skip_one) (left-advance l (blank-nonzero (peek l) t))
  | inr f ↦
      let slash : peek l ≡ 47 = slash-nonzero (peek_at 1 l) (peek l) f h in
      elim (Bool-cases (peek_at 1 l == 47)) [
        | inl t ↦
            rw (f, t, skip_one)
              (Moved-left l (skip_line_comment l) (skip_line_comment-Moved l)
                (stopped (peek (skip_line_comment l)) (peek l) slash (skip_line_comment-Stops l)))
        | inr g ↦
            rw (f, g, skip_one)
              (omega (
                arith,
                left-advance l (rw slash refl),
                left-Moved (advance l) (advance (advance l)) (advance-Moved (advance l)),
                left-Moved (inside l) (skip_block_comment l) (skip_block_comment-inside l),
              ))
      ]
]
  where
    stopped : (a b : ℕ) → b ≡ 47 → (not (a == 10) && not (a == 0)) ≡ false → (a == b) ≡ false
    stopped a b e h = ground arith

pub skip_whitespace_and_comments-Moved : (l : Lexer) → Moved l (skip_whitespace_and_comments l)
unfolding skip_whitespace_and_comments
skip_whitespace_and_comments-Moved l =
    loop_while-keeps (Moved l) at_trivia skip_one
      (λ s t h. Moved-trans l s (skip_one s) h (skip_one-Moved s)) (left l) l ([], Spans-refl l)

-- Behind the loop there is no whitespace, no `//` and no `/*` at the cursor: it has not run out of rounds.
pub skip_whitespace_and_comments-Stops :
    (l : Lexer) → at_trivia (skip_whitespace_and_comments l) ≡ false
unfolding skip_whitespace_and_comments
skip_whitespace_and_comments-Stops l =
    loop_while-ends left at_trivia skip_one skip_one-less (left l) l (omega arith)
