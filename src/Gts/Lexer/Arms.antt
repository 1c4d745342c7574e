-- ===== src/Gts/Lexer/Arms.antt =====
-- crates/night24-gts/src/lexer/lexer.rs: an arm of `next_token` for an operator passes over its first
-- character, and what it comes to.
use night.Gts.Lexer.Spans.{
  Moved, Spans-refl, advance-Moved, Moved-advance, add_error-Moved, advance-Spans,
}
use night.Gts.Lexer.{Lexer, peek_at, peek, advance}
use night.Prelude.{◌==◌, Bool-cases, ℕ, ◌≡◌, refl, inl, inr, Bool, true, false, [], ==_iff}
use night.Gts.Lexer.Operators.{
  Arm, one, two, if_next, then_if, then_both, equals, exclamation, greater, ampersand, bar, dots,
}
use night.Gts.Token.{TokenKind, pow_eq, l_shift_eq, eof}

-- The kinds that no arm yields: two operators that the token kinds have, and the end of the source.
unfoldable pub is_unreached : TokenKind → Bool
is_unreached pow_eq = true
is_unreached l_shift_eq = true
is_unreached eof = true
is_unreached _ = false

-- What holds of an arm at a cursor.
pub record Fine (l : Lexer) (result : TokenKind × Lexer) : Type 0 where
  pub behind : Moved (advance l) result.1
  pub reached : is_unreached result.0 ≡ false

pub one-Fine : (kind : TokenKind) (l : Lexer) → is_unreached kind ≡ false → Fine l (one kind l)
one-Fine kind l h = record { behind = ([], Spans-refl (advance l)); reached = h }

pub two-Fine : (kind : TokenKind) (l : Lexer) → is_unreached kind ≡ false → Fine l (two kind l)
two-Fine kind l h = record { behind = advance-Moved (advance l); reached = h }

pub if_next-Fine :
    (ch : ℕ) (first other : Arm) (l : Lexer)
    → ((peek_at 1 l == ch) ≡ true → Fine l (first l))
    → Fine l (other l)
    → Fine l (if_next ch first other l)
if_next-Fine ch first other l f g = elim (Bool-cases (peek_at 1 l == ch)) [
  | inl t ↦ rw t (f t)
  | inr n ↦ rw n g
]

pub then_if-Fine :
    (ch : ℕ) (kind other : TokenKind) (l : Lexer)
    → is_unreached kind ≡ false
    → is_unreached other ≡ false
    → Fine l (then_if ch kind other l)
then_if-Fine ch kind other l f g = elim (Bool-cases (peek (advance l) == ch)) [
  | inl t ↦ rw t (two-Fine kind l f)
  | inr n ↦ rw n (one-Fine other l g)
]

-- The test of this arm reads the character that `if_next` has seen.
then_both-Fine :
    (ch : ℕ) (kind other : TokenKind) (l : Lexer)
    → (peek (advance l) == ch) ≡ false
    → is_unreached other ≡ false
    → Fine l (then_both ch kind other l)
then_both-Fine ch kind other l n g = rw n (two-Fine other l g)

three : (l : Lexer) → Moved (advance l) (advance (advance (advance l)))
three l = Moved-advance (advance l) (advance (advance l)) (advance-Moved (advance l))

pub equals-Fine : (l : Lexer) → Fine l (equals l)
unfolding is_unreached
equals-Fine l = elim (Bool-cases (peek_at 1 (advance l) == 61)) [
  | inl t ↦ rw t (record { behind = three l; reached = refl })
  | inr n ↦ rw n (record {
    behind = add_error-Moved (advance l) _ _ (advance-Moved (advance l));
    reached = refl;
  })
]

pub exclamation-Fine : (l : Lexer) → Fine l (exclamation l)
unfolding is_unreached
exclamation-Fine l = elim (Bool-cases (peek (advance l) == 61)) [
  | inl t ↦ elim (Bool-cases (peek (advance (advance l)) == 61)) [
    | inl u ↦ rw (t, u) (record { behind = three l; reached = refl })
    | inr n ↦
        rw (t, n)
          (record {
            behind = add_error-Moved (advance l) _ _ (advance-Moved (advance l));
            reached = refl;
          })
  ]
  | inr n ↦ rw n (record { behind = ([], Spans-refl (advance l)); reached = refl })
]

pub greater-Fine : (l : Lexer) → Fine l (greater l)
unfolding is_unreached
greater-Fine l = elim (Bool-cases (peek_at 1 (advance l) == 62)) [
  | inl t ↦ elim (Bool-cases (peek_at 1 (advance (advance l)) == 61)) [
    | inl u ↦ rw (t, u) (record { behind = Moved-advance (advance l) _ (three l); reached = refl })
    | inr n ↦ rw (t, n) (record { behind = three l; reached = refl })
  ]
  | inr n ↦ elim (Bool-cases (peek_at 1 (advance l) == 61)) [
    | inl t ↦ rw (n, t) (record { behind = three l; reached = refl })
    | inr m ↦ rw (n, m) (record { behind = advance-Moved (advance l); reached = refl })
  ]
]

pub ampersand-Fine : (l : Lexer) → Fine l (ampersand l)
unfolding is_unreached
ampersand-Fine l = elim (Bool-cases (peek (advance l) == 38)) [
  | inl t ↦ rw t (record { behind = advance-Moved (advance l); reached = refl })
  | inr n ↦ elim (Bool-cases (peek (advance l) == 61)) [
    | inl t ↦ rw (n, t) (record { behind = advance-Moved (advance l); reached = refl })
    | inr m ↦ rw (n, m) (record { behind = ([], Spans-refl (advance l)); reached = refl })
  ]
]

pub bar-Fine : (l : Lexer) → Fine l (bar l)
unfolding is_unreached
bar-Fine l = elim (Bool-cases (peek (advance l) == 124)) [
  | inl t ↦ rw t (record { behind = advance-Moved (advance l); reached = refl })
  | inr n ↦ elim (Bool-cases (peek (advance l) == 61)) [
    | inl t ↦ rw (n, t) (record { behind = advance-Moved (advance l); reached = refl })
    | inr m ↦ rw (n, m) (record { behind = ([], Spans-refl (advance l)); reached = refl })
  ]
]

pub dots-Fine : (l : Lexer) → Fine l (dots l)
unfolding is_unreached
dots-Fine l = elim (Bool-cases (peek_at 1 (advance l) == 61)) [
  | inl t ↦ rw t (record { behind = three l; reached = refl })
  | inr n ↦ elim (Bool-cases (peek_at 1 (advance l) == 46)) [
    | inl t ↦ rw (n, t) (record { behind = three l; reached = refl })
    | inr m ↦ rw (n, m) (record { behind = advance-Moved (advance l); reached = refl })
  ]
]

-- `**` and `<<`: the second character is no `=`.
pub twice-Fine :
    (ch : ℕ) (kind other : TokenKind) (l : Lexer)
    → (ch == 61) ≡ false
    → (peek l == 0) ≡ false
    → is_unreached other ≡ false
    → (peek_at 1 l == ch) ≡ true
    → Fine l (then_both 61 kind other l)
twice-Fine ch kind other l d n g t =
    then_both-Fine 61 kind other l (rw ((advance-Spans l n).1, (==_iff (peek_at 1 l) ch).0 t) d) g
