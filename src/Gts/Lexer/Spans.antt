-- ===== src/Gts/Lexer/Spans.antt =====
-- crates/night24-gts/src/lexer/lexer.rs: what the cursor passes over.
use night.Gts.Token.{TokenKind}
use night.Gts.Lexer.Next.{record_token, is_recorded}
use night.Text.{Text}
use night.Prelude.{
  ◌==◌, if◌then◌else◌, Bool-cases, length, length-append, ℕ, ◌+◌, ◌≡◌, refl, sym, ap, ◌∙◌, inl, inr,
  false, ◌∷◌, ◌++◌, append_assoc, arith, [], zero, suc, ◌≤◌, ◌<◌, Bool, true,
}
use night.Gts.Lexer.{
  Lexer, add_error, advance_over, pass, peek, advance, peek_at, char_at, loop_while, left,
}

abbrev pub newlines : Text → ℕ
newlines [] = 0
newlines (ch ∷ text) = (if ch == 10 then 1 else 0) + newlines text

-- The column behind a text.
abbrev pub column_after : ℕ → Text → ℕ
column_after col [] = col
column_after col (ch ∷ text) = column_after (if ch == 10 then 0 else col + 1) text

-- The second cursor stands behind this text, which the first one stands before.
pub record Spans (l : Lexer) (text : Text) (l' : Lexer) : Type 0 where
  pub rest_eq : l.rest ≡ text ++ l'.rest
  pub pos_eq : l'.pos ≡ l.pos + length text
  pub line_eq : l'.line ≡ l.line + newlines text
  pub col_eq : l'.col ≡ column_after l.col text

newlines-append : (s t : Text) → newlines (s ++ t) ≡ newlines s + newlines t
newlines-append [] t = omega arith
newlines-append (ch ∷ s) t = omega (arith, newlines-append s t)

column_after-append :
    (col : ℕ) (s t : Text) → column_after col (s ++ t) ≡ column_after (column_after col s) t
column_after-append col [] t = refl
column_after-append col (ch ∷ s) t = column_after-append (if ch == 10 then 0 else col + 1) s t

pub Spans-refl : (l : Lexer) → Spans l [] l
Spans-refl l = record { rest_eq = refl; pos_eq = omega arith; line_eq = omega arith; col_eq = refl }

pub Spans-trans : (a b c : Lexer) (s t : Text) → Spans a s b → Spans b t c → Spans a (s ++ t) c
Spans-trans a b c s t h k = record {
  rest_eq = h.rest_eq ∙ (ap (λ r. s ++ r) k.rest_eq ∙ sym (append_assoc s t c.rest));
  pos_eq = omega (arith, h.pos_eq, k.pos_eq, length-append {0} s t);
  line_eq = omega (arith, h.line_eq, k.line_eq, newlines-append s t);
  col_eq = k.col_eq ∙ (ap (λ n. column_after n t) h.col_eq ∙ sym (column_after-append a.col s t));
}

pub add_error-Spans :
    (l l' : Lexer) (text msg : Text) → Spans l text l' → Spans l text (add_error msg l')
unfolding add_error
add_error-Spans l l' text msg h = record {
  rest_eq = h.rest_eq;
  pos_eq = h.pos_eq;
  line_eq = h.line_eq;
  col_eq = h.col_eq;
}

pub record_token-Spans :
    (l l' : Lexer) (text : Text) (kind : TokenKind)
    → Spans l text l'
    → Spans l text (record_token kind l')
unfolding record_token
record_token-Spans l l' text kind h = elim (Bool-cases (is_recorded kind)) [
  | inl t ↦
      rw (t, record_token)
        (record { rest_eq = h.rest_eq; pos_eq = h.pos_eq; line_eq = h.line_eq; col_eq = h.col_eq })
  | inr f ↦ rw (f, record_token) h
]

pass-Spans :
    (l : Lexer) (ch : ℕ) (rest : Text)
    → l.rest ≡ ch ∷ rest
    → Spans l (ch ∷ []) (pass ch rest l) × ((pass ch rest l).rest ≡ rest)
unfolding pass
pass-Spans l ch rest e = elim (Bool-cases (ch == 10)) [
  | inl t ↦
      rw (t, pass)
        (record { rest_eq = e; pos_eq = refl; line_eq = rw t (omega arith); col_eq = rw t }, refl)
  | inr f ↦
      rw (f, pass)
        (record { rest_eq = e; pos_eq = refl; line_eq = rw f (omega arith); col_eq = rw f }, refl)
]

advance_over-Spans :
    (l : Lexer) (text : Text)
    → l.rest ≡ text
    → (char_at text 0 == 0) ≡ false
    → Spans l (char_at text 0 ∷ []) (advance_over text l)
      × (char_at (advance_over text l).rest 0 ≡ char_at text 1)
unfolding advance_over
advance_over-Spans l [] e h = ground arith
advance_over-Spans l (ch ∷ rest) e h =
    let (spans, next) = pass-Spans l ch rest e in
    rw (h, advance_over) (spans, ap (λ r. char_at r 0) next)

-- One character is passed, and the next one is at the cursor.
pub advance-Spans :
    (l : Lexer)
    → (peek l == 0) ≡ false
    → Spans l (peek l ∷ []) (advance l) × (peek (advance l) ≡ peek_at 1 l)
advance-Spans l h = advance_over-Spans l l.rest refl h

-- At the end of the source, and at NUL, the cursor stays.
advance_over_end :
    (l : Lexer) (text : Text) → (char_at text 0 == 0) ≡ true → advance_over text l ≡ l
unfolding advance_over
advance_over_end l [] h = refl
advance_over_end l (ch ∷ rest) h = rw (h, advance_over)

-- The second cursor is the first one, moved.
abbrev pub Moved : Lexer → Lexer → Type 0
Moved l l' = (text : Text) × Spans l text l'

pub Moved-trans : (a b c : Lexer) → Moved a b → Moved b c → Moved a c
Moved-trans a b c (s, h) (t, k) = (s ++ t, Spans-trans a b c s t h k)

pub advance-Moved : (l : Lexer) → Moved l (advance l)
advance-Moved l = elim (Bool-cases (peek l == 0)) [
  | inl t ↦ rw (advance_over_end l l.rest t) ([], Spans-refl l)
  | inr f ↦ (peek l ∷ [], (advance-Spans l f).0)
]

pub Moved-advance : (a b : Lexer) → Moved a b → Moved a (advance b)
Moved-advance a b h = Moved-trans a b (advance b) h (advance-Moved b)

pub add_error-Moved : (a b : Lexer) (msg : Text) → Moved a b → Moved a (add_error msg b)
add_error-Moved a b msg (s, h) = (s, add_error-Spans a b s msg h)

pub loop_while_stop {ℓ} :
    {S : Type ℓ} (goes : S → Bool) (turn : S → S) (n : ℕ) (s : S)
    → goes s ≡ false
    → loop_while n goes turn s ≡ s
unfolding loop_while
loop_while_stop goes turn zero s h = refl
loop_while_stop goes turn (suc n) s h = rw (h, loop_while)

pub loop_while_go {ℓ} :
    {S : Type ℓ} (goes : S → Bool) (turn : S → S) (n : ℕ) (s : S)
    → goes s ≡ true
    → loop_while (suc n) goes turn s ≡ loop_while n goes turn (turn s)
unfolding loop_while
loop_while_go goes turn n s h = rw (h, loop_while)

-- What holds before a loop and is kept by a round of it holds behind it.
pub loop_while-keeps {ℓ κ} :
    {S : Type ℓ} (P : S → Type κ) (goes : S → Bool) (turn : S → S)
    → ((s : S) → goes s ≡ true → P s → P (turn s))
    → (n : ℕ) (s : S) → P s
    → P (loop_while n goes turn s)
unfolding loop_while
loop_while-keeps P goes turn keep zero s h = h
loop_while-keeps P goes turn keep (suc n) s h = elim (Bool-cases (goes s)) [
  | inl t ↦ rw (t, loop_while) (loop_while-keeps P goes turn keep n (turn s) (keep s t h))
  | inr f ↦ rw (f, loop_while) h
]

-- A loop whose rounds make something smaller ends by its test.
pub loop_while-ends {ℓ} :
    {S : Type ℓ} (measure : S → ℕ) (goes : S → Bool) (turn : S → S)
    → ((s : S) → goes s ≡ true → measure (turn s) < measure s)
    → (n : ℕ) (s : S) → measure s ≤ n
    → goes (loop_while n goes turn s) ≡ false
unfolding loop_while
loop_while-ends measure goes turn less zero s h = elim (Bool-cases (goes s)) [
  | inl t ↦ absurd (omega (arith, less s t))
  | inr f ↦ f
]
loop_while-ends measure goes turn less (suc n) s h = elim (Bool-cases (goes s)) [
  | inl t ↦
      rw (t, loop_while)
        (loop_while-ends measure goes turn less n (turn s) (omega (arith, less s t)))
  | inr f ↦ rw (f, loop_while) f
]

pub Spans-left : (l l' : Lexer) (text : Text) → Spans l text l' → left l ≡ length text + left l'
Spans-left l l' text h = ap length h.rest_eq ∙ length-append text l'.rest

pub left-advance : (l : Lexer) → (peek l == 0) ≡ false → left (advance l) < left l
left-advance l h = omega (arith, Spans-left l (advance l) (peek l ∷ []) (advance-Spans l h).0)

pub left-Moved : (l l' : Lexer) → Moved l l' → left l' ≤ left l
left-Moved l l' (text, h) = omega (arith, Spans-left l l' text h)

pub impossible : ◌≡◌ {A = Bool} false true → ⊥
impossible h = cc
