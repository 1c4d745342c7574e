-- ===== src/Gts/Lexer/Literals.antt =====
-- crates/night24-gts/src/lexer/lexer.rs: the readers push the characters that they pass over.
use night.Gts.Lexer.Spans.{
  impossible, Spans, loop_while-keeps, add_error-Spans, loop_while-ends, Spans-trans, left-advance,
  Spans-refl, advance-Spans, Spans-left, loop_while_go,
}
use night.Text.{Text, is_ascii_digit}
use night.Gts.Lexer.Readers.{
  Reading, push_while, digits_of, read_number, fail, read_fraction, read_sign, read_exponent,
  read_decimal, push, reading, is_hex_digit, is_binary_digit, is_octal_digit,
}
use night.Prelude.{
  ◌==◌, ==_iff, Bool-cases, Option-cases, ℕ, ◌≡◌, refl, sym, ap, ◌∙◌, inl, inr, Bool, true, false,
  ◌&&◌, ◌||◌, none, some, ◌∷◌, arith, [], some-eq, length, length-append, ◌<◌, suc,
}
use night.Gts.Lexer.{Lexer, peek, peek_at, left, advance}

-- What has been read stands behind the start, and is not empty.
abbrev pub Reads : Lexer → Reading → Type 0
Reads l r = Spans l r.text r.lexer × (0 < length r.text)

push-Spans :
    (l : Lexer) (r : Reading)
    → (peek r.lexer == 0) ≡ false
    → Spans l r.text r.lexer
    → Reads l (push r)
push-Spans l r live h = (
  Spans-trans l r.lexer (advance r.lexer) r.text (peek r.lexer ∷ []) h
      (advance-Spans r.lexer live).0,
  omega (arith, length-append {0} r.text (peek r.lexer ∷ [])),
)

-- The first character is pushed.
pub first-Reads : (l : Lexer) → (peek l == 0) ≡ false → Reads l (push (reading l))
first-Reads l live = push-Spans l (reading l) live (Spans-refl l)

pub push-Reads :
    (l : Lexer) (r : Reading) → (peek r.lexer == 0) ≡ false → Reads l r → Reads l (push r)
push-Reads l r live h = push-Spans l r live h.0

pub fail-Reads : (l : Lexer) (msg : Text) (r : Reading) → Reads l r → Reads l (fail msg r)
fail-Reads l msg r h = (add_error-Spans l r.lexer r.text msg h.0, h.1)

-- A test that NUL does not pass.
live : (p : ℕ → Bool) (c : ℕ) → p 0 ≡ false → p c ≡ true → (c == 0) ≡ false
live p c dead passes = elim (Bool-cases (c == 0)) [
  | inl t ↦
      let same : c ≡ 0 = (==_iff c 0).0 t in
      absurd (impossible (sym dead ∙ (ap p (sym same) ∙ passes)))
  | inr f ↦ f
]

pub push_while-Reads :
    (l : Lexer) (p : ℕ → Bool) (r : Reading) → p 0 ≡ false → Reads l r → Reads l (push_while p r)
unfolding push_while
push_while-Reads l p r dead h =
    loop_while-keeps (Reads l) _ push (λ s t k. push-Reads l s (live p (peek s.lexer) dead t) k)
      (left r.lexer) r h

push_while_first :
    (p : ℕ → Bool) (r : Reading)
    → (peek r.lexer == 0) ≡ false
    → p (peek r.lexer) ≡ true
    → push_while p r ≡ push_while p (push r)
unfolding push_while
push_while_first p r live t =
    let more : left r.lexer ≡ suc (left (advance r.lexer)) = omega (
      arith,
      Spans-left r.lexer (advance r.lexer) (peek r.lexer ∷ []) (advance-Spans r.lexer live).0,
    ) in
    rw more (loop_while_go (λ (s : Reading). p (peek s.lexer)) push (left (advance r.lexer)) r t)

-- From the start, where the first character is in the class.
pub push_while-first-Reads :
    (l : Lexer) (p : ℕ → Bool)
    → p 0 ≡ false
    → p (peek l) ≡ true
    → Reads l (push_while p (reading l))
push_while-first-Reads l p dead t =
    let live : (peek l == 0) ≡ false = live p (peek l) dead t in
    rw (push_while_first p (reading l) live t)
      (push_while-Reads l p (push (reading l)) dead (first-Reads l live))

-- The loop ends at a character that is not in the class.
push_while-Stops :
    (p : ℕ → Bool) (r : Reading) → p 0 ≡ false → p (peek (push_while p r).lexer) ≡ false
unfolding push_while
push_while-Stops p r dead =
    loop_while-ends (λ (s : Reading). left s.lexer) (λ s. p (peek s.lexer)) push
      (λ s t. left-advance s.lexer (live p (peek s.lexer) dead t)) (left r.lexer) r (omega arith)

push_if-Reads :
    (l : Lexer) (p : ℕ → Bool) (r : Reading)
    → p 0 ≡ false
    → p (peek r.lexer) ≡ true
    → Reads l r
    → Reads l (push r)
push_if-Reads l p r dead passes h = push-Reads l r (live p (peek r.lexer) dead passes) h

read_fraction-Reads : (l : Lexer) (r : Reading) → Reads l r → Reads l (read_fraction r)
unfolding is_ascii_digit
read_fraction-Reads l r h =
    elim (Bool-cases (peek r.lexer == 46 && is_ascii_digit (peek_at 1 r.lexer))) [
      | inl t ↦
          rw t (push_while-Reads l is_ascii_digit (push r) refl (push-Reads l r (ground arith) h))
      | inr f ↦ rw f h
    ]

read_sign-Reads : (l : Lexer) (r : Reading) → Reads l r → Reads l (read_sign r)
read_sign-Reads l r h = elim (Bool-cases (peek r.lexer == 43 || peek r.lexer == 45)) [
  | inl t ↦ rw t (push_if-Reads l (λ c. c == 43 || c == 45) r refl t h)
  | inr f ↦ rw f h
]

read_exponent-Reads : (l : Lexer) (r : Reading) → Reads l r → Reads l (read_exponent r)
unfolding is_ascii_digit
read_exponent-Reads l r h = elim (Bool-cases (peek r.lexer == 101 || peek r.lexer == 69)) [
  | inl t ↦ rw t (
      push_while-Reads l is_ascii_digit (read_sign (push r)) refl
        (read_sign-Reads l (push r) (push_if-Reads l (λ c. c == 101 || c == 69) r refl t h)))
  | inr f ↦ rw f h
]

read_decimal-Reads :
    (l : Lexer) → is_ascii_digit (peek l) ≡ true → Reads l (read_decimal (reading l))
unfolding is_ascii_digit
read_decimal-Reads l digit =
    read_exponent-Reads l _
      (read_fraction-Reads l _ (push_while-first-Reads l is_ascii_digit refl digit))

class_dead : (q p : ℕ → Bool) → q 0 ≡ false → some q ≡ some p → p 0 ≡ false
class_dead q p h e = ap (λ f. f 0) (sym (some-eq e)) ∙ h

none-some : (p : ℕ → Bool) → none ≡ some p → ⊥
none-some p h = cc

digits_of-some : (c : ℕ) (p : ℕ → Bool) → digits_of c ≡ some p → ((c == 0) ≡ false) × (p 0 ≡ false)
unfolding digits_of is_ascii_digit
digits_of-some c p h = elim (Bool-cases (c == 120 || c == 88)) [
  | inl t ↦ (ground arith, class_dead is_hex_digit p refl (rw (t, digits_of) at h))
  | inr f ↦ elim (Bool-cases (c == 98 || c == 66)) [
    | inl t ↦ (ground arith, class_dead is_binary_digit p refl (rw (f, t, digits_of) at h))
    | inr g ↦ elim (Bool-cases (c == 111 || c == 79)) [
      | inl t ↦ (ground arith, class_dead is_octal_digit p refl (rw (f, g, t, digits_of) at h))
      | inr k ↦ absurd (none-some p (rw (f, g, k, digits_of) at h))
    ]
  ]
]

pub read_number-Reads : (l : Lexer) → is_ascii_digit (peek l) ≡ true → Reads l (read_number l)
unfolding read_number
read_number-Reads l digit = elim (Bool-cases (peek l == 48)) [
  | inl t ↦ elim (Option-cases (digits_of (peek_at 1 l))) [
    | inl n ↦ rw (t, n, read_number) (read_decimal-Reads l digit)
    | inr (p, f) ↦
        let (next, dead) = digits_of-some (peek_at 1 l) p f in
        let first : (peek l == 0) ≡ false = ground arith in
        rw (t, f, read_number)
          (push_while-Reads l p (push (push (reading l))) dead (
            push-Reads l (push (reading l)) (rw ((advance-Spans l first).1) next)
              (first-Reads l first)))
  ]
  | inr f ↦ rw (f, read_number) (read_decimal-Reads l digit)
]
