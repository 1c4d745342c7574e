-- ===== src/Gts/Lexer/Table.antt =====
-- crates/night24-gts/src/lexer/lexer.rs: each row of the table of arms.
use night.Gts.Lexer.{Lexer, peek}
use night.Gts.Lexer.Operators.{find_arm, Arm, arms, one, then_if, if_next, two, then_both}
use night.Prelude.{
  some-eq, ◌==◌, Bool-cases, ℕ, ◌≡◌, refl, inl, inr, false, some, List, ◌∷◌, arith, [],
}
use night.Gts.Lexer.Arms.{
  is_unreached, Fine, one-Fine, then_if-Fine, if_next-Fine, two-Fine, twice-Fine, equals-Fine,
  exclamation-Fine, greater-Fine, ampersand-Fine, bar-Fine, dots-Fine,
}
use night.Gts.Token.{
  percent, eq, question, TokenKind, l_paren, r_paren, l_brace, r_brace, l_brack, r_brack, comma,
  semi, colon, tilde, caret_eq, caret, qm_qm, qm_dot, plus_plus, plus_eq, plus, minus_minus,
  minus_eq, minus, pow_eq, pow, star_eq, star, slash_eq, slash, percent_eq, arrow, l_shift_eq,
  l_shift, lt_eq, lt, gt_eq, gt, dot,
}

-- What holds of every row.
abbrev EachRow {ℓ} : {A : Type ℓ} → (A → Type 0) → List (ℕ × A) → Type 0
EachRow P [] = Unit
EachRow P ((k, a) ∷ rows) = P a × EachRow P rows

infixr 20 ◌also◌
◌also◌ : {A B : Type 0} → A → B → A × B
a also b = (a, b)

find_arm-EachRow {ℓ} :
    {A : Type ℓ} (P : A → Type 0) (rows : List (ℕ × A)) (ch : ℕ) (a : A)
    → EachRow P rows
    → find_arm ch rows ≡ some a
    → P a
unfolding find_arm
find_arm-EachRow P [] ch a h e = ground arith
find_arm-EachRow P ((k, b) ∷ rows) ch a (row, h) e = elim (Bool-cases (ch == k)) [
  | inl same ↦ rw (← some-eq (rw same at e)) row
  | inr other ↦ find_arm-EachRow P rows ch a h (rw other at e)
]

abbrev FineArm : Arm → Type 0
FineArm arm = (l : Lexer) → (peek l == 0) ≡ false → Fine l (arm l)

one_fine : (kind : TokenKind) → is_unreached kind ≡ false → FineArm (one kind)
one_fine kind h l n = one-Fine kind l h

then_if_fine :
    (kind other : TokenKind)
    → is_unreached kind ≡ false
    → is_unreached other ≡ false
    → FineArm (then_if 61 kind other)
then_if_fine kind other f g l n = then_if-Fine 61 kind other l f g

-- Two characters, or one.
either_fine :
    (a : ℕ) (kind other : TokenKind)
    → is_unreached kind ≡ false
    → is_unreached other ≡ false
    → FineArm (if_next a (two kind) (one other))
either_fine a kind other f g l n =
    if_next-Fine a (two kind) (one other) l (λ t. two-Fine kind l f) (one-Fine other l g)

next_fine :
    (a : ℕ) (first other : Arm) → FineArm first → FineArm other → FineArm (if_next a first other)
next_fine a first other f g l n = if_next-Fine a first other l (λ t. f l n) (g l n)

twice_fine :
    (ch : ℕ) (kind other : TokenKind) (arm : Arm)
    → (ch == 61) ≡ false
    → is_unreached other ≡ false
    → FineArm arm
    → FineArm (if_next ch (then_both 61 kind other) arm)
twice_fine ch kind other arm d g h l n =
    if_next-Fine ch (then_both 61 kind other) arm l (λ t. twice-Fine ch kind other l d n g t)
      (h l n)

two_fine : (kind : TokenKind) → is_unreached kind ≡ false → FineArm (two kind)
two_fine kind h l n = two-Fine kind l h

arms-Fine : EachRow FineArm arms
unfolding is_unreached
arms-Fine =
    one_fine l_paren refl
    also one_fine r_paren refl
    also one_fine l_brace refl
    also one_fine r_brace refl
    also one_fine l_brack refl
    also one_fine r_brack refl
    also one_fine comma refl
    also one_fine semi refl
    also one_fine colon refl
    also one_fine tilde refl
    also then_if_fine caret_eq caret refl refl
    also next_fine 63 _ _ (two_fine qm_qm refl) (either_fine 46 qm_dot question refl refl)
    also next_fine 43 _ _ (two_fine plus_plus refl) (either_fine 61 plus_eq plus refl refl)
    also next_fine 45 _ _ (two_fine minus_minus refl) (either_fine 61 minus_eq minus refl refl)
    also twice_fine 42 pow_eq pow _ refl refl (either_fine 61 star_eq star refl refl)
    also either_fine 61 slash_eq slash refl refl
    also then_if_fine percent_eq percent refl refl
    also next_fine 61 _ _ (λ l n. equals-Fine l) (either_fine 62 arrow eq refl refl)
    also (λ l n. exclamation-Fine l)
    also twice_fine 60 l_shift_eq l_shift _ refl refl (either_fine 61 lt_eq lt refl refl)
    also next_fine 62 _ _ (λ l n. greater-Fine l) (either_fine 61 gt_eq gt refl refl)
    also (λ l n. ampersand-Fine l)
    also (λ l n. bar-Fine l)
    also next_fine 46 _ _ (λ l n. dots-Fine l) (one_fine dot refl)
    also tt

pub find_arm-Fine :
    (ch : ℕ) (arm : Arm) (l : Lexer)
    → find_arm ch arms ≡ some arm
    → (peek l == 0) ≡ false
    → Fine l (arm l)
find_arm-Fine ch arm l e n = find_arm-EachRow FineArm arms ch arm arms-Fine e l n
