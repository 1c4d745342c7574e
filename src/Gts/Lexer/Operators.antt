-- ===== src/Gts/Lexer/Operators.antt =====
-- crates/night24-gts/src/lexer/lexer.rs: the arms of `next_token` for operators and delimiters.
use night.Text.{lit}
use night.Prelude.{◌==◌, if◌then◌else◌, ℕ, Option, none, some, List, ◌∷◌, []}
use night.Gts.Lexer.{Lexer, peek_at, advance, peek, add_error}
use night.Gts.Token.{
  l_paren, r_paren, l_brace, r_brace, l_brack, r_brack, comma, semi, colon, tilde, caret_eq, caret,
  qm_qm, qm_dot, question, plus_plus, plus_eq, plus, minus_minus, minus_eq, minus, pow_eq, pow,
  star_eq, star, slash_eq, slash, percent_eq, percent, eq_eq_eq, illegal, arrow, eq, neq_eq, bang,
  l_shift_eq, l_shift, lt_eq, lt, ur_shift_eq, ur_shift, r_shift_eq, r_shift, gt_eq, gt, and_and,
  amp_eq, amp, or_or, pipe_eq, pipe, dot_dot_eq, ellipsis, dot_dot, dot, TokenKind,
}

-- The kind of a token and the lexer behind it.
abbrev pub Arm : Type 0
Arm = Lexer → TokenKind × Lexer

abbrev pub one : TokenKind → Arm
one kind l = (kind, advance l)

abbrev pub two : TokenKind → Arm
two kind l = (kind, advance (advance l))

-- By the next character: `self.peek_at(1)`.
abbrev pub if_next : ℕ → Arm → Arm → Arm
if_next ch first other l = if peek_at 1 l == ch then first l else other l

-- After a first `advance`.
abbrev pub then_if : ℕ → TokenKind → TokenKind → Arm
then_if ch kind other l =
    let next = advance l in if peek next == ch then (kind, advance next) else (other, next)

-- After a first `advance`, with another one in both cases.
abbrev pub then_both : ℕ → TokenKind → TokenKind → Arm
then_both ch kind other l =
    let next = advance l in (if peek next == ch then kind else other, advance next)

abbrev pub equals : Arm
equals l =
    let next = advance l in
    if peek_at 1 next == 61 then (eq_eq_eq, advance (advance next)) else (
      illegal,
      add_error (lit "'==' is not allowed in GoScript; use '===' for strict equality")
          (advance next),
    )

abbrev pub exclamation : Arm
exclamation l =
    let next = advance l in
    let last = advance next in
    if peek next == 61
    then (if peek last == 61 then (neq_eq, advance last) else (
      illegal,
      add_error (lit "'!=' is not allowed in GoScript; use '!==' for strict inequality") last,
    ))
    else (bang, next)

abbrev pub greater : Arm
greater l =
    let next = advance l in
    let last = advance next in
    if peek_at 1 next == 62
    then (if peek_at 1 last == 61
        then (ur_shift_eq, advance (advance last))
        else (ur_shift, advance last))
    else if peek_at 1 next == 61
    then (r_shift_eq, advance last)
    else (r_shift, last)

abbrev pub ampersand : Arm
ampersand l =
    let next = advance l in
    if peek next == 38
    then (and_and, advance next)
    else if peek next == 61
    then (amp_eq, advance next)
    else (amp, next)

abbrev pub bar : Arm
bar l =
    let next = advance l in
    if peek next == 124
    then (or_or, advance next)
    else if peek next == 61
    then (pipe_eq, advance next)
    else (pipe, next)

abbrev pub dots : Arm
dots l =
    let next = advance l in
    let last = advance next in
    if peek_at 1 next == 61
    then (dot_dot_eq, advance last)
    else if peek_at 1 next == 46
    then (ellipsis, advance last)
    else (dot_dot, last)

-- The arms, by the first character. Comments have been skipped, so that a slash starts none.
abbrev pub arms : List (ℕ × Arm)
arms =
    (40, one l_paren)
    ∷ (41, one r_paren)
    ∷ (123, one l_brace)
    ∷ (125, one r_brace)
    ∷ (91, one l_brack)
    ∷ (93, one r_brack)
    ∷ (44, one comma)
    ∷ (59, one semi)
    ∷ (58, one colon)
    ∷ (126, one tilde)
    ∷ (94, then_if 61 caret_eq caret)
    ∷ (63, if_next 63 (two qm_qm) (if_next 46 (two qm_dot) (one question)))
    ∷ (43, if_next 43 (two plus_plus) (if_next 61 (two plus_eq) (one plus)))
    ∷ (45, if_next 45 (two minus_minus) (if_next 61 (two minus_eq) (one minus)))
    ∷ (42, if_next 42 (then_both 61 pow_eq pow) (if_next 61 (two star_eq) (one star)))
    ∷ (47, if_next 61 (two slash_eq) (one slash))
    ∷ (37, then_if 61 percent_eq percent)
    ∷ (61, if_next 61 equals (if_next 62 (two arrow) (one eq)))
    ∷ (33, exclamation)
    ∷ (60, if_next 60 (then_both 61 l_shift_eq l_shift) (if_next 61 (two lt_eq) (one lt)))
    ∷ (62, if_next 62 greater (if_next 61 (two gt_eq) (one gt)))
    ∷ (38, ampersand)
    ∷ (124, bar)
    ∷ (46, if_next 46 dots (one dot))
    ∷ []

unfoldable pub find_arm {ℓ} : {A : Type ℓ} → ℕ → List (ℕ × A) → Option A
find_arm ch [] = none
find_arm ch ((k, a) ∷ rows) = let rest = find_arm ch rows in if ch == k then some a else rest
