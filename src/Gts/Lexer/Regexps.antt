-- ===== src/Gts/Lexer/Regexps.antt =====
-- crates/night24-gts/src/lexer/lexer.rs: names and regexp literals, and when a slash starts one.
use night.Gts.Lexer.Readers.{Reading, push, reading, push_while, Lexeme, fail}
use night.Text.{Text, is_ascii_digit, lit}
use night.Prelude.{not, ◌==◌, if◌then◌else◌, drop, ℕ, Bool, true, false, ◌&&◌, ◌||◌, ◌∷◌, []}
use night.Gts.Lexer.{Lexer, peek, Chars, loop_while, left}
use night.Gts.Token.{
  amp, amp_eq, and_and, arrow, bang, caret, caret_eq, colon, comma, eof, eq, eq_eq_eq, gt, gt_eq,
  kw_await, kw_delete, kw_return, kw_throw, kw_typeof, kw_void, l_brace, l_brack, l_paren,
  l_shift_eq, lt, lt_eq, minus, minus_eq, neq_eq, or_or, percent, percent_eq, pipe, pipe_eq, plus,
  plus_eq, pow, pow_eq, qm_qm, question, r_shift_eq, semi, slash, slash_eq, star, star_eq, tilde,
  ur_shift_eq, TokenKind, regexp_token, illegal,
}

-- The kinds of the previous token in `can_start_regexp`.
unfoldable pub can_follow : TokenKind → Bool
can_follow eof = true
can_follow l_paren = true
can_follow l_brace = true
can_follow l_brack = true
can_follow comma = true
can_follow semi = true
can_follow colon = true
can_follow eq = true
can_follow plus = true
can_follow minus = true
can_follow star = true
can_follow slash = true
can_follow percent = true
can_follow pow = true
can_follow bang = true
can_follow amp = true
can_follow pipe = true
can_follow caret = true
can_follow tilde = true
can_follow question = true
can_follow arrow = true
can_follow eq_eq_eq = true
can_follow neq_eq = true
can_follow lt = true
can_follow lt_eq = true
can_follow gt = true
can_follow gt_eq = true
can_follow and_and = true
can_follow or_or = true
can_follow qm_qm = true
can_follow plus_eq = true
can_follow minus_eq = true
can_follow star_eq = true
can_follow slash_eq = true
can_follow percent_eq = true
can_follow pow_eq = true
can_follow l_shift_eq = true
can_follow r_shift_eq = true
can_follow ur_shift_eq = true
can_follow amp_eq = true
can_follow pipe_eq = true
can_follow caret_eq = true
can_follow kw_return = true
can_follow kw_throw = true
can_follow kw_delete = true
can_follow kw_typeof = true
can_follow kw_void = true
can_follow kw_await = true
can_follow _ = false

-- The loop of `has_regexp_terminator`.
unfoldable pub terminated : Bool → Bool → Text → Bool
terminated in_class escape [] = false
terminated in_class escape (ch ∷ text) =
    let escaped = terminated in_class false text in
    let escaping = terminated in_class true text in
    let inside = terminated (not (ch == 93)) false text in
    let opening = terminated true false text in
    let plain = terminated false false text in
    if ch == 0 || ch == 10
    then false
    else if escape
    then escaped
    else if ch == 92
    then escaping
    else if in_class
    then inside
    else if ch == 91
    then opening
    else if ch == 47
    then true
    else plain

unfoldable pub has_regexp_terminator : Lexer → Bool
has_regexp_terminator l = terminated false false (drop 1 l.rest)

-- The state of the loop of `read_regexp`; `closed` is its `return`.
pub record Regexp : Type 0 where
  pub out : Reading
  pub in_class : Bool
  pub escape : Bool
  pub closed : Bool

abbrev pub regexp_round : Regexp → Regexp
regexp_round r =
    let ch = peek r.out.lexer in
    if r.escape
    then record r { out = push r.out; escape = false }
    else if ch == 92
    then record r { out = push r.out; escape = true }
    else if r.in_class
    then record r { out = push r.out; in_class = not (ch == 93) }
    else if ch == 91
    then record r { out = push r.out; in_class = true }
    else if ch == 47
    then record r { out = push r.out; closed = true }
    else record r { out = push r.out }

abbrev pub in_regexp : Regexp → Bool
in_regexp r = not r.closed && not (peek r.out.lexer == 0) && not (peek r.out.lexer == 10)

unfoldable pub regexp_end : Lexer → Regexp
regexp_end l =
    let start : Regexp = record {
      out = push (reading l);
      in_class = false;
      escape = false;
      closed = false;
    } in
    loop_while (left start.out.lexer) in_regexp regexp_round start

module _ (chars : Chars) where
  abbrev pub is_letter : ℕ → Bool
  is_letter ch = ch == 95 || ch == 36 || chars.is_alphabetic ch

  unfoldable pub read_identifier : Lexer → Reading
  read_identifier l = push_while (λ ch. is_letter ch || is_ascii_digit ch) (reading l)

  unfoldable pub read_regexp : Lexer → Lexeme
  read_regexp l =
      let end = regexp_end l in
      if end.closed
      then (regexp_token, push_while is_letter end.out)
      else (illegal, fail (lit "unterminated regexp literal") end.out)
