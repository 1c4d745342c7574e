-- ===== src/Gts/Lexer/Readers.antt =====
-- crates/night24-gts/src/lexer/lexer.rs: the readers of the tokens that are no operators. A reader has
-- pushed the characters of `text`.
use night.Gts.Token.{TokenKind, string_token, template_token}
use night.Text.{Text, is_ascii_digit, lit}
use night.Prelude.{
  not, ltb, leb, ◌==◌, if◌then◌else◌, ℕ, ◌+◌, ◌-◌, Bool, true, false, ◌&&◌, ◌||◌, Option, none,
  some, ◌∷◌, ◌++◌, [],
}
use night.Gts.Lexer.{Lexer, peek, loop_while, peek_at, advance, left, add_error}

pub record Reading : Type 0 where
  pub text : Text
  pub lexer : Lexer

-- `out.push(self.advance())`
abbrev pub push : Reading → Reading
push r = record { text = r.text ++ peek r.lexer ∷ []; lexer = advance r.lexer }

abbrev pub reading : Lexer → Reading
reading l = record { text = []; lexer = l }

-- `while p(self.peek()) { out.push(self.advance()); }`
unfoldable pub push_while : (ℕ → Bool) → Reading → Reading
push_while p r = loop_while (left r.lexer) (λ r. p (peek r.lexer)) push r

-- `is_digit` is `is_ascii_digit`.
abbrev pub is_hex_digit : ℕ → Bool
is_hex_digit ch = is_ascii_digit ch || (leb 97 ch && leb ch 102) || (leb 65 ch && leb ch 70)

abbrev pub is_binary_digit : ℕ → Bool
is_binary_digit ch = ch == 48 || ch == 49

abbrev pub is_octal_digit : ℕ → Bool
is_octal_digit ch = leb 48 ch && leb ch 55

-- The digits behind `0x`, `0b` or `0o`.
unfoldable pub digits_of : ℕ → Option (ℕ → Bool)
digits_of ch =
    if ch == 120 || ch == 88
    then some is_hex_digit
    else if ch == 98 || ch == 66
    then some is_binary_digit
    else if ch == 111 || ch == 79
    then some is_octal_digit
    else none

abbrev pub read_fraction : Reading → Reading
read_fraction r =
    if peek r.lexer == 46 && is_ascii_digit (peek_at 1 r.lexer)
    then push_while is_ascii_digit (push r)
    else r

abbrev pub read_sign : Reading → Reading
read_sign r = if peek r.lexer == 43 || peek r.lexer == 45 then push r else r

abbrev pub read_exponent : Reading → Reading
read_exponent r =
    if peek r.lexer == 101 || peek r.lexer == 69
    then push_while is_ascii_digit (read_sign (push r))
    else r

abbrev pub read_decimal : Reading → Reading
read_decimal r = read_exponent (read_fraction (push_while is_ascii_digit r))

unfoldable pub read_number : Lexer → Reading
read_number l =
    if peek l == 48
    then elim (digits_of (peek_at 1 l)) [
      | some p ↦ push_while p (push (push (reading l)))
      | none ↦ read_decimal (reading l)
    ]
    else read_decimal (reading l)

-- A round of `read_string`.
abbrev pub string_round : Reading → Reading
string_round r =
    let escaped = push r in
    if peek r.lexer == 92
    then (if peek escaped.lexer == 0 then escaped else push escaped)
    else escaped

abbrev pub in_string : ℕ → Reading → Bool
in_string quote r =
    not (peek r.lexer == quote) && not (peek r.lexer == 0) && not (peek r.lexer == 10)

-- The token's parts: its kind, its literal and the lexer behind it.
abbrev pub Lexeme : Type 0
Lexeme = TokenKind × Reading

abbrev pub fail : Text → Reading → Reading
fail msg r = record r { lexer = add_error msg r.lexer }

unfoldable pub read_string : ℕ → Lexer → Lexeme
read_string quote l =
    let r = push (reading l) in
    let end = loop_while (left r.lexer) (in_string quote) string_round r in
    (
      string_token,
      if not (peek end.lexer == quote)
          then fail (lit "unterminated string literal") end
          else push end,
    )

-- The state of the loop of `read_template`; `closed` is its `break`.
pub record Template : Type 0 where
  pub out : Reading
  pub expr_depth : ℕ
  pub quote : ℕ
  pub escape : Bool
  pub closed : Bool

-- A character inside quotes, outside of `${`, and inside of it.
abbrev pub quoted_round : ℕ → Template → Template
quoted_round ch t =
    if t.escape
    then record t { out = push t.out; escape = false }
    else if ch == 92
    then record t { out = push t.out; escape = true }
    else record t { out = push t.out; quote = if ch == t.quote then 0 else t.quote }

abbrev pub plain_round : ℕ → Template → Template
plain_round ch t =
    if ch == 96
    then record t { out = push t.out; closed = true }
    else if ch == 36 && peek_at 1 t.out.lexer == 123
    then record t { out = push (push t.out); expr_depth = 1 }
    else record t { out = push t.out }

abbrev pub expr_round : ℕ → Template → Template
expr_round ch t = record t {
  out = push t.out;
  quote = if ch == 39 || ch == 34 then ch else t.quote;
  expr_depth =
      if ch == 123 then t.expr_depth + 1 else if ch == 125 then t.expr_depth - 1 else t.expr_depth;
}

abbrev pub template_round : Template → Template
template_round t =
    let ch = peek t.out.lexer in
    if not (t.quote == 0)
    then quoted_round ch t
    else if t.expr_depth == 0
    then plain_round ch t
    else expr_round ch t

-- `str::ends_with` of a character.
abbrev pub ends_with : ℕ → Text → Bool
ends_with ch [] = false
ends_with ch (c ∷ []) = c == ch
ends_with ch (c ∷ d ∷ text) = ends_with ch (d ∷ text)

unfoldable pub read_template : Lexer → Lexeme
read_template l =
    let start : Template = record {
      out = push (reading l);
      expr_depth = 0;
      quote = 0;
      escape = false;
      closed = false;
    } in
    let end =
      loop_while (left l) (λ (t : Template). not t.closed && not (peek t.out.lexer == 0))
        template_round start in
    (
      template_token,
      if ltb 0 end.expr_depth || not (ends_with 96 end.out.text)
          then fail (lit "unterminated template literal") end.out
          else end.out,
    )
