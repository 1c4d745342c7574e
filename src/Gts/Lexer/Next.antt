-- ===== src/Gts/Lexer/Next.antt =====
-- crates/night24-gts/src/lexer/lexer.rs: `next_token`, and the tokens of a whole source.
use night.Gts.Lexer.Operators.{find_arm, arms}
use night.Gts.Lexer.Regexps.{
  can_follow, has_regexp_terminator, read_regexp, is_letter, read_identifier,
}
use night.Gts.Lexer.Readers.{Lexeme, read_string, read_template, read_number}
use night.Text.{Text, lit, is_ascii_digit}
use night.Gts.Token.{TokenKind, Token, illegal, eof, lookup_ident, number_token}
use night.Prelude.{
  not, ltb, ◌==◌, if◌then◌else◌, take, ℕ, ◌+◌, ◌-◌, ◌/◌, ◌%◌, Bool, true, false, ◌&&◌, ◌||◌, none,
  some, ◌∷◌, ◌++◌, [],
}
use night.Gts.Lexer.{Lexer, Chars, peek, peek_at, skip_whitespace_and_comments, add_error, advance}

-- The `usize` and `char` of a token's place.
abbrev pub token : TokenKind → Text → Lexer → Token
token kind literal start = record {
  kind = kind;
  literal = literal;
  line = start.line;
  column = start.col;
  offset = start.pos;
}

abbrev pub is_recorded : TokenKind → Bool
is_recorded illegal = false
is_recorded eof = false
is_recorded _ = true

unfoldable pub record_token : TokenKind → Lexer → Lexer
record_token kind l = if is_recorded kind then record l { prev_token = kind } else l

abbrev upper_digit : ℕ → ℕ
upper_digit n = if ltb n 10 then 48 + n else 55 + n

-- `{:04X}` of a character, which has six digits at most.
abbrev hex_upper : ℕ → Text
hex_upper n =
    let four =
      upper_digit (n / 4096 % 16)
      ∷ upper_digit (n / 256 % 16)
      ∷ upper_digit (n / 16 % 16)
      ∷ upper_digit (n % 16)
      ∷ [] in
    if ltb n 0x10000
    then four
    else if ltb n 0x100000
    then upper_digit (n / 0x10000) ∷ four
    else upper_digit (n / 0x100000) ∷ upper_digit (n / 0x10000 % 16) ∷ four

-- A token whose literal was pushed.
abbrev pub pushed : Lexer → Lexeme → Token × Lexer
pushed start (kind, r) = (token kind r.text start, r.lexer)

abbrev pub recorded : Token × Lexer → Token × Lexer
recorded (tok, l) = (tok, record_token tok.kind l)

-- A token whose literal is the span of the source.
abbrev pub spanned : Lexer → TokenKind × Lexer → Token × Lexer
spanned start (kind, l) = (token kind (take (l.pos - start.pos) start.rest) start, l)

module _ (chars : Chars) where
  abbrev pub unexpected : Lexer → TokenKind × Lexer
  unexpected l =
      let ch = peek l in
      (
        illegal,
        add_error
            (lit "unexpected character: "
              ++ (chars.debug ch ++ (lit " (U+" ++ (hex_upper ch ++ lit ")"))))
            (advance l),
      )

  abbrev pub is_regexp : Lexer → Bool
  is_regexp l = not (peek_at 1 l == 61) && can_follow l.prev_token && has_regexp_terminator l

  -- `next_token` where no whitespace and no comment stands.
  unfoldable pub token_at : Lexer → Token × Lexer
  token_at l =
      let ch = peek l in
      if ch == 34 || ch == 39
      then pushed l (read_string ch l)
      else if ch == 96
      then pushed l (read_template l)
      else if ch == 0
      then spanned l (eof, l)
      else if ch == 47 && is_regexp l
      then recorded (pushed l (read_regexp chars l))
      else elim (find_arm ch arms) [
        | some arm ↦ recorded (spanned l (arm l))
        | none ↦
            if is_letter chars ch
            then (let r = read_identifier chars l in recorded (pushed l (lookup_ident r.text, r)))
            else if is_ascii_digit ch
            then recorded (pushed l (number_token, read_number l))
            else recorded (spanned l (unexpected l))
      ]

  unfoldable pub next_token : Lexer → Token × Lexer
  next_token l = token_at (skip_whitespace_and_comments l)
