-- ===== src/Examples/Tokens.antt =====
-- Runs of crates/night24-gts/src/lexer/lexer.rs.
use night.Gts.Lexer.Skipping.{skip_whitespace_and_comments-Stops}
use night.Gts.Value.{find_text}
use night.Gts.Token.{
  pow_eq, lookup_ident, TokenKind, ident_token, l_shift_eq, regexp_token, Token, pow, eq, illegal,
  number_token, string_token, slash, eof,
}
use night.Gts.Lexer.Regexps.{read_regexp, has_regexp_terminator}
use night.Gts.Lexer.Next.{next_token}
use night.Text.{Text, lit}
use night.Gts.Lexer.{Chars, new, at_trivia, skip_whitespace_and_comments}
use night.Prelude.{
  leb, if◌then◌else◌, ltb→lt, length, ◌≡◌, refl, ◌≢◌, true, ◌&&◌, ◌||◌, List, ◌∷◌, map, [], false,
}
use night.Gts.Lexer.Sources.{
  tokens, Every, Stands, InOrder, ends, tokens-Every-Stands, tokens-InOrder, ends-tokens,
  next_token-assigns,
}
use night.Gts.Lexer.Words.{read_regexp_lem}

abbrev ascii : Chars
ascii = record {
  is_alphabetic = λ ch. (leb 97 ch && leb ch 122) || (leb 65 ch && leb ch 90);
  debug = λ ch. ch ∷ [];
}

abbrev source : Text
source = lit "a /* b */ **= 0x1f; // c\n\"d\""

tokens-Every-Stands_example : Every (Stands source) (tokens ascii 40 (new source))
tokens-Every-Stands_example = tokens-Every-Stands ascii refl source 40

tokens-InOrder_example : InOrder 0 (tokens ascii 40 (new source))
tokens-InOrder_example = tokens-InOrder ascii refl source 40

ends-tokens_example : ends (tokens ascii 40 (new source)) ≡ true
ends-tokens_example = ends-tokens ascii refl source 40 (ltb→lt (length source) 40 refl)

next_token-assigns_example :
    ((next_token ascii (new (lit "**=="))).0.kind ≢ pow_eq)
    × ((next_token ascii (new (lit "**=="))).0.kind ≢ l_shift_eq)
next_token-assigns_example = next_token-assigns ascii refl (new (lit "**=="))

read_regexp_lem_example :
    (read_regexp ascii (new (lit "/[/]a/g+"))).0
    ≡ (if has_regexp_terminator (new (lit "/[/]a/g+")) then regexp_token else illegal)
read_regexp_lem_example = read_regexp_lem ascii (new (lit "/[/]a/g+")) refl

skip_whitespace_and_comments-Stops_example :
    at_trivia (skip_whitespace_and_comments (new (lit " /* a /* b */ */ c"))) ≡ false
skip_whitespace_and_comments-Stops_example =
    skip_whitespace_and_comments-Stops (new (lit " /* a /* b */ */ c"))

abbrev kinds : Text → List TokenKind
kinds text = map (λ (tok : Token). tok.kind) (tokens ascii 20 (new text))

-- `**=` is two tokens.
power : kinds (lit "a **= 2") ≡ ident_token ∷ pow ∷ eq ∷ number_token ∷ eof ∷ []
unfolding tokens night.Gts.Lexer.Sources.is_eof next_token night.Gts.Lexer.Next.token_at
    night.Gts.Lexer.skip_whitespace_and_comments night.Gts.Lexer.loop_while
    night.Gts.Lexer.Operators.find_arm lookup_ident find_text night.Text.text_eq
    night.Gts.Lexer.Regexps.read_identifier night.Gts.Lexer.Readers.push_while
    night.Gts.Lexer.advance_over night.Gts.Lexer.pass night.Text.is_ascii_digit
    night.Gts.Lexer.Next.record_token night.Gts.Lexer.skip_one night.Gts.Lexer.Readers.digits_of
    night.Gts.Lexer.Readers.read_number night.Gts.Lexer.Readers.read_string
    night.Gts.Lexer.Readers.read_template night.Gts.Lexer.Regexps.can_follow has_regexp_terminator
    read_regexp night.Gts.Lexer.Regexps.regexp_end night.Gts.Lexer.Regexps.terminated
    night.Gts.Lexer.add_error
power = refl

-- A string is not recorded as the previous token, so that a division behind it is read as a regexp.
division :
    kinds (lit "x = 'a' / b / c")
    ≡ ident_token ∷ eq ∷ string_token ∷ regexp_token ∷ ident_token ∷ eof ∷ []
unfolding tokens night.Gts.Lexer.Sources.is_eof next_token night.Gts.Lexer.Next.token_at
    night.Gts.Lexer.skip_whitespace_and_comments night.Gts.Lexer.loop_while
    night.Gts.Lexer.Operators.find_arm lookup_ident find_text night.Text.text_eq
    night.Gts.Lexer.Regexps.read_identifier night.Gts.Lexer.Readers.push_while
    night.Gts.Lexer.advance_over night.Gts.Lexer.pass night.Text.is_ascii_digit
    night.Gts.Lexer.Next.record_token night.Gts.Lexer.skip_one night.Gts.Lexer.Readers.digits_of
    night.Gts.Lexer.Readers.read_number night.Gts.Lexer.Readers.read_string
    night.Gts.Lexer.Readers.read_template night.Gts.Lexer.Regexps.can_follow has_regexp_terminator
    read_regexp night.Gts.Lexer.Regexps.regexp_end night.Gts.Lexer.Regexps.terminated
    night.Gts.Lexer.add_error
division = refl

-- The same division behind a name.
division_of_name :
    kinds (lit "x = a / b / c")
    ≡ ident_token ∷ eq ∷ ident_token ∷ slash ∷ ident_token ∷ slash ∷ ident_token ∷ eof ∷ []
unfolding tokens night.Gts.Lexer.Sources.is_eof next_token night.Gts.Lexer.Next.token_at
    night.Gts.Lexer.skip_whitespace_and_comments night.Gts.Lexer.loop_while
    night.Gts.Lexer.Operators.find_arm lookup_ident find_text night.Text.text_eq
    night.Gts.Lexer.Regexps.read_identifier night.Gts.Lexer.Readers.push_while
    night.Gts.Lexer.advance_over night.Gts.Lexer.pass night.Text.is_ascii_digit
    night.Gts.Lexer.Next.record_token night.Gts.Lexer.skip_one night.Gts.Lexer.Readers.digits_of
    night.Gts.Lexer.Readers.read_number night.Gts.Lexer.Readers.read_string
    night.Gts.Lexer.Readers.read_template night.Gts.Lexer.Regexps.can_follow has_regexp_terminator
    read_regexp night.Gts.Lexer.Regexps.regexp_end night.Gts.Lexer.Regexps.terminated
    night.Gts.Lexer.add_error
division_of_name = refl

-- A template that its source ends in is not reported where it is its opening mark only.
lone_mark : (next_token ascii (new (96 ∷ []))).1.errors ≡ []
unfolding tokens night.Gts.Lexer.Sources.is_eof next_token night.Gts.Lexer.Next.token_at
    night.Gts.Lexer.skip_whitespace_and_comments night.Gts.Lexer.loop_while
    night.Gts.Lexer.Operators.find_arm lookup_ident find_text night.Text.text_eq
    night.Gts.Lexer.Regexps.read_identifier night.Gts.Lexer.Readers.push_while
    night.Gts.Lexer.advance_over night.Gts.Lexer.pass night.Text.is_ascii_digit
    night.Gts.Lexer.Next.record_token night.Gts.Lexer.skip_one night.Gts.Lexer.Readers.digits_of
    night.Gts.Lexer.Readers.read_number night.Gts.Lexer.Readers.read_string
    night.Gts.Lexer.Readers.read_template night.Gts.Lexer.Regexps.can_follow has_regexp_terminator
    read_regexp night.Gts.Lexer.Regexps.regexp_end night.Gts.Lexer.Regexps.terminated
    night.Gts.Lexer.add_error
lone_mark = refl

open_template : length (next_token ascii (new (96 ∷ 97 ∷ []))).1.errors ≡ 1
unfolding tokens night.Gts.Lexer.Sources.is_eof next_token night.Gts.Lexer.Next.token_at
    night.Gts.Lexer.skip_whitespace_and_comments night.Gts.Lexer.loop_while
    night.Gts.Lexer.Operators.find_arm lookup_ident find_text night.Text.text_eq
    night.Gts.Lexer.Regexps.read_identifier night.Gts.Lexer.Readers.push_while
    night.Gts.Lexer.advance_over night.Gts.Lexer.pass night.Text.is_ascii_digit
    night.Gts.Lexer.Next.record_token night.Gts.Lexer.skip_one night.Gts.Lexer.Readers.digits_of
    night.Gts.Lexer.Readers.read_number night.Gts.Lexer.Readers.read_string
    night.Gts.Lexer.Readers.read_template night.Gts.Lexer.Regexps.can_follow has_regexp_terminator
    read_regexp night.Gts.Lexer.Regexps.regexp_end night.Gts.Lexer.Regexps.terminated
    night.Gts.Lexer.add_error
open_template = refl
