-- ===== src/Gts/Lexer.antt =====
-- crates/night24-gts/src/lexer/lexer.rs: the cursor of the lexer, and what it skips. The characters from
-- `pos` on are `rest`. What Rust knows of Unicode is a parameter. A loop runs on the number of characters
-- left, since each round takes one.
pub mod Readers
pub mod Regexps
pub mod Operators
pub mod Next
pub mod Spans
pub mod Skipping
pub mod Literals
pub mod Quoted
pub mod Words
pub mod Arms
pub mod Table
pub mod Places
pub mod Sources
use night.Text.Decimal.{to_decimal}
use night.Text.{Text, lit}
use night.Prelude.{
  not, ltb, ◌==◌, if◌then◌else◌, length, get_elem?, ℕ, zero, suc, ◌+◌, ◌-◌, Bool, true, false, ◌&&◌,
  ◌||◌, none, some, List, ◌∷◌, ◌++◌, [],
}
use night.Gts.Token.{TokenKind, eof}

-- `char::is_alphabetic`, and `{:?}` of a character.
pub record Chars : Type 0 where
  pub is_alphabetic : ℕ → Bool
  pub debug : ℕ → Text

pub record Lexer : Type 0 where
  pub rest : Text
  pub pos : ℕ
  pub line : ℕ
  pub col : ℕ
  pub errors : List Text
  pub prev_token : TokenKind

-- `Lexer::new`
abbrev pub new : Text → Lexer
new input = record { rest = input; pos = 0; line = 1; col = 0; errors = []; prev_token = eof }

unfoldable pub add_error : Text → Lexer → Lexer
add_error msg l = record l {
  errors =
      l.errors
      ++ (lit "Lexer error at line "
          ++ (to_decimal l.line ++ (lit " col " ++ (to_decimal l.col ++ (lit ": " ++ msg)))))
        ∷ [];
}

-- `while`, for at most this number of rounds.
unfoldable pub loop_while {ℓ} : {S : Type ℓ} → ℕ → (S → Bool) → (S → S) → S → S
loop_while zero goes turn state = state
loop_while (suc n) goes turn state = elim (goes state) [
  | false ↦ state
  | true ↦ loop_while n goes turn (turn state)
]

abbrev pub char_at : Text → ℕ → ℕ
char_at text i = elim (get_elem? text i) [ some c ↦ c | none ↦ 0 ]

abbrev pub peek_at : ℕ → Lexer → ℕ
peek_at offset l = char_at l.rest offset

abbrev pub peek : Lexer → ℕ
peek l = peek_at 0 l

-- The cursor behind one character.
unfoldable pub pass : ℕ → Text → Lexer → Lexer
pass ch rest l =
    if ch == 10
    then record l { rest = rest; pos = l.pos + 1; line = l.line + 1; col = 0 }
    else record l { rest = rest; pos = l.pos + 1; col = l.col + 1 }

-- `advance`, without the character that it returns: that is `peek`. At NUL it stays.
unfoldable pub advance_over : Text → Lexer → Lexer
advance_over [] l = l
advance_over (ch ∷ rest) l = if ch == 0 then l else pass ch rest l

abbrev pub advance : Lexer → Lexer
advance l = advance_over l.rest l

abbrev pub left : Lexer → ℕ
left l = length l.rest

unfoldable pub skip_line_comment : Lexer → Lexer
skip_line_comment l = loop_while (left l) (λ l. not (peek l == 10) && not (peek l == 0)) advance l

-- The loop of `skip_block_comment`, with the depth.
abbrev pub comment_round : ℕ × Lexer → ℕ × Lexer
comment_round (depth, l) =
    if peek l == 47 && peek_at 1 l == 42
    then (depth + 1, advance (advance l))
    else if peek l == 42 && peek_at 1 l == 47
    then (depth - 1, advance (advance l))
    else (depth, advance l)

unfoldable pub skip_block_comment : Lexer → Lexer
skip_block_comment l =
    let inside = advance (advance l) in
    let (depth, end) =
      loop_while (left inside) (λ s. ltb 0 s.0 && not (peek s.1 == 0)) comment_round (1, inside) in
    if ltb 0 depth then add_error (lit "unterminated block comment") end else end

abbrev pub is_blank : ℕ → Bool
is_blank ch = ch == 32 || ch == 9 || ch == 10 || ch == 13

-- The characters that the loop of `skip_whitespace_and_comments` goes on at.
abbrev pub at_trivia : Lexer → Bool
at_trivia l = is_blank (peek l) || (peek l == 47 && (peek_at 1 l == 47 || peek_at 1 l == 42))

unfoldable pub skip_one : Lexer → Lexer
skip_one l =
    if is_blank (peek l)
    then advance l
    else if peek_at 1 l == 47
    then skip_line_comment l
    else skip_block_comment l

unfoldable pub skip_whitespace_and_comments : Lexer → Lexer
skip_whitespace_and_comments l = loop_while (left l) at_trivia skip_one l
