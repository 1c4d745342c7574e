-- ===== src/Gts/Parser.antt =====
-- crates/night24-gts/src/parser/parser.rs: the parser's tokens: lookahead, speculation, errors and recovery.
-- The parser is that of one source; the debug forms that its messages print are a parameter.
pub mod Rewinding
pub mod Syncing
pub mod Errors
pub mod Programs
use night.Gts.Lexer.{Lexer, Chars, left, loop_while}
use night.Text.{Text, lit}
use night.Prelude.{
  ltb, leb, ◌==◌, if◌then◌else◌, length, get_elem?, take, drop, ℕ, ◌+◌, Bool, true, false, Option,
  none, some, List, ◌∷◌, ◌++◌, map, [], not, ◌&&◌, ◌||◌,
}
use night.Gts.Lexer.Next
use night.Gts.Token.{
  TokenKind, Token, kw_let, kw_const, kw_var, kw_function, kw_class, kw_if, kw_while, kw_for,
  kw_return, kw_break, kw_continue, kw_try, kw_throw, kw_import, kw_export, kw_match, semi, r_brace,
  l_brace,
}
use night.Gts.Lexer.Sources.{is_eof}
use night.Gts.Chunk.{Position}
use night.Text.Decimal.{to_decimal}

pub record Debug : Type 0 where
  pub of_kind : TokenKind → Text
  pub of_text : Text → Text

pub record Mark : Type 0 where
  pub cur : Token
  pub peek : Token
  pub buf : List Token
  pub captured : List Token

pub record Parser : Type 0 where
  pub lexer : Lexer
  pub cur : Token
  pub peek : Token
  pub buf : List Token
  pub marks : List Mark
  pub file : Text
  pub errors : List Text

abbrev pub max_parse_errors : ℕ
max_parse_errors = 100

abbrev pub pos : Parser → Position
pos p = record { file = p.file; line = p.cur.line; col = p.cur.column; offset = p.cur.offset }

-- `Display for Position`
abbrev pub position_text : Position → Text
position_text at_ =
    (elim at_.file [ [] ↦ lit "<source>" | c ∷ file ↦ c ∷ file ])
    ++ (lit ":" ++ (to_decimal at_.line ++ (lit ":" ++ to_decimal at_.col)))

unfoldable pub add_error : Text → Parser → Parser
add_error msg p =
    if leb max_parse_errors (length p.errors)
    then (if length p.errors == max_parse_errors
        then record p {
          errors =
              p.errors
              ++ (position_text (pos p)
                  ++ (lit ": too many parse errors (limit: "
                      ++ (to_decimal max_parse_errors ++ lit ")")))
                ∷ [];
        }
        else p)
    else record p { errors = p.errors ++ (position_text (pos p) ++ (lit ": " ++ msg)) ∷ [] }

abbrev pub same_kind : TokenKind → TokenKind → Bool
same_kind a b = elim (TokenKind.discrete_by_fields a b) [ yes _ ↦ true | no _ ↦ false ]

abbrev pub cur_is : TokenKind → Parser → Bool
cur_is kind p = same_kind p.cur.kind kind

abbrev pub peek_is : TokenKind → Parser → Bool
peek_is kind p = same_kind p.peek.kind kind

-- `marks.push`, and the index that is returned.
unfoldable pub mark : Parser → Parser × ℕ
mark p =
    let m : Mark = record { cur = p.cur; peek = p.peek; buf = p.buf; captured = [] } in
    (record p { marks = p.marks ++ m ∷ [] }, length p.marks)

-- `Vec::remove`, at an index that there is.
abbrev pub remove : ℕ → List Mark → List Mark
remove idx marks = take idx marks ++ drop (idx + 1) marks

-- An index out of range panics.
unfoldable pub rewind : ℕ → Parser → Option Parser
rewind idx p = elim (get_elem? p.marks idx) [
  | none ↦ none
  | some m ↦ some (record p {
    cur = m.cur;
    peek = m.peek;
    buf = m.captured ++ m.buf;
    marks = take idx (remove idx p.marks);
  })
]

unfoldable pub commit : ℕ → Parser → Option Parser
commit idx p =
    if ltb idx (length p.marks) then some (record p { marks = remove idx p.marks }) else none

-- A token that the lexer yields, in a mark.
abbrev pub capture : Token → Mark → Mark
capture tok m = record m { captured = m.captured ++ tok ∷ [] }

-- The kinds that the last match of `sync` returns at.
unfoldable pub starts_statement : TokenKind → Bool
starts_statement kw_let = true
starts_statement kw_const = true
starts_statement kw_var = true
starts_statement kw_function = true
starts_statement kw_class = true
starts_statement kw_if = true
starts_statement kw_while = true
starts_statement kw_for = true
starts_statement kw_return = true
starts_statement kw_break = true
starts_statement kw_continue = true
starts_statement kw_try = true
starts_statement kw_throw = true
starts_statement kw_import = true
starts_statement kw_export = true
starts_statement kw_match = true
starts_statement _ = false

-- More tokens than this do not come before the end of the source.
abbrev pub pending : Parser → ℕ
pending p =
    length p.buf
    + left p.lexer
    + ((if is_eof p.cur.kind then 0 else 1) + (if is_eof p.peek.kind then 0 else 1))

module _ (chars : Chars) where
  -- `Parser::new`
  abbrev pub new : Lexer → Text → Parser
  new l file =
      let (cur, l₁) = Next.next_token chars l in
      let (peek, l₂) = Next.next_token chars l₁ in
      record { lexer = l₂; cur = cur; peek = peek; buf = []; marks = []; file = file; errors = [] }

  unfoldable pub read_token : Parser → Token × Parser
  read_token p = elim p.buf [
    | tok ∷ buf ↦ (tok, record p { buf = buf })
    | [] ↦
        let (tok, l) = Next.next_token chars p.lexer in
        (tok, record p { lexer = l; marks = map (capture tok) p.marks })
  ]

  unfoldable pub next_token : Parser → Parser
  next_token p = let (next, p') = read_token p in record p' { cur = p'.peek; peek = next }

  abbrev pub expect_peek : Debug → (TokenKind → Bool) → TokenKind → Parser → Parser × Bool
  expect_peek debug is kind p = if is p.peek.kind then (next_token p, true) else (
    add_error
        (lit "expected "
          ++ (debug.of_kind kind
              ++ (lit ", got "
                  ++ (debug.of_kind p.peek.kind
                      ++ (lit " (" ++ (debug.of_text p.peek.literal ++ lit ")"))))))
        p,
    false,
  )

  abbrev pub skip_semicolon : Parser → Parser
  skip_semicolon p = if cur_is semi p then next_token p else p

  -- The state of the loop of `sync`: the parser, and whether it has returned.
  abbrev pub sync_round : Parser × Bool → Parser × Bool
  sync_round (p, returned) =
      if cur_is semi p
      then (next_token p, true)
      else if cur_is r_brace p || cur_is l_brace p || starts_statement p.cur.kind
      then (p, true)
      else (next_token p, false)

  abbrev pub syncing : Parser × Bool → Bool
  syncing (p, returned) = not returned && not (is_eof p.cur.kind)

  unfoldable pub sync : Parser → Parser
  sync p = (loop_while (pending p) syncing sync_round (p, false)).0
