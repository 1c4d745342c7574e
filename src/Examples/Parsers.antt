-- ===== src/Examples/Parsers.antt =====
-- Runs of crates/night24-gts/src/parser/parser.rs.
use night.Gts.Lexer.Sources.{is_eof}
use night.Text.{Text, lit}
use night.Gts.Lexer.{Chars}
use night.Prelude.{
  leb, length, ℕ, ◌+◌, ◌≤◌, ◌≡◌, refl, ◌⊎◌, true, false, ◌&&◌, Option, none, some, List, ◌∷◌, map,
  arith, [],
}
use night.Gts.Parser.{Parser, mark, rewind, next_token, sync, max_parse_errors}
use night.Gts.Parser.Rewinding.{begins, reads, ahead, ahead-rewind}
use night.Gts.Parser.Syncing.{Recovered, sync-Recovers}
use night.Gts.Parser.Errors.{Speculates-errors}
use night.Gts.Parser.Programs.{parse_program, parse_program-stuck}
use night.Gts.Lexer
use night.Gts.Token.{Token, kw_if, ident_token}

abbrev latin : Chars
latin = record { is_alphabetic = λ ch. leb 97 ch && leb ch 122; debug = λ ch. ch ∷ [] }

abbrev arrow_text : Text
arrow_text = lit "(a, b) => c;"

abbrev start : Parser
start = night.Gts.Parser.new latin (Lexer.new arrow_text) (lit "a.gs")

ahead-rewind_example :
    (q' : Parser) × (rewind (mark start).1 (next_token latin (next_token latin (mark start).0))
      ≡ some q')
    × (ahead latin 5 q' ≡ ahead latin 5 start)
ahead-rewind_example = ahead-rewind latin start _ 5 refl (reads _ (reads _ begins))

sync-Recovers_example :
    (is_eof (sync latin start).cur.kind ≡ true) ⊎ Recovered latin start (sync latin start)
sync-Recovers_example = sync-Recovers latin refl start

Speculates-errors_example : length (next_token latin start).errors ≤ max_parse_errors + 1
Speculates-errors_example = Speculates-errors latin 0 start _ (omega arith) (reads _ begins)

abbrev if_token : Token
if_token = record { kind = kw_if; literal = lit "if"; line = 1; column = 0; offset = 0 }

abbrev name_token : Token
name_token = record { kind = ident_token; literal = lit "x"; line = 1; column = 3; offset = 3 }

-- The parser at `if x`.
abbrev at_if : Parser
at_if = record {
  lexer = Lexer.new [];
  cur = if_token;
  peek = name_token;
  buf = [];
  marks = [];
  file = [];
  errors = [];
}

abbrev none_parsed : Parser → Option ℕ × Parser
none_parsed p = (none, p)

parse_program-stuck_example :
    ((parse_program none_parsed none_parsed 7 at_if).1.cur ≡ if_token)
    × (is_eof (parse_program none_parsed none_parsed 7 at_if).1.cur.kind ≡ false)
    × ((parse_program none_parsed none_parsed 7 at_if).0 ≡ [])
parse_program-stuck_example = parse_program-stuck none_parsed none_parsed at_if 7 refl refl

abbrev after : Option Parser → List Text
after none = []
after (some p) = map (λ (tok : Token). tok.literal) p.buf

-- A token is buffered when the mark is made, and the next one is read behind it: the rewind puts the later one
-- first.
reordered :
    after (
      rewind 0 (
        next_token latin (
          next_token latin
            (mark (record at_if { lexer = Lexer.new (lit "+"); buf = name_token ∷ [] })).0)))
    ≡ lit "+" ∷ lit "x" ∷ []
unfolding rewind next_token night.Gts.Parser.read_token mark night.Gts.Lexer.Next.next_token
    night.Gts.Lexer.Next.token_at Lexer.skip_whitespace_and_comments Lexer.loop_while
    night.Gts.Lexer.Operators.find_arm Lexer.advance_over Lexer.pass
reordered = refl
