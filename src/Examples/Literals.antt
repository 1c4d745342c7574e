-- ===== src/Examples/Literals.antt =====
-- Runs of crates/night24-gts/src/evaluator/string_lit.rs.
use night.Gts.Lexer.Regexps.{read_regexp}
use night.Gts.Lexer.Readers.{read_string}
use night.Gts.Lexer.{Lexer, Chars}
use night.Text.{Text, lit}
use night.Prelude.{◌≡◌, refl, none, some, ◌∷◌, ◌++◌, arith, [], leb, ◌&&◌}
use night.Gts.StringLit.Quoting.{quoted, read_string-quoted}
use night.Gts.StringLit.Panics.{unescape_string-panics}
use night.Gts.StringLit.{eval_string_lit, unescape_string}
use night.Gts.StringLit.Splitting.{split_regexp, split_regexp-read_regexp}
use night.Gts.Lexer

abbrev tricky : Text
tricky = lit "a\"\\\nb"

abbrev at_literal : Lexer
at_literal = night.Gts.Lexer.new (quoted tricky ++ lit "; c")

read_string-quoted_example :
    ((read_string 34 at_literal).1.text ≡ quoted tricky)
    × ((read_string 34 at_literal).1.lexer.rest ≡ lit "; c")
    × ((read_string 34 at_literal).1.lexer.errors ≡ [])
    × (eval_string_lit (read_string 34 at_literal).1.text ≡ some tricky)
read_string-quoted_example = read_string-quoted at_literal tricky (lit "; c") refl

unescape_string-panics_example : unescape_string (lit "ab" ++ 92 ∷ 233 ∷ lit "c") ≡ none
unescape_string-panics_example = unescape_string-panics (lit "ab") (lit "c") 233 refl (omega arith)

-- `\x41`, `\u00e9` and `\u{1F600}`.
codes : unescape_string (lit "\\x41\\u00e9\\u{1F600}\\q") ≡ some (0x41 ∷ 0xE9 ∷ 0x1F600 ∷ lit "q")
unfolding night.Gts.StringLit.unescape night.Gts.StringLit.unescape_one night.Gts.StringLit.escaped
    night.Text.is_ascii_digit night.Gts.StringLit.find_brace night.Gts.StringLit.hex_value
codes = refl

abbrev letters : Chars
letters = record { is_alphabetic = λ ch. leb 97 ch && leb ch 122; debug = λ ch. ch ∷ [] }

abbrev at_regexp : Lexer
at_regexp = night.Gts.Lexer.new (lit "/a[/]\\/b/gi.test")

split_regexp-read_regexp_example :
    (source flags : Text) × ((read_regexp letters at_regexp).1.text ≡ 47 ∷ (source ++ 47 ∷ flags))
    × (split_regexp (read_regexp letters at_regexp).1.text ≡ (source, flags))
unfolding night.Gts.Lexer.Regexps.has_regexp_terminator night.Gts.Lexer.Regexps.terminated
split_regexp-read_regexp_example = split_regexp-read_regexp letters at_regexp refl refl

parts : split_regexp (lit "/a[/]\\/b/gi") ≡ (lit "a[/]\\/b", lit "gi")
unfolding split_regexp night.Gts.StringLit.Splitting.split_from
parts = refl
