-- ===== src/Gts/StringLit.antt =====
-- crates/night24-gts/src/evaluator/string_lit.rs: the value of a string literal. A panic is `none`; bytes are
-- told apart where a character has several.
pub mod Quoting
pub mod Panics
pub mod Splitting
use night.Text.{len}
use night.Text.{is_ascii_digit, Text, lit}
use night.Prelude.{
  not, ltb, leb, ◌==◌, if◌then◌else◌, length, take, drop, all, ℕ, zero, suc, ◌+◌, ◌-◌, ◌*◌, Bool,
  ◌&&◌, ◌||◌, Option, none, some, ◌∷◌, ◌++◌, reverse, ◌>>=◌, [],
}

-- `is_hex` is that of one byte, so that no character of several bytes passes it.
abbrev pub is_hex : ℕ → Bool
is_hex b = is_ascii_digit b || (leb 97 b && leb b 102) || (leb 65 b && leb b 70)

abbrev digit_value : ℕ → ℕ
digit_value ch = if leb 97 ch then ch - 87 else if leb 65 ch then ch - 55 else ch - 48

-- `u32::from_str_radix(_, 16)`, without its bound, which `from_u32` is within.
unfoldable pub hex_value : ℕ → Text → ℕ
hex_value value [] = value
hex_value value (ch ∷ text) = hex_value (value * 16 + digit_value ch) text

-- `char::from_u32`, as the text that is pushed.
abbrev from_u32 : ℕ → Text
from_u32 v = if ltb v 0xD800 || (leb 0xE000 v && leb v 0x10FFFF) then v ∷ [] else []

-- The text before the first `}`, and the text behind it.
unfoldable pub find_brace : Text → Option (Text × Text)
find_brace [] = none
find_brace (ch ∷ text) =
    let rest = find_brace text in
    if ch == 125
    then some ([], text)
    else elim rest [ some (before, after) ↦ some (ch ∷ before, after) | none ↦ none ]

-- What is pushed, and what is left.
abbrev Step : Type 0
Step = Text × Text

abbrev hex_escape : Text → Step
hex_escape (a ∷ b ∷ rest) =
    if is_hex a && is_hex b then (hex_value 0 (a ∷ b ∷ []) ∷ [], rest) else (lit "x", a ∷ b ∷ rest)
hex_escape (a ∷ []) = (lit "x", a ∷ [])
hex_escape [] = (lit "x", [])

abbrev braced : Text → Text → Text → Text → Step
braced rest before after [] = (lit "u", rest)
braced rest before after (ch ∷ more) =
    if all is_hex before && not (length before == 0) then (ch ∷ more, after) else (lit "u", rest)

abbrev brace_escape : Text → Step
brace_escape [] = (lit "u", [])
brace_escape (open_ ∷ text) =
    if open_ == 123
    then elim (find_brace text) [
      | some (before, after) ↦ braced (open_ ∷ text) before after (from_u32 (hex_value 0 before))
      | none ↦ (lit "u", open_ ∷ text)
    ]
    else (lit "u", open_ ∷ text)

abbrev unicode_escape : Text → Step
unicode_escape rest =
    if length (take 4 rest) == 4 && all is_hex (take 4 rest)
    then (from_u32 (hex_value 0 (take 4 rest)), drop 4 rest)
    else brace_escape rest

abbrev simple_escape : ℕ → ℕ
simple_escape next =
    if next == 110
    then 10
    else if next == 116
    then 9
    else if next == 114
    then 13
    else if next == 98
    then 8
    else if next == 102
    then 12
    else if next == 118
    then 11
    else if next == 48
    then 0
    else next

-- Behind a backslash. Of a character of several bytes the first one is pushed, and the index then stands
-- inside it, where the next slice panics.
unfoldable pub escaped : ℕ → Text → Option Step
escaped next rest =
    if ltb 127 next
    then none
    else if next == 120
    then some (hex_escape rest)
    else if next == 117
    then some (unicode_escape rest)
    else some (simple_escape next ∷ [], rest)

unfoldable pub unescape_one : ℕ → Text → Option Step
unescape_one ch [] = some (ch ∷ [], [])
unescape_one ch (next ∷ rest) = if ch == 92 then escaped next rest else some (ch ∷ [], next ∷ rest)

-- The loop of `unescape_string`, for at most this number of rounds.
unfoldable pub unescape : ℕ → Text → Option Text
unescape n [] = some []
unescape zero (ch ∷ text) = none
unescape (suc n) (ch ∷ text) = do
  step ← unescape_one ch text
  more ← unescape n step.1
  some (step.0 ++ more)

abbrev pub unescape_string : Text → Option Text
unescape_string s = unescape (length s) s

-- `lit[1..lit.len() - 1]`, which panics inside a character of several bytes. The text behind the first
-- character comes last character first.
abbrev pub inner_of : ℕ → Text → Option Text
inner_of first [] = none
inner_of first (last ∷ middle) =
    if ltb 127 first || ltb 127 last then none else some (reverse middle)

unfoldable pub inner : Text → Option Text
inner [] = none
inner (first ∷ text) = inner_of first (reverse text)

-- `eval_string_lit`, the text of the object.
unfoldable pub eval_string_lit : Text → Option Text
eval_string_lit literal =
    if ltb (len literal) 2 then some [] else (do text ← inner literal; unescape_string text)
