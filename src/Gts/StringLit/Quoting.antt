-- ===== src/Gts/StringLit/Quoting.antt =====
-- crates/night24-gts/src/evaluator/string_lit.rs and lexer/lexer.rs: every text has a literal.
use night.Gts.Lexer.Spans.{loop_while_stop, loop_while_go}
use mathlib.Core.List.{reverse-append, reverse-reverse}
use night.Gts.Lexer.Readers.{Reading, in_string, read_string, push, string_round, reading}
use night.Gts.Lexer.{advance_over, Lexer, pass, loop_while, peek, char_at, left}
use night.Text.{Text, len_utf8, len}
use night.Prelude.{
  some-eq, ltb, ◌==◌, if◌then◌else◌, ==_iff, Bool-cases, Option-cases, length, ℕ, zero, suc, ◌≤◌,
  ◌≡◌, refl, inl, inr, false, ◌||◌, Option, none, some, ◌∷◌, ◌++◌, arith, [], true, List, ◌+◌, ap,
  ◌∙◌, length-append, append-nil, append_assoc,
}
use night.Gts.StringLit.{
  unescape, unescape_one, escaped, simple_escape, inner, eval_string_lit, inner_of,
}

-- The character behind the backslash, for those that a literal in double quotes escapes.
unfoldable pub mark_of : ℕ → Option ℕ
mark_of ch =
    if ch == 10
    then some 110
    else if ch == 0
    then some 48
    else if ch == 34 || ch == 92
    then some ch
    else none

abbrev written : ℕ → Option ℕ → Text
written ch none = ch ∷ []
written ch (some mark) = 92 ∷ mark ∷ []

unfoldable pub escape : Text → Text
escape [] = []
escape (ch ∷ text) = written ch (mark_of ch) ++ escape text

-- The literal of a text in double quotes.
abbrev pub quoted : Text → Text
quoted text = 34 ∷ (escape text ++ 34 ∷ [])

mark_of-some :
    (ch mark : ℕ)
    → mark_of ch ≡ some mark
    → (ltb 127 mark ≡ false)
      × ((mark == 120) ≡ false)
      × ((mark == 117) ≡ false)
      × (simple_escape mark ≡ ch)
      × ((mark == 0) ≡ false)
unfolding mark_of
mark_of-some ch mark h = elim (Bool-cases (ch == 10)) [
  | inl t ↦
      let e : 110 ≡ mark = some-eq (rw (t, mark_of) at h) in
      rw (← e, (==_iff ch 10).0 t) (refl, refl, refl, refl, refl)
  | inr a ↦ elim (Bool-cases (ch == 0)) [
    | inl t ↦
        let e : 48 ≡ mark = some-eq (rw (a, t, mark_of) at h) in
        rw (← e, (==_iff ch 0).0 t) (refl, refl, refl, refl, refl)
    | inr b ↦ elim (Bool-cases (ch == 34)) [
      | inl t ↦
          let c : ch ≡ 34 = (==_iff ch 34).0 t in
          let e : 34 ≡ mark = some-eq (rw (c, mark_of) at h) in
          rw (← e, c) (refl, refl, refl, refl, refl)
      | inr c ↦ elim (Bool-cases (ch == 92)) [
        | inl t ↦
            let c : ch ≡ 92 = (==_iff ch 92).0 t in
            let e : 92 ≡ mark = some-eq (rw (c, mark_of) at h) in
            rw (← e, c) (refl, refl, refl, refl, refl)
        | inr d ↦ absurd (impossible_mark mark (rw (a, b, c, d, mark_of) at h))
      ]
    ]
  ]
]
  where
    impossible_mark : (m : ℕ) → none ≡ some m → ⊥
    impossible_mark m e = cc

mark_of-none :
    (ch : ℕ)
    → mark_of ch ≡ none
    → ((ch == 92) ≡ false) × ((ch == 34) ≡ false) × ((ch == 10) ≡ false) × ((ch == 0) ≡ false)
unfolding mark_of
mark_of-none ch h = ground arith

pub unescape_one-plain :
    (ch : ℕ) (text : Text) → (ch == 92) ≡ false → unescape_one ch text ≡ some (ch ∷ [], text)
unfolding unescape_one
unescape_one-plain ch [] h = refl
unescape_one-plain ch (next ∷ rest) h = rw (h, unescape_one)

unescape-escape : (text : Text) (n : ℕ) → length text ≤ n → unescape n (escape text) ≡ some text
unfolding unescape escape unescape_one escaped
unescape-escape [] n h = refl
unescape-escape (ch ∷ text) zero h = absurd (omega (arith, h))
unescape-escape (ch ∷ text) (suc n) h =
    let more : unescape n (escape text) ≡ some text = unescape-escape text n (omega (arith, h)) in
    elim (Option-cases (mark_of ch)) [
      | inl plain ↦
          let (a, b, c, d) = mark_of-none ch plain in
          rw (plain, unescape_one-plain ch (escape text) a, more) refl
      | inr (mark, e) ↦
          let (a, b, c, d, z) = mark_of-some ch mark e in rw (e, a, b, c, more, d) refl
    ]

length-escape : (text : Text) → length text ≤ length (escape text)
unfolding escape
length-escape [] = omega arith
length-escape (ch ∷ text) = elim (Option-cases (mark_of ch)) [
  | inl plain ↦ rw plain (omega (arith, length-escape text))
  | inr (mark, e) ↦ rw e (omega (arith, length-escape text))
]

inner-quoted : (text : Text) → inner (quoted text) ≡ some (escape text)
unfolding inner
inner-quoted text =
    ap (inner_of 34) (reverse-append (escape text) (34 ∷ []))
    ∙ ap some (reverse-reverse (escape text))

len-last : (text : Text) → 1 ≤ len (text ++ 34 ∷ [])
unfolding len_utf8 len
len-last [] = omega arith
len-last (ch ∷ text) = omega (arith, len-last text)

eval_string_lit-quoted : (text : Text) → eval_string_lit (quoted text) ≡ some text
unfolding eval_string_lit len_utf8 len
eval_string_lit-quoted text =
    let long : ltb (len (quoted text)) 2 ≡ false =
      long_enough (len (escape text ++ 34 ∷ [])) (len-last (escape text)) in
    rw (long, inner-quoted text) (unescape-escape text (length (escape text)) (length-escape text))
  where
    long_enough : (n : ℕ) → 1 ≤ n → ltb (1 + n) 2 ≡ false
    long_enough n h = ground arith

-- A push of the character at the cursor.
push-eq :
    (r : Reading) (ch : ℕ) (rest : Text)
    → r.lexer.rest ≡ ch ∷ rest
    → (ch == 0) ≡ false
    → ((push r).text ≡ r.text ++ ch ∷ [])
      × ((push r).lexer.rest ≡ rest)
      × ((push r).lexer.errors ≡ r.lexer.errors)
unfolding advance_over pass
push-eq r ch rest e n = elim (Bool-cases (ch == 10)) [
  | inl t ↦ rw (e, n, t, advance_over, pass) (refl, refl, refl)
  | inr f ↦ rw (e, n, f, advance_over, pass) (refl, refl, refl)
]

-- What a loop of `read_string` has read, and where it is.
record Read (r : Reading) (text rest : Text) (errors : List Text) : Type 0 where
  text_eq : r.text ≡ text
  rest_eq : r.lexer.rest ≡ rest
  errors_eq : r.lexer.errors ≡ errors

string_round-written :
    (r : Reading) (text rest : Text) (errors : List Text) (ch : ℕ)
    → Read r text (written ch (mark_of ch) ++ rest) errors
    → (in_string 34 r ≡ true) × Read (string_round r) (text ++ written ch (mark_of ch)) rest errors
string_round-written r text rest errors ch h = elim (Option-cases (mark_of ch)) [
  | inl plain ↦
      let (a, b, c, d) = mark_of-none ch plain in
      let rest_eq : r.lexer.rest ≡ ch ∷ rest = h.rest_eq ∙ ap (λ m. written ch m ++ rest) plain in
      let here : peek r.lexer ≡ ch = ap (λ t. char_at t 0) rest_eq in
      let (x, y, z) = push-eq r ch rest rest_eq d in
      let round : string_round r ≡ push r = rw (here, a) in
      (
        rw (here, b, d, c) refl,
        rw (round, plain)
            (record {
              text_eq = x ∙ ap (λ t. t ++ ch ∷ []) h.text_eq;
              rest_eq = y;
              errors_eq = z ∙ h.errors_eq;
            }),
      )
  | inr (mark, e) ↦
      let (_, _, _, _, live) = mark_of-some ch mark e in
      let rest_eq : r.lexer.rest ≡ 92 ∷ mark ∷ rest =
        h.rest_eq ∙ ap (λ m. written ch m ++ rest) e in
      let here : peek r.lexer ≡ 92 = ap (λ t. char_at t 0) rest_eq in
      let (x, y, z) = push-eq r 92 (mark ∷ rest) rest_eq refl in
      let next : peek (push r).lexer ≡ mark = ap (λ t. char_at t 0) y in
      let (x', y', z') = push-eq (push r) mark rest y live in
      let round : string_round r ≡ push (push r) = rw (here, next, live) in
      (
        rw here refl,
        rw (round, e)
            (record {
              text_eq =
                  x'
                  ∙ (ap (λ t. t ++ mark ∷ []) (x ∙ ap (λ t. t ++ 92 ∷ []) h.text_eq)
                      ∙ append_assoc text (92 ∷ []) (mark ∷ []));
              rest_eq = y';
              errors_eq = z' ∙ (z ∙ h.errors_eq);
            }),
      )
]

string_loop-escape :
    (s : Text) (r : Reading) (text rest : Text) (errors : List Text) (n : ℕ)
    → length s ≤ n
    → Read r text (escape s ++ 34 ∷ rest) errors
    → Read (loop_while n (in_string 34) string_round r) (text ++ escape s) (34 ∷ rest) errors
unfolding escape
string_loop-escape [] r text rest errors n b h =
    let here : peek r.lexer ≡ 34 = ap (λ t. char_at t 0) h.rest_eq in
    rw (loop_while_stop (in_string 34) string_round n r (rw here refl), append-nil text) h
string_loop-escape (ch ∷ s) r text rest errors zero b h = absurd (omega (arith, b))
string_loop-escape (ch ∷ s) r text rest errors (suc n) b h =
    let mark = written ch (mark_of ch) in
    let (goes, read) =
      string_round-written r text (escape s ++ 34 ∷ rest) errors ch
        (rw (← append_assoc mark (escape s) (34 ∷ rest)) h) in
    rw (loop_while_go (in_string 34) string_round n r goes, ← append_assoc text mark (escape s))
      (string_loop-escape s (string_round r) (text ++ mark) rest errors n (omega (arith, b)) read)

-- A text in double quotes, with a backslash before a quote, a backslash, a newline and a NUL, is read by the
-- lexer as one string literal with no error, and its value is the text.
pub read_string-quoted :
    (l : Lexer) (text rest : Text)
    → l.rest ≡ quoted text ++ rest
    → ((read_string 34 l).1.text ≡ quoted text)
      × ((read_string 34 l).1.lexer.rest ≡ rest)
      × ((read_string 34 l).1.lexer.errors ≡ l.errors)
      × (eval_string_lit (read_string 34 l).1.text ≡ some text)
unfolding read_string
read_string-quoted l text rest h =
    let (x, y, z) = push-eq (reading l) 34 ((escape text ++ 34 ∷ []) ++ rest) h refl in
    let start : Reading = push (reading l) in
    let begun : start.lexer.rest ≡ escape text ++ 34 ∷ rest =
      y ∙ append_assoc (escape text) (34 ∷ []) rest in
    let end : Reading = loop_while (left start.lexer) (in_string 34) string_round start in
    let read : Read end (34 ∷ escape text) (34 ∷ rest) l.errors =
      string_loop-escape text start (34 ∷ []) rest l.errors (left start.lexer)
        (omega
          (arith, ap length begun, length-append (escape text) (34 ∷ rest), length-escape text))
        (record { text_eq = x; rest_eq = begun; errors_eq = z }) in
    let here : peek end.lexer ≡ 34 = ap (λ t. char_at t 0) read.rest_eq in
    let (x', y', z') = push-eq end 34 rest read.rest_eq refl in
    let result : (read_string 34 l).1 ≡ push end = rw (here, read_string) in
    let whole : (push end).text ≡ quoted text = x' ∙ ap (λ t. t ++ 34 ∷ []) read.text_eq in
    rw (result, whole) (refl, y', z' ∙ read.errors_eq, eval_string_lit-quoted text)
