-- ===== src/Gts/Parser/Errors.antt =====
-- crates/night24-gts/src/parser/parser.rs: the number of errors that a parser keeps.
use night.Gts.Token.{Token}
use night.Gts.Lexer.{Chars}
use night.Text.{Text}
use night.Prelude.{
  some-eq, ltb, leb, ◌==◌, ==_iff, Bool-cases, Option-cases, length, get_elem?, length-append, ℕ,
  ◌+◌, ◌≤◌, ◌≡◌, refl, sym, ap, inl, inr, some, List, ◌∷◌, arith, [], false,
}
use night.Gts.Parser.{
  Parser, add_error, next_token, read_token, mark, rewind, commit, max_parse_errors,
}
use night.Gts.Parser.Rewinding.{
  Speculates, begins, reads, reports, marks_again, rewinds, commits, no_parser,
}

below : (n : ℕ) → leb 100 n ≡ false → n + 1 ≤ 101
below n h = ground arith

add_error-Bounded :
    (p : Parser) (msg : Text)
    → length p.errors ≤ max_parse_errors + 1
    → length (add_error msg p).errors ≤ max_parse_errors + 1
unfolding add_error
add_error-Bounded p msg h = elim (Bool-cases (leb 100 (length p.errors))) [
  | inl t ↦ elim (Bool-cases (length p.errors == 100)) [
    | inl u ↦
        rw (t, u, add_error)
          (omega (arith, length-append p.errors (_ ∷ []), (==_iff (length p.errors) 100).0 u))
    | inr f ↦ rw (t, f, add_error) h
  ]
  | inr f ↦ rw (f, add_error, length-append p.errors (_ ∷ [])) (below (length p.errors) f)
]

next_token-errors : (chars : Chars) (p : Parser) → (next_token chars p).errors ≡ p.errors
unfolding next_token read_token
next_token-errors chars p = of_buf p.buf refl
  where
    of_buf : (buf : List Token) → p.buf ≡ buf → (next_token chars p).errors ≡ p.errors
    of_buf [] e = rw e refl
    of_buf (tok ∷ buf) e = rw e refl

rewind-errors : (idx : ℕ) (p q : Parser) → rewind idx p ≡ some q → q.errors ≡ p.errors
unfolding rewind
rewind-errors idx p q e = elim (Option-cases (get_elem? p.marks idx)) [
  | inl n ↦ absurd (no_parser q (rw (n, rewind) at e))
  | inr (m, h) ↦ sym (ap (λ (r : Parser). r.errors) (some-eq (rw (h, rewind) at e)))
]

commit-errors : (idx : ℕ) (p q : Parser) → commit idx p ≡ some q → q.errors ≡ p.errors
unfolding commit
commit-errors idx p q e = elim (Bool-cases (ltb idx (length p.marks))) [
  | inl t ↦ sym (ap (λ (r : Parser). r.errors) (some-eq (rw (t, commit) at e)))
  | inr f ↦ absurd (no_parser q (rw (f, commit) at e))
]

-- Whatever tokens are read, errors added, marks made, rewound to and committed, at most one error more than
-- `MAX_PARSE_ERRORS` is kept, where there are no more at the start.
pub Speculates-errors :
    (chars : Chars) (base : ℕ) (p q : Parser)
    → length p.errors ≤ max_parse_errors + 1
    → Speculates chars base p q
    → length q.errors ≤ max_parse_errors + 1
unfolding mark
Speculates-errors chars base p _ h begins = h
Speculates-errors chars base p _ h (reads q s) =
    rw (next_token-errors chars q) (Speculates-errors chars base p q h s)
Speculates-errors chars base p _ h (reports q msg s) =
    add_error-Bounded q msg (Speculates-errors chars base p q h s)
Speculates-errors chars base p _ h (marks_again q s) = Speculates-errors chars base p q h s
Speculates-errors chars base p _ h (rewinds q q' idx b e s) =
    rw (rewind-errors idx q q' e) (Speculates-errors chars base p q h s)
Speculates-errors chars base p _ h (commits q q' idx b e s) =
    rw (commit-errors idx q q' e) (Speculates-errors chars base p q h s)
