-- ===== src/Gts/Lexer/Places.antt =====
-- crates/night24-gts/src/lexer/lexer.rs: a token stands in the source where it says.
use night.Gts.Lexer.Words.{read_regexp_lem, read_regexp-Reads, read_identifier-Reads}
use night.Gts.Lexer.Operators.{find_arm, Arm, arms}
use night.Gts.Lexer.Regexps.{read_regexp, is_letter, read_identifier, has_regexp_terminator}
use night.Gts.Token.Keywords.{find_text-all_kinds}
use night.Gts.Value.{find_text}
use night.Gts.Lexer.Literals.{Reads, read_number-Reads}
use night.Gts.Lexer.Quoted.{read_string-Reads, read_template-Reads}
use night.Gts.Lexer.Arms.{is_unreached, Fine}
use night.Gts.Lexer.Table.{find_arm-Fine}
use night.Text.{Text, is_ascii_digit}
use night.Gts.Lexer.{Lexer, peek, advance, Chars}
use night.Prelude.{
  ◌==◌, length, take, ◌-◌, ◌<◌, ◌≡◌, refl, sym, ◌∙◌, true, false, ◌∷◌, arith, [], Option-cases,
  take-length-append, ℕ, inl, inr, not, if◌then◌else◌, Bool-cases, ◌&&◌, ◌||◌, some,
}
use night.Gts.Lexer.Spans.{
  Spans, Moved, record_token-Spans, Spans-refl, impossible, Spans-trans, advance-Spans,
  add_error-Moved,
}
use night.Gts.Lexer.Next.{token_at, recorded, spanned, pushed, unexpected, is_regexp}
use night.Gts.Token.{
  Token, TokenKind, lookup_ident, keywords, string_token, template_token, eof, number_token,
  illegal,
}
use night.Gts.Lexer.Readers.{Reading, read_string, read_template, read_number}

-- The token begins at the cursor, its literal is what stands between the two cursors, and this is empty for the
-- end of the source alone. No operator is one of the kinds that no arm yields.
pub record IsTokenAt (l : Lexer) (tok : Token) (l' : Lexer) : Type 0 where
  pub spans : Spans l tok.literal l'
  pub line_eq : tok.line ≡ l.line
  pub column_eq : tok.column ≡ l.col
  pub offset_eq : tok.offset ≡ l.pos
  pub proper : (peek l == 0) ≡ false → (0 < length tok.literal) × (is_unreached tok.kind ≡ false)
  pub last : (peek l == 0) ≡ true → tok.kind ≡ eof

abbrev TokenAt : Lexer → Token × Lexer → Type 0
TokenAt l (tok, l') = IsTokenAt l tok l'

pushed-At :
    (l : Lexer) (kind : TokenKind) (r : Reading)
    → (peek l == 0) ≡ false
    → is_unreached kind ≡ false
    → Reads l r
    → TokenAt l (pushed l (kind, r))
pushed-At l kind r live reached h = record {
  spans = h.0;
  line_eq = refl;
  column_eq = refl;
  offset_eq = refl;
  proper = λ _. (h.1, reached);
  last = λ end. absurd (impossible (sym live ∙ end));
}

recorded-At : (l : Lexer) (r : Token × Lexer) → TokenAt l r → TokenAt l (recorded r)
recorded-At l (tok, l') h = record {
  spans = record_token-Spans l l' tok.literal tok.kind h.spans;
  line_eq = h.line_eq;
  column_eq = h.column_eq;
  offset_eq = h.offset_eq;
  proper = h.proper;
  last = h.last;
}

take-Spans : (l l' : Lexer) (text : Text) → Spans l text l' → take (l'.pos - l.pos) l.rest ≡ text
take-Spans l l' text h =
    let many : l'.pos - l.pos ≡ length text = omega (arith, h.pos_eq) in
    rw (many, h.rest_eq) (take-length-append text l'.rest)

spanned-At :
    (l l' : Lexer) (kind : TokenKind)
    → (peek l == 0) ≡ false
    → is_unreached kind ≡ false
    → Moved (advance l) l'
    → TokenAt l (spanned l (kind, l'))
spanned-At l l' kind live reached (text, h) =
    let whole : Spans l (peek l ∷ text) l' =
      Spans-trans l (advance l) l' (peek l ∷ []) text (advance-Spans l live).0 h in
    let literal : take (l'.pos - l.pos) l.rest ≡ peek l ∷ text =
      take-Spans l l' (peek l ∷ text) whole in
    record {
      spans = rw literal whole;
      line_eq = refl;
      column_eq = refl;
      offset_eq = refl;
      proper = λ _. (rw literal (omega arith), reached);
      last = λ end. absurd (impossible (sym live ∙ end));
    }

end-At : (l : Lexer) → (peek l == 0) ≡ true → TokenAt l (spanned l (eof, l))
end-At l t = record {
  spans = rw (take-Spans l l [] (Spans-refl l)) (Spans-refl l);
  line_eq = refl;
  column_eq = refl;
  offset_eq = refl;
  proper = λ n. absurd (impossible (sym n ∙ t));
  last = λ _. refl;
}

-- The kinds of names: no keyword is unreached.
lookup_ident-reached : (text : Text) → is_unreached (lookup_ident text) ≡ false
unfolding lookup_ident is_unreached
lookup_ident-reached text = elim (Option-cases (find_text text keywords)) [
  | inl n ↦ rw (n, lookup_ident) refl
  | inr (kind, e) ↦
      let reached : not (is_unreached kind) ≡ true =
        find_text-all_kinds (λ k. not (is_unreached k)) keywords text kind refl e in
      rw (e, lookup_ident) (ground arith)
]

-- The token at a cursor where it is no operator.
string-At :
    (l : Lexer) (quote : ℕ)
    → (quote == 0) ≡ false
    → peek l ≡ quote
    → TokenAt l (pushed l (read_string quote l))
unfolding read_string is_unreached
string-At l quote n e =
    pushed-At l string_token (read_string quote l).1 (rw e n) refl (read_string-Reads l quote n e)

template-At : (l : Lexer) → (peek l == 0) ≡ false → TokenAt l (pushed l (read_template l))
unfolding read_template is_unreached
template-At l n = pushed-At l template_token (read_template l).1 n refl (read_template-Reads l n)

module _ (chars : Chars) (nul : chars.is_alphabetic 0 ≡ false) where
  regexp-At : (l : Lexer) → peek l ≡ 47 → TokenAt l (pushed l (read_regexp chars l))
  unfolding is_unreached
  regexp-At l e =
      let live : (peek l == 0) ≡ false = rw e refl in
      pushed-At l (read_regexp chars l).0 (read_regexp chars l).1 live
        (rw (read_regexp_lem chars l e)
          (elim (Bool-cases (has_regexp_terminator l)) [ inl t ↦ rw t refl | inr f ↦ rw f refl ]))
        (read_regexp-Reads chars nul l live)

  operator-At :
      (l : Lexer) (arm : Arm)
      → (peek l == 0) ≡ false
      → find_arm (peek l) arms ≡ some arm
      → TokenAt l (spanned l (arm l))
  operator-At l arm n e =
      let fine : Fine l (arm l) = find_arm-Fine (peek l) arm l e n in
      spanned-At l (arm l).1 (arm l).0 n fine.reached fine.behind

  other-At :
      (l : Lexer)
      → (peek l == 0) ≡ false
      → TokenAt l (
          if is_letter chars (peek l)
          then (let r = read_identifier chars l in recorded (pushed l (lookup_ident r.text, r)))
          else if is_ascii_digit (peek l)
          then recorded (pushed l (number_token, read_number l))
          else recorded (spanned l (unexpected chars l)))
  unfolding is_unreached
  other-At l n = elim (Bool-cases (is_letter chars (peek l))) [
    | inl t ↦ rw t (
        recorded-At l _ (
          pushed-At l (lookup_ident (read_identifier chars l).text) (read_identifier chars l) n
            (lookup_ident-reached _) (read_identifier-Reads chars nul l t)))
    | inr f ↦ elim (Bool-cases (is_ascii_digit (peek l))) [
      | inl t ↦
          rw (f, t)
            (recorded-At l _
              (pushed-At l number_token (read_number l) n refl (read_number-Reads l t)))
      | inr g ↦
          rw (f, g)
            (recorded-At l _ (
              spanned-At l (unexpected chars l).1 illegal n refl
                (add_error-Moved (advance l) _ _ ([], Spans-refl (advance l)))))
    ]
  ]

  pub token_at-IsTokenAt : (l : Lexer) → IsTokenAt l (token_at chars l).0 (token_at chars l).1
  unfolding token_at
  token_at-IsTokenAt l = elim (Bool-cases (peek l == 34 || peek l == 39)) [
    | inl t ↦ rw (t, token_at) (string-At l (peek l) (ground arith) refl)
    | inr a ↦ elim (Bool-cases (peek l == 96)) [
      | inl t ↦ rw (a, t, token_at) (template-At l (ground arith))
      | inr b ↦ elim (Bool-cases (peek l == 0)) [
        | inl t ↦ rw (a, b, t, token_at) (end-At l t)
        | inr n ↦ elim (Bool-cases (peek l == 47 && is_regexp chars l)) [
          | inl t ↦ rw (a, b, n, t, token_at) (recorded-At l _ (regexp-At l (ground arith)))
          | inr c ↦ elim (Option-cases (find_arm (peek l) arms)) [
            | inl none_ ↦ rw (a, b, n, c, none_, token_at) (other-At l n)
            | inr (arm, e) ↦ rw (a, b, n, c, e, token_at) (recorded-At l _ (operator-At l arm n e))
          ]
        ]
      ]
    ]
  ]
