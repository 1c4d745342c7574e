-- ===== src/Gts/StringLit/Splitting.antt =====
-- crates/night24-gts/src/evaluator/string_lit.rs and lexer/lexer.rs: where the source of a regexp literal ends.
use night.Gts.Lexer.{peek, Lexer, Chars, left, advance}
use night.Text.{Text}
use night.Prelude.{
  not, ◌==◌, if◌then◌else◌, ◌≡◌, Bool, true, false, ◌∷◌, ◌++◌, [], ==_iff, Bool-cases, ℕ, refl, sym,
  ap, ◌∙◌, inl, inr, append-nil, append_assoc, arith,
}
use night.Gts.Lexer.Words.{read_regexp-closes}
use night.Gts.Lexer.Regexps.{
  Regexp, regexp_round, in_regexp, regexp_end, read_regexp, has_regexp_terminator, is_letter,
}
use night.Gts.Lexer.Readers.{Reading, push, push_while}
use night.Gts.Lexer.Spans.{loop_while-keeps, impossible}

-- The loop of `split_regexp`, with the characters before the index.
unfoldable pub split_from : Bool → Bool → Text → Text → Text × Text
split_from in_class escape before [] = ([], [])
split_from in_class escape before (ch ∷ text) =
    let escaped = split_from in_class false (before ++ ch ∷ []) text in
    let escaping = split_from in_class true (before ++ ch ∷ []) text in
    let inside = split_from (not (ch == 93)) false (before ++ ch ∷ []) text in
    let opening = split_from true false (before ++ ch ∷ []) text in
    let plain = split_from false false (before ++ ch ∷ []) text in
    if escape
    then escaped
    else if ch == 92
    then escaping
    else if in_class
    then inside
    else if ch == 91
    then opening
    else if ch == 47
    then (before, text)
    else plain

unfoldable pub split_regexp : Text → Text × Text
split_regexp [] = ([], [])
split_regexp (first ∷ text) = if not (first == 47) then ([], []) else split_from false false [] text

-- The state of the loop of `read_regexp` is that of `split_regexp` behind what has been read.
Follows : Regexp → Type 0
Follows r =
    (body : Text) × (r.closed ≡ false
      → (r.out.text ≡ 47 ∷ body)
        × ((more : Text)
            → split_from false false [] (body ++ more) ≡ split_from r.in_class r.escape body more))
    × (r.closed ≡ true
        → (r.out.text ≡ 47 ∷ (body ++ 47 ∷ []))
          × ((more : Text) → split_from false false [] (body ++ 47 ∷ more) ≡ (body, more)))

-- A round that does not close.
goes_on :
    (r : Regexp) (in_class escape : Bool) (body : Text)
    → r.out.text ≡ 47 ∷ body
    → ((more : Text)
        → split_from false false [] (body ++ more) ≡ split_from r.in_class r.escape body more)
    → ((more : Text)
        → split_from r.in_class r.escape body (peek r.out.lexer ∷ more)
          ≡ split_from in_class escape (body ++ peek r.out.lexer ∷ []) more)
    → Follows (record { out = push r.out; in_class = in_class; escape = escape; closed = false })
unfolding Follows
goes_on r in_class escape body text live step = (
  body ++ peek r.out.lexer ∷ [],
  λ _. (
    ap (λ t. t ++ peek r.out.lexer ∷ []) text,
    λ more.
        ap (split_from false false []) (append_assoc body (peek r.out.lexer ∷ []) more)
        ∙ (live (peek r.out.lexer ∷ more) ∙ step more),
  ),
  λ no_. absurd (impossible no_),
)

closes :
    (r : Regexp) (in_class escape : Bool) (body : Text)
    → peek r.out.lexer ≡ 47
    → r.out.text ≡ 47 ∷ body
    → ((more : Text) → split_from false false [] (body ++ 47 ∷ more) ≡ (body, more))
    → Follows (record { out = push r.out; in_class = in_class; escape = escape; closed = true })
unfolding Follows
closes r in_class escape body here text split = (
  body,
  λ no_. absurd (impossible (sym no_)),
  λ _. (ap (λ t. t ++ peek r.out.lexer ∷ []) text ∙ ap (λ c. 47 ∷ (body ++ c ∷ [])) here, split),
)

regexp_round-Follows : (r : Regexp) → in_regexp r ≡ true → Follows r → Follows (regexp_round r)
unfolding split_from Follows
regexp_round-Follows r t (body, live, done) =
    let n : r.closed ≡ false = ground arith in
    let (text, split) = live n in
    elim (Bool-cases r.escape) [
      | inl e ↦ rw (n, e) (goes_on r r.in_class false body text split (λ more. rw (e, split_from)))
      | inr a ↦ elim (Bool-cases (peek r.out.lexer == 92)) [
        | inl e ↦
            rw (n, a, e) (goes_on r r.in_class true body text split (λ more. rw (a, e, split_from)))
        | inr b ↦ elim (Bool-cases r.in_class) [
          | inl e ↦
              rw (n, a, b, e)
                (goes_on r (not (peek r.out.lexer == 93)) false body text split
                  (λ more. rw (a, b, e, split_from)))
          | inr c ↦ elim (Bool-cases (peek r.out.lexer == 91)) [
            | inl e ↦
                rw (n, a, b, c, e)
                  (goes_on r true false body text split (λ more. rw (a, b, c, e, split_from)))
            | inr o ↦ elim (Bool-cases (peek r.out.lexer == 47)) [
              | inl e ↦
                  let here : peek r.out.lexer ≡ 47 = (==_iff (peek r.out.lexer) 47).0 e in
                  rw (n, a, b, c, o, e)
                    (closes r false false body here text
                      (λ more. split (47 ∷ more) ∙ rw (a, c, split_from)))
              | inr s ↦
                  rw (n, a, b, c, o, s)
                    (goes_on r false false body text split (λ more. rw (a, b, c, o, s, split_from)))
            ]
          ]
        ]
      ]
    ]

regexp_end-Follows : (l : Lexer) → peek l ≡ 47 → Follows (regexp_end l)
unfolding regexp_end Follows
regexp_end-Follows l e =
    loop_while-keeps Follows in_regexp regexp_round regexp_round-Follows (left (advance l)) _
      ([], λ _. (ap (λ c. c ∷ []) e, λ more. refl), λ no_. absurd (impossible no_))

-- More is pushed behind what there is.
push_while-text :
    (p : ℕ → Bool) (r : Reading) → (more : Text) × ((push_while p r).text ≡ r.text ++ more)
unfolding push_while
push_while-text p r =
    loop_while-keeps (λ (s : Reading). (more : Text) × (s.text ≡ r.text ++ more)) _ push
      (λ s t (more, e). (
        more ++ peek s.lexer ∷ [],
        ap (λ x. x ++ peek s.lexer ∷ []) e ∙ append_assoc r.text more (peek s.lexer ∷ []),
      ))
      (left r.lexer) r ([], sym (append-nil r.text))

-- The literal that the lexer reads where `has_regexp_terminator` holds is a slash, a source, a slash and flags, and
-- these are the source and the flags that `split_regexp` finds.
pub split_regexp-read_regexp :
    (chars : Chars) (l : Lexer)
    → peek l ≡ 47
    → has_regexp_terminator l ≡ true
    → (source flags : Text) × ((read_regexp chars l).1.text ≡ 47 ∷ (source ++ 47 ∷ flags))
      × (split_regexp (read_regexp chars l).1.text ≡ (source, flags))
unfolding split_regexp read_regexp Follows
split_regexp-read_regexp chars l e h =
    let closed : (regexp_end l).closed ≡ true = read_regexp-closes l e ∙ h in
    let (body, live, done) = regexp_end-Follows l e in
    let (text, split) = done closed in
    let (flags, pushed) = push_while-text (is_letter chars) (regexp_end l).out in
    let whole : (read_regexp chars l).1.text ≡ 47 ∷ (body ++ 47 ∷ flags) =
      rw (closed, read_regexp)
        (pushed
          ∙ (ap (λ t. t ++ flags) text ∙ ap (λ t. 47 ∷ t) (append_assoc body (47 ∷ []) flags))) in
    (body, flags, whole, rw whole (split flags))
