-- ===== src/Gts/Lexer/Sources.antt =====
-- crates/night24-gts/src/lexer/lexer.rs: the tokens of a whole source.
use night.Gts.Lexer.Arms.{is_unreached}
use night.Gts.Lexer.Skipping.{skip_whitespace_and_comments-Moved}
use night.Gts.Lexer.{Chars, Lexer, skip_whitespace_and_comments, new, left, peek}
use night.Text.{Text}
use night.Prelude.{
  if◌then◌else◌, length, ℕ, zero, suc, ◌+◌, ◌≤◌, ◌≡◌, ap, ◌∙◌, Bool, true, false, List, ◌∷◌, ◌++◌,
  [], Bool-cases, ◌<◌, inl, inr, arith, ◌==◌, refl, sym, ◌≢◌,
}
use night.Gts.Lexer.Spans.{
  Spans, Spans-trans, newlines, column_after, impossible, left-Moved, Spans-left, Spans-refl,
}
use night.Gts.Lexer.Places.{IsTokenAt, token_at-IsTokenAt}
use night.Gts.Lexer.Next.{next_token}
use night.Gts.Token.{Token, TokenKind, eof, pow_eq, l_shift_eq}

unfoldable pub is_eof : TokenKind → Bool
is_eof eof = true
is_eof _ = false

-- A text that a token is, in the source.
pub record Stands (input : Text) (tok : Token) : Type 0 where
  pub before : Text
  pub after : Text
  pub source_eq : input ≡ before ++ (tok.literal ++ after)
  pub offset_eq : tok.offset ≡ length before
  pub line_eq : tok.line ≡ 1 + newlines before
  pub column_eq : tok.column ≡ column_after 0 before

-- The tokens of these begin where this offset is or behind it, none before the end of the one before it.
abbrev pub InOrder : ℕ → List Token → Type 0
InOrder offset [] = Unit
InOrder offset (tok ∷ more) = (offset ≤ tok.offset) × InOrder (tok.offset + length tok.literal) more

abbrev pub Every : (Token → Type 0) → List Token → Type 0
Every P [] = Unit
Every P (tok ∷ more) = P tok × Every P more

-- The last one is the end of the source, and no other one is.
unfoldable pub ends : List Token → Bool
ends [] = false
ends (tok ∷ more) =
    let rest = ends more in
    if is_eof tok.kind then elim more [ [] ↦ true | _ ∷ _ ↦ false ] else rest

module _ (chars : Chars) where
  -- The tokens that calls of `next_token` yield up to the end of the source, for at most this number of calls.
  unfoldable pub tokens : ℕ → Lexer → List Token
  tokens zero l = []
  tokens (suc fuel) l =
      let (tok, next) = next_token chars l in
      let more = tokens fuel next in if is_eof tok.kind then tok ∷ [] else tok ∷ more

module _ (chars : Chars) (nul : chars.is_alphabetic 0 ≡ false) where
  -- Where a call of `next_token` finds its token, and where it leaves the cursor.
  next_token-IsTokenAt :
      (l : Lexer)
      → (gap : Text) × Spans l gap (skip_whitespace_and_comments l)
        × IsTokenAt (skip_whitespace_and_comments l) (next_token chars l).0 (next_token chars l).1
  unfolding next_token
  next_token-IsTokenAt l =
      let (gap, skipped) = skip_whitespace_and_comments-Moved l in
      (gap, skipped, token_at-IsTokenAt chars nul (skip_whitespace_and_comments l))

  Stands-at :
      (input before gap : Text) (l s l' : Lexer) (tok : Token)
      → Spans (new input) before l
      → Spans l gap s
      → IsTokenAt s tok l'
      → Stands input tok × Spans (new input) ((before ++ gap) ++ tok.literal) l'
  Stands-at input before gap l s l' tok h g t =
      let start : Spans (new input) (before ++ gap) s =
        Spans-trans (new input) l s before gap h g in
      (
        record {
          before = before ++ gap;
          after = l'.rest;
          source_eq = start.rest_eq ∙ ap (λ r. (before ++ gap) ++ r) t.spans.rest_eq;
          offset_eq = omega (arith, t.offset_eq, start.pos_eq);
          line_eq = t.line_eq ∙ start.line_eq;
          column_eq = t.column_eq ∙ start.col_eq;
        },
        Spans-trans (new input) s l' (before ++ gap) tok.literal start t.spans,
      )

  tokens-Stand :
      (input : Text) (fuel : ℕ) (l : Lexer) (before : Text)
      → Spans (new input) before l
      → Every (Stands input) (tokens chars fuel l)
  unfolding tokens
  tokens-Stand input zero l before h = tt
  tokens-Stand input (suc fuel) l before h =
      let (gap, g, t) = next_token-IsTokenAt l in
      let l' = (next_token chars l).1 in
      let (here, behind) =
        Stands-at input before gap l (skip_whitespace_and_comments l) l' (next_token chars l).0 h g
          t in
      elim (Bool-cases (is_eof (next_token chars l).0.kind)) [
        | inl t ↦ rw (t, tokens) (here, tt)
        | inr f ↦ rw (f, tokens) (here, tokens-Stand input fuel l' _ behind)
      ]

  tokens-InOrder_from : (fuel : ℕ) (l : Lexer) → InOrder l.pos (tokens chars fuel l)
  unfolding tokens
  tokens-InOrder_from zero l = tt
  tokens-InOrder_from (suc fuel) l =
      let (gap, g, t) = next_token-IsTokenAt l in
      let l' = (next_token chars l).1 in
      let first : l.pos ≤ (next_token chars l).0.offset = omega (arith, g.pos_eq, t.offset_eq) in
      elim (Bool-cases (is_eof (next_token chars l).0.kind)) [
        | inl e ↦ rw (e, tokens) (first, tt)
        | inr f ↦
            let place : l'.pos
                ≡ (next_token chars l).0.offset + length (next_token chars l).0.literal =
              omega (arith, t.spans.pos_eq, t.offset_eq) in
            rw (f, tokens) (first, rw (← place) (tokens-InOrder_from fuel l'))
      ]

  -- A call that does not find the end of the source takes a character at least.
  pub next_token-left :
      (l : Lexer)
      → (left (next_token chars l).1 ≤ left l)
        × (is_eof (next_token chars l).0.kind ≡ false → left (next_token chars l).1 < left l)
  unfolding is_eof
  next_token-left l =
      let (gap, g, t) = next_token-IsTokenAt l in
      let s = skip_whitespace_and_comments l in
      let (tok, l') = next_token chars l in
      let skipped : left s ≤ left l = left-Moved l s (gap, g) in
      let taken : left s ≡ length tok.literal + left l' = Spans-left s l' tok.literal t.spans in
      (
        omega arith,
        λ f.
            let live : (peek s == 0) ≡ false = going tok.kind f (peek s == 0) t.last in
            omega (arith, (t.proper live).0),
      )
    where
      going :
          (kind : TokenKind)
          → is_eof kind ≡ false
          → (last : Bool) → (last ≡ true → kind ≡ eof)
          → last ≡ false
      going kind f true h = absurd (impossible (sym f ∙ ap is_eof (h refl)))
      going kind f false h = refl

  ends-tokens_from : (fuel : ℕ) (l : Lexer) → left l < fuel → ends (tokens chars fuel l) ≡ true
  unfolding tokens ends
  ends-tokens_from zero l h = absurd (omega (arith, h))
  ends-tokens_from (suc fuel) l h = elim (Bool-cases (is_eof (next_token chars l).0.kind)) [
    | inl e ↦ rw (e, tokens, e)
    | inr f ↦
        rw (f, tokens, f)
          (ends-tokens_from fuel (next_token chars l).1 (omega (arith, h, (next_token-left l).1 f)))
  ]

  -- Each token that the calls of `next_token` yield, however many there are, has its literal in the source
  -- behind a text that its offset is the length of, its line one more than the newlines of, and its column the
  -- number of characters since the last newline of, where the classification of letters
  -- has no NUL.
  pub tokens-Every-Stands :
      (input : Text) (fuel : ℕ) → Every (Stands input) (tokens chars fuel (new input))
  tokens-Every-Stands input fuel = tokens-Stand input fuel (new input) [] (Spans-refl (new input))

  -- No token begins before the end of the literal of the one before it, where the classification of letters
  -- has no NUL.
  pub tokens-InOrder : (input : Text) (fuel : ℕ) → InOrder 0 (tokens chars fuel (new input))
  tokens-InOrder input fuel = tokens-InOrder_from fuel (new input)

  -- One call more than the source has characters is enough: then the last token is the end of the source, and
  -- no token before it is, where the classification of letters has no NUL.
  pub ends-tokens :
      (input : Text) (fuel : ℕ) → length input < fuel → ends (tokens chars fuel (new input)) ≡ true
  ends-tokens input fuel h = ends-tokens_from fuel (new input) h

  -- No call of `next_token` yields `PowEq` or `LShiftEq`, where the classification of letters has no NUL.
  pub next_token-assigns :
      (l : Lexer)
      → ((next_token chars l).0.kind ≢ pow_eq) × ((next_token chars l).0.kind ≢ l_shift_eq)
  unfolding is_unreached is_eof
  next_token-assigns l =
      let (gap, g, t) = next_token-IsTokenAt l in
      let s = skip_whitespace_and_comments l in
      let kind = (next_token chars l).0.kind in
      (
        distinct kind pow_eq refl refl (peek s == 0) (λ n. (t.proper n).1) t.last,
        distinct kind l_shift_eq refl refl (peek s == 0) (λ n. (t.proper n).1) t.last,
      )
    where
      distinct :
          (kind other : TokenKind)
          → is_unreached other ≡ true
          → is_eof other ≡ false
          → (last : Bool) → (last ≡ false → is_unreached kind ≡ false)
          → (last ≡ true → kind ≡ eof)
          → kind ≢ other
      distinct kind other u n false h k same =
          absurd (impossible (sym (h refl) ∙ (ap is_unreached same ∙ u)))
      distinct kind other u n true h k same =
          absurd (impossible (sym n ∙ (ap is_eof (sym same) ∙ ap is_eof (k refl))))
