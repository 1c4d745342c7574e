-- ===== src/Gts/StringLit/Panics.antt =====
-- crates/night24-gts/src/evaluator/string_lit.rs: where a string literal panics.
use night.Gts.StringLit.Quoting.{unescape_one-plain}
use night.Text.{Text}
use night.Prelude.{
  not, ltb, ◌==◌, length, all, length-append, ℕ, zero, suc, ◌<◌, ◌≡◌, refl, true, false, none, ◌∷◌,
  ◌++◌, arith, [],
}
use night.Gts.StringLit.{unescape, unescape_one, escaped, unescape_string}

unescape-panics :
    (before after : Text) (ch n : ℕ)
    → all (λ c. not (c == 92)) before ≡ true
    → 127 < ch
    → length before < n
    → unescape n (before ++ 92 ∷ ch ∷ after) ≡ none
unfolding unescape unescape_one escaped
unescape-panics [] after ch zero a w h = absurd (omega (arith, h))
unescape-panics [] after ch (suc n) a w h =
    let wide : ltb 127 ch ≡ true = ground arith in rw wide refl
unescape-panics (c ∷ before) after ch zero a w h = absurd (omega (arith, h))
unescape-panics (c ∷ before) after ch (suc n) a w h =
    let plain : (c == 92) ≡ false = ground arith in
    let more : unescape n (before ++ 92 ∷ ch ∷ after) ≡ none =
      unescape-panics before after ch n (ground arith) w (omega (arith, h)) in
    rw (unescape_one-plain c (before ++ 92 ∷ ch ∷ after) plain, more) refl

-- Unescaping a text panics at its first backslash where a character of several bytes follows it.
pub unescape_string-panics :
    (before after : Text) (ch : ℕ)
    → all (λ c. not (c == 92)) before ≡ true
    → 127 < ch
    → unescape_string (before ++ 92 ∷ ch ∷ after) ≡ none
unescape_string-panics before after ch a w =
    unescape-panics before after ch (length (before ++ 92 ∷ ch ∷ after)) a w
      (omega (arith, length-append before (92 ∷ ch ∷ after)))
