-- ===== src/Text/Parts.antt =====
-- Splitting, trimming and joining of strings, as `str` and `[String]` do it.
use mathlib.Core.List.{reverse-reverse}
use night.Prelude.{
  ℕ, ◌≡◌, refl, Bool, true, false, ◌&&◌, not, Option, none, some, List, [], ◌∷◌, ◌++◌, reverse,
  arith, all, ◌==◌, if◌then◌else◌, all-reverse,
}
use night.Text.{Text, is_whitespace}

-- `trim_start_matches` and `trim_end_matches` by a test on characters.
unfoldable pub trim_start_by : (ℕ → Bool) → Text → Text
trim_start_by p [] = []
trim_start_by p (c ∷ s) = if p c then trim_start_by p s else c ∷ s

unfoldable pub trim_by : (ℕ → Bool) → Text → Text
unfolding trim_start_by
trim_by p s = reverse (trim_start_by p (reverse (trim_start_by p s)))

-- `str::trim`.
unfoldable pub trim : Text → Text
unfolding trim_by is_whitespace
trim s = trim_by is_whitespace s

-- `str::split_once` on one character.
unfoldable pub split_once : ℕ → Text → Option (Text × Text)
split_once d [] = none
split_once d (c ∷ s) =
    if c == d
    then some ([], s)
    else elim (split_once d s) [ none ↦ none | some p ↦ some (c ∷ p.0, p.1) ]

-- One more character in front of the first part.
abbrev pub cons_first : ℕ → List Text → List Text
cons_first c [] = (c ∷ []) ∷ []
cons_first c (p ∷ ps) = (c ∷ p) ∷ ps

-- `str::split` on one character: the empty string has one empty part.
unfoldable pub split : ℕ → Text → List Text
split d [] = [] ∷ []
split d (c ∷ s) = let rest = split d s in if c == d then [] ∷ rest else cons_first c rest

-- `str::strip_prefix` on one character.
unfoldable pub strip_prefix : ℕ → Text → Option Text
strip_prefix p [] = none
strip_prefix p (c ∷ s) = if c == p then some s else none

-- `str::starts_with`, `str::contains`.
unfoldable pub starts_with : Text → Text → Bool
starts_with s [] = true
starts_with [] (d ∷ p) = false
starts_with (c ∷ s) (d ∷ p) = c == d && starts_with s p

-- Skips the empty parts.
unfoldable pub nonempty : List Text → List Text
nonempty [] = []
nonempty ([] ∷ ps) = nonempty ps
nonempty ((c ∷ p) ∷ ps) = (c ∷ p) ∷ nonempty ps

-- The maximal parts between characters that pass a test.
unfoldable pub split_by : (ℕ → Bool) → Text → List Text
split_by p [] = [] ∷ []
split_by p (c ∷ s) = let rest = split_by p s in if p c then [] ∷ rest else cons_first c rest

-- `str::split_whitespace`.
unfoldable pub split_whitespace : Text → List Text
unfolding split_by nonempty is_whitespace
split_whitespace s = nonempty (split_by is_whitespace s)

-- `[String]::join`.
unfoldable pub join : Text → List Text → Text
join sep [] = []
join sep (t ∷ []) = t
join sep (t ∷ u ∷ ts) = t ++ (sep ++ join sep (u ∷ ts))

module _ (p : ℕ → Bool) where
  -- A text of which no character passes the test has nothing to trim.
  pub trim_start_by-none : (s : Text) → all (λ c. not (p c)) s ≡ true → trim_start_by p s ≡ s
  unfolding trim_start_by
  trim_start_by-none [] h = refl
  trim_start_by-none (c ∷ s) h = ground arith

  pub trim_by-none : (s : Text) → all (λ c. not (p c)) s ≡ true → trim_by p s ≡ s
  unfolding trim_by
  trim_by-none s h =
      rw (trim_start_by-none s h, trim_start_by-none (reverse s) (all-reverse (λ c. not (p c)) s h))
        (reverse-reverse s)

-- A separator that does not occur splits nothing.
pub split_once-none : (d : ℕ) (s : Text) → all (λ c. not (c == d)) s ≡ true → split_once d s ≡ none
unfolding split_once
split_once-none d [] h = refl
split_once-none d (c ∷ s) h = ground (arith, split_once-none d s)

pub split-none : (d : ℕ) (s : Text) → all (λ c. not (c == d)) s ≡ true → split d s ≡ s ∷ []
unfolding split
split-none d [] h = refl
split-none d (c ∷ s) h = ground (arith, split-none d s)

-- The first occurrence of the separator is where the text is cut.
pub split_once-append :
    (d : ℕ) (s t : Text)
    → all (λ c. not (c == d)) s ≡ true
    → split_once d (s ++ d ∷ t) ≡ some (s, t)
unfolding split_once
split_once-append d [] t h = ground arith
split_once-append d (c ∷ s) t h = ground (arith, split_once-append d s t)

pub split-append :
    (d : ℕ) (s t : Text) → all (λ c. not (c == d)) s ≡ true → split d (s ++ d ∷ t) ≡ s ∷ split d t
unfolding split
split-append d [] t h = ground arith
split-append d (c ∷ s) t h = ground (arith, split-append d s t)
