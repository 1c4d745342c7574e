-- ===== src/Gts/Semver/Print.antt =====
-- What `parse_semver` of semver.rs reads of a version printed as `{}.{}.{}`.
use night.Text.Parts.{
  strip_prefix, trim, split, trim_by-none, split_once, split-append, split_once-none, split-none,
  split_once-append,
}
use night.Text.Decimal.{
  to_decimal, all-to_decimal, u64_max, to_decimal-ne-nil, parse_u64-to_decimal, parse_u64,
}
use night.Gts.Semver.{format_core, parse_semver, Semver, parse_parts, valid_pre_segment, segments}
use night.Text.{is_ascii_digit, is_whitespace, Text, is_empty, lit}
use night.Prelude.{
  ◌==◌, all, all-append-true, all-implies, ℕ, ◌≡◌, Bool, true, false, ◌||◌, ◌∷◌, arith, unwrap_or,
  ◌≤◌, refl, ◌≢◌, not, some, ◌++◌, [],
}

abbrev is_core : ℕ → Bool
is_core c = is_ascii_digit c || c == b'.'

format_core-all : (a b c : ℕ) → all is_core (format_core a b c) ≡ true
unfolding format_core
format_core-all a b c = all-append-true is_core (to_decimal a) _ (digits-core a) (
    ground (
      arith,
      all-append-true is_core (to_decimal b) (b'.' ∷ to_decimal c) (digits-core b)
          (ground (arith, digits-core c)),
    ))
  where
    digits-core : (n : ℕ) → all is_core (to_decimal n) ≡ true
    digits-core n =
        all-implies is_ascii_digit is_core (to_decimal n) (λ x h. ground arith) (all-to_decimal n)

-- A printed version has no character that is special to the parser, but the dash of the suffix.
abbrev is_printed : ℕ → Bool
is_printed c = is_core c || c == b'-'

printed-space : (x : ℕ) → is_printed x ≡ true → not (is_whitespace x) ≡ true
unfolding is_whitespace is_ascii_digit
printed-space x h = ground arith

printed-plus : (x : ℕ) → is_printed x ≡ true → not (x == b'+') ≡ true
unfolding is_ascii_digit
printed-plus x h = ground arith

core-dash : (x : ℕ) → is_core x ≡ true → not (x == b'-') ≡ true
unfolding is_ascii_digit
core-dash x h = ground arith

digit-dot : (x : ℕ) → is_ascii_digit x ≡ true → not (x == b'.') ≡ true
unfolding is_ascii_digit
digit-dot x h = ground arith

strip_prefix-printed : (t : Text) → all is_printed t ≡ true → unwrap_or t (strip_prefix b'v' t) ≡ t
unfolding strip_prefix is_ascii_digit
strip_prefix-printed [] h = refl
strip_prefix-printed (c ∷ t) h = ground arith

trim-printed : (t : Text) → all is_printed t ≡ true → trim t ≡ t
unfolding trim
trim-printed t h =
    trim_by-none is_whitespace t
      (all-implies is_printed (λ c. not (is_whitespace c)) t printed-space h)

-- The parts of a text at its first dash.
abbrev at_dash : Text → Text × Text
at_dash t = unwrap_or (t, []) (split_once b'-' t)

parse_semver-printed :
    (t : Text)
    → all is_printed t ≡ true
    → parse_semver t ≡ parse_parts (split b'.' (at_dash t).0) (at_dash t).1 []
unfolding parse_semver
parse_semver-printed t h = rw (
  trim-printed t h,
  strip_prefix-printed t h,
  split_once-none b'+' t (all-implies is_printed (λ c. not (c == b'+')) t printed-plus h),
)

split-format_core :
    (a b c : ℕ) → split b'.' (format_core a b c) ≡ to_decimal a ∷ to_decimal b ∷ to_decimal c ∷ []
unfolding format_core
split-format_core a b c = rw (
  split-append b'.' (to_decimal a) (to_decimal b ++ (b'.' ∷ to_decimal c)) (no_dot a),
  split-append b'.' (to_decimal b) (to_decimal c) (no_dot b),
  split-none b'.' (to_decimal c) (no_dot c),
)
  where
    no_dot : (n : ℕ) → all (λ x. not (x == b'.')) (to_decimal n) ≡ true
    no_dot n =
        all-implies is_ascii_digit (λ x. not (x == b'.')) (to_decimal n) digit-dot
          (all-to_decimal n)

is_empty-to_decimal : (n : ℕ) → is_empty (to_decimal n) ≡ false
is_empty-to_decimal n = go (to_decimal n) (to_decimal-ne-nil n)
  where
    go : (s : Text) → s ≢ [] → is_empty s ≡ false
    go [] h = absurd (h refl)
    go (c ∷ s) h = refl

-- Three printed numbers, and a prerelease that is absent or the segment 0.
abbrev pub released : ℕ → ℕ → ℕ → Semver
released a b c = record { major = a; minor = b; patch = c; prerelease = []; build = [] }

module _ (a b c : ℕ) (ha : a ≤ u64_max) (hb : b ≤ u64_max) (hc : c ≤ u64_max) where
  parse_parts-decimal :
      (pre : Text)
      → all valid_pre_segment (segments pre) ≡ true
      → parse_parts (to_decimal a ∷ to_decimal b ∷ to_decimal c ∷ []) pre []
        ≡ some (record (released a b c) { prerelease = segments pre })
  unfolding parse_parts
  parse_parts-decimal pre h = rw (
    parse_u64-to_decimal a ha,
    parse_u64-to_decimal b hb,
    parse_u64-to_decimal c hc,
    is_empty-to_decimal a,
    is_empty-to_decimal b,
    is_empty-to_decimal c,
    h,
  )

  -- The numbers of a version, each of 64 bits, are read back from `{}.{}.{}`.
  pub parse_semver-format_core : parse_semver (format_core a b c) ≡ some (released a b c)
  unfolding segments
  parse_semver-format_core =
      rw
        (
          parse_semver-printed (format_core a b c) (
              all-implies is_core is_printed (format_core a b c) (λ x h. ground arith)
                (format_core-all a b c)),
          split_once-none b'-' (format_core a b c) (
              all-implies is_core (λ x. not (x == b'-')) (format_core a b c) core-dash
                (format_core-all a b c)),
          split-format_core a b c,
        )
        (parse_parts-decimal [] refl)

  pub parse_semver-format_prerelease :
      parse_semver (format_core a b c ++ lit "-0")
      ≡ some (record (released a b c) { prerelease = lit "0" ∷ [] })
  unfolding segments split valid_pre_segment parse_u64
  parse_semver-format_prerelease =
      rw
        (
          parse_semver-printed (format_core a b c ++ lit "-0") (
              all-append-true is_printed (format_core a b c) (lit "-0")
                (all-implies is_core is_printed (format_core a b c) (λ x h. ground arith)
                  (format_core-all a b c))
                (unfold is_ascii_digit in refl)),
          split_once-append b'-' (format_core a b c) (lit "0") (
              all-implies is_core (λ x. not (x == b'-')) (format_core a b c) core-dash
                (format_core-all a b c)),
          split-format_core a b c,
        )
        (parse_parts-decimal (lit "0") refl)
