-- ===== src/Gts/Semver.antt =====
-- crates/night24-gts/src/stdlib/modules/semver.rs: versions, their precedence, `inc` and ranges.
-- An `i32` that is -1, 0 or 1 is an integer; `u64` additions wrap, as in a release build.
pub mod Order
pub mod Print
pub mod Inc
pub mod Ranges
use night.Text.Parts.{trim, split_whitespace, strip_prefix, split, split_once}
use night.Text.Decimal.{parse_u64, to_decimal}
use Prim.Native.Nat.{Ordering, compare}
use night.Text.{Text, is_ascii_alphanumeric, is_empty, text_eq, lit}
use night.Prelude.{
  ℕ, unwrap_or, Result, ok, err, ltb, leb, ◌==◌, if◌then◌else◌, length, all, any, ℤ, pos, negsuc,
  is_positive, is_nonnegative, is_zero, ◌+◌, ◌%◌, ◌^◌, Bool, true, false, not, ◌&&◌, ◌||◌, Option,
  none, some, List, ◌∷◌, ◌++◌, ◌>>=◌, [], ◌<◌,
}

pub record Semver : Type 0 where
  pub major : ℕ
  pub minor : ℕ
  pub patch : ℕ
  pub prerelease : List Text
  pub build : List Text

abbrev is_segment_char : ℕ → Bool
is_segment_char c = is_ascii_alphanumeric c || c == b'-'

unfoldable pub valid_meta_segment : Text → Bool
unfolding is_ascii_alphanumeric
valid_meta_segment seg = not (is_empty seg) && all is_segment_char seg

-- The last conjunct of the source is `true` on both outcomes of the parse.
unfoldable pub valid_pre_segment : Text → Bool
unfolding is_ascii_alphanumeric
valid_pre_segment seg =
    not (is_empty seg)
    && all is_segment_char seg
    && elim (parse_u64 seg) [ none ↦ true | some n ↦ true ]

-- The dotted segments of an optional part.
unfoldable pub segments : Text → List Text
segments part = if is_empty part then [] else split b'.' part

-- From the three numbers on.
unfoldable pub parse_parts : List Text → Text → Text → Option Semver
unfolding segments
parse_parts (a ∷ b ∷ c ∷ []) prerelease build = do
  major ← parse_u64 a
  minor ← parse_u64 b
  patch ← parse_u64 c
  if any is_empty (a ∷ b ∷ c ∷ [])
      then none
      else if not (all valid_pre_segment (segments prerelease))
      then none
      else if not (all valid_meta_segment (segments build))
      then none
      else some (record {
        major = major;
        minor = minor;
        patch = patch;
        prerelease = segments prerelease;
        build = segments build;
      })
parse_parts nums prerelease build = none

unfoldable pub parse_semver : Text → Option Semver
parse_semver value₀ =
    let value₁ = trim value₀ in
    let value = unwrap_or value₁ (strip_prefix b'v' value₁) in
    let (core, build) = unwrap_or (value, []) (split_once b'+' value) in
    let (main, prerelease) = unwrap_or (core, []) (split_once b'-' core) in
    parse_parts (split b'.' main) prerelease build

-- `Ord::cmp` on strings: by code points, as UTF-8 keeps their order.
unfoldable pub text_cmp : Text → Text → Ordering
text_cmp [] [] = Ordering.eq
text_cmp [] (d ∷ t) = Ordering.lt
text_cmp (c ∷ s) [] = Ordering.gt
text_cmp (c ∷ s) (d ∷ t) = elim (compare c d) [
  | Ordering.lt ↦ Ordering.lt
  | Ordering.eq ↦ text_cmp s t
  | Ordering.gt ↦ Ordering.gt
]

-- The `match` on the two parsed segments; `la` and `lb` are the texts.
unfoldable pub compare_keys : Option ℕ → Option ℕ → Text → Text → Ordering
compare_keys (some x) (some y) la lb = compare x y
compare_keys (some x) none la lb = Ordering.lt
compare_keys none (some y) la lb = Ordering.gt
compare_keys none none la lb = text_cmp la lb

unfoldable pub compare_segment : Text → Text → Ordering
compare_segment la lb = compare_keys (parse_u64 la) (parse_u64 lb) la lb

-- `ordering as i32`
abbrev pub to_i32 : Ordering → ℤ
to_i32 Ordering.lt = negsuc 0
to_i32 Ordering.eq = pos 0
to_i32 Ordering.gt = pos 1

-- The loop; `by_length` is what the function returns after it.
unfoldable pub compare_segments : ℤ → List Text → List Text → ℤ
compare_segments by_length [] b = by_length
compare_segments by_length (la ∷ a) [] = by_length
compare_segments by_length (la ∷ a) (lb ∷ b) = elim (compare_segment la lb) [
  | Ordering.lt ↦ negsuc 0
  | Ordering.eq ↦ compare_segments by_length a b
  | Ordering.gt ↦ pos 1
]

unfoldable pub compare_prerelease : List Text → List Text → ℤ
compare_prerelease [] [] = pos 0
compare_prerelease [] (lb ∷ b) = pos 1
compare_prerelease (la ∷ a) [] = negsuc 0
compare_prerelease (la ∷ a) (lb ∷ b) =
    compare_segments (to_i32 (compare (length (la ∷ a)) (length (lb ∷ b)))) (la ∷ a) (lb ∷ b)

unfoldable pub compare_semver : Semver → Semver → ℤ
compare_semver a b =
    if not (a.major == b.major)
    then (if ltb b.major a.major then pos 1 else negsuc 0)
    else if not (a.minor == b.minor)
    then (if ltb b.minor a.minor then pos 1 else negsuc 0)
    else if not (a.patch == b.patch)
    then (if ltb b.patch a.patch then pos 1 else negsuc 0)
    else compare_prerelease a.prerelease b.prerelease

-- `format!("{}.{}.{}", …)`
unfoldable pub format_core : ℕ → ℕ → ℕ → Text
format_core major minor patch =
    to_decimal major ++ (b'.' ∷ (to_decimal minor ++ (b'.' ∷ to_decimal patch)))

-- `n += 1` on `u64`
abbrev pub add_one_u64 : ℕ → ℕ
add_one_u64 n = (n + 1) % 2 ^ 64

unfoldable pub inc_semver : Semver → Text → Result Text Text
inc_semver sv release =
    if text_eq release (lit "major")
    then ok (format_core (add_one_u64 sv.major) 0 0)
    else if text_eq release (lit "minor")
    then ok (format_core sv.major (add_one_u64 sv.minor) 0)
    else if text_eq release (lit "patch")
    then ok (format_core sv.major sv.minor (add_one_u64 sv.patch))
    else if text_eq release (lit "prerelease")
    then ok (format_core sv.major sv.minor (add_one_u64 sv.patch) ++ lit "-0")
    else err (lit "semver.inc: invalid release type: " ++ release)

-- The `match op` of a range.
unfoldable pub operator_holds : Text → ℤ → Bool
operator_holds op cmp =
    if text_eq op (lit ">=")
    then is_nonnegative cmp
    else if text_eq op (lit ">")
    then is_positive cmp
    else if text_eq op (lit "<=")
    then not (is_positive cmp)
    else if text_eq op (lit "<")
    then not (is_nonnegative cmp)
    else if text_eq op (lit "=") || text_eq op (lit "==")
    then is_zero cmp
    else true

-- The `while` over pairs of parts; a version that does not parse is skipped.
unfoldable pub satisfies_pairs : Semver → List Text → Bool
satisfies_pairs sv [] = true
satisfies_pairs sv (op ∷ []) = true
satisfies_pairs sv (op ∷ version ∷ parts) = elim (parse_semver version) [
  | none ↦ satisfies_pairs sv parts
  | some rhs ↦
      let rest = satisfies_pairs sv parts in
      if operator_holds op (compare_semver sv rhs) then rest else false
]

abbrev invalid_range : Text
invalid_range = lit "semver.satisfies: invalid range"

-- The branches of `^` and `~`, on what stands behind the mark.
unfoldable pub satisfies_caret : Semver → Text → Result Bool Text
satisfies_caret sv rest = elim (parse_semver (trim rest)) [
  | none ↦ err invalid_range
  | some base ↦ ok (sv.major == base.major && is_nonnegative (compare_semver sv base))
]

unfoldable pub satisfies_tilde : Semver → Text → Result Bool Text
satisfies_tilde sv rest = elim (parse_semver (trim rest)) [
  | none ↦ err invalid_range
  | some base ↦
      ok (
        sv.major == base.major && sv.minor == base.minor && is_nonnegative (compare_semver sv base))
]

-- A range without a mark.
unfoldable pub satisfies_plain : Semver → Text → Result Bool Text
satisfies_plain sv range =
    if leb 2 (length (split_whitespace range))
    then ok (satisfies_pairs sv (split_whitespace range))
    else elim (parse_semver range) [
      | none ↦ ok false
      | some base ↦ ok (is_zero (compare_semver sv base))
    ]

unfoldable pub satisfies_range : Semver → Text → Result Bool Text
satisfies_range sv range = elim (strip_prefix b'^' range) [
  | some rest ↦ satisfies_caret sv rest
  | none ↦ elim (strip_prefix b'~' range) [
    | some rest ↦ satisfies_tilde sv rest
    | none ↦ satisfies_plain sv range
  ]
]
