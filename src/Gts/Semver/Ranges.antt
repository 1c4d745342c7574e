-- ===== src/Gts/Semver/Ranges.antt =====
-- `satisfies_range` of semver.rs.
use night.Text.{Text, is_empty, is_whitespace}
use night.Text.Parts.{strip_prefix, trim}
use night.Gts.Semver.{
  Semver, satisfies_range, satisfies_pairs, compare_semver, satisfies_caret, parse_semver,
  operator_holds, satisfies_tilde,
}
use night.Gts.Semver.Order.{AtMost, compare_semver-flip, compare_semver_trans}
use night.Prelude.{
  ok, Option-cases, all, ℤ, negate, is_nonnegative, ◌≡◌, refl, ◌↔◌, inl, inr, true, false, not,
  none, some, List, ◌∷◌, arith, [],
}

negate-nonnegative : (z : ℤ) → is_nonnegative (negate z) ≡ true → AtMost z
negate-nonnegative z h = ground arith

nonnegative_iff :
    (a b : Semver) → (is_nonnegative (compare_semver a b) ≡ true) ↔ AtMost (compare_semver b a)
nonnegative_iff a b = (
  λ h. negate-nonnegative (compare_semver b a) (rw (compare_semver-flip b a) at h),
  λ h. rw (compare_semver-flip b a) (ground arith),
)

-- A caret range is closed upwards within a major version: what a version satisfies, every later
-- version of the same major number satisfies.
caret_upward :
    (sv later : Semver) (rest : Text)
    → satisfies_range sv (b'^' ∷ rest) ≡ ok true
    → later.major ≡ sv.major
    → AtMost (compare_semver sv later)
    → satisfies_range later (b'^' ∷ rest) ≡ ok true
unfolding satisfies_range satisfies_caret strip_prefix
caret_upward sv later rest h same le = elim (Option-cases (parse_semver (trim rest))) [
  | inl e ↦ ground arith
  | inr p ↦ ground (
    arith,
    p.1,
    (nonnegative_iff sv p.0).0,
    (nonnegative_iff later p.0).1,
    compare_semver_trans p.0 sv later,
  )
]

-- What satisfies a tilde range satisfies the caret range of the same version.
tilde_implies_caret :
    (sv : Semver) (rest : Text)
    → satisfies_range sv (b'~' ∷ rest) ≡ ok true
    → satisfies_range sv (b'^' ∷ rest) ≡ ok true
unfolding satisfies_range satisfies_caret satisfies_tilde strip_prefix
tilde_implies_caret sv rest h = ground arith

-- A word of a range.
abbrev pub IsWord : Text → Type 0
IsWord s = (is_empty s ≡ false) × (all (λ c. not (is_whitespace c)) s ≡ true)

-- No mark stands in front of the range.
abbrev pub IsUnmarked : Text → Type 0
IsUnmarked range = (strip_prefix b'^' range ≡ none) × (strip_prefix b'~' range ≡ none)

-- The words of a range of operators and versions, and the versions that they parse to.
abbrev pub words : List (Text × Text × Semver) → List Text
words [] = []
words ((op, version, rhs) ∷ pairs) = op ∷ version ∷ words pairs

abbrev pub AllParse : List (Text × Text × Semver) → Type 0
AllParse [] = Unit
AllParse ((op, version, rhs) ∷ pairs) = (parse_semver version ≡ some rhs) × AllParse pairs

-- Pairs of operators and versions that parse are a conjunction.
satisfies_pairs-all :
    (sv : Semver) (pairs : List (Text × Text × Semver))
    → AllParse pairs
    → satisfies_pairs sv (words pairs) ≡ all (λ p. operator_holds p.0 (compare_semver sv p.2)) pairs
unfolding satisfies_pairs
satisfies_pairs-all sv [] h = refl
satisfies_pairs-all sv ((op, version, rhs) ∷ pairs) h =
    ground (arith, satisfies_pairs-all sv pairs h.1)
