-- ===== src/Gts/Semver/Order.antt =====
-- The precedence of versions in semver.rs is a total preorder.
use night.Text.{Text}
use night.Gts.Semver.{
  text_cmp, compare_segment, compare_keys, compare_segments, to_i32, compare_prerelease,
  compare_semver, Semver,
}
use Prim.Native.Nat.{Ordering, compare}
use night.Prelude.{
  ◌≡◌, refl, ◌∷◌, arith, [], length, ℤ, pos, negsuc, negate, ℕ, suc, List, is_positive, false,
}

abbrev flip : Ordering → Ordering
flip Ordering.lt = Ordering.gt
flip Ordering.eq = Ordering.eq
flip Ordering.gt = Ordering.lt

text_cmp-flip : (s t : Text) → text_cmp t s ≡ flip (text_cmp s t)
unfolding text_cmp
text_cmp-flip [] [] = refl
text_cmp-flip [] (d ∷ t) = refl
text_cmp-flip (c ∷ s) [] = refl
text_cmp-flip (c ∷ s) (d ∷ t) = ground (arith, text_cmp-flip s t)

text_cmp-eq : (s t : Text) → text_cmp s t ≡ Ordering.eq → s ≡ t
unfolding text_cmp
text_cmp-eq [] [] h = refl
text_cmp-eq [] (d ∷ t) h = cc
text_cmp-eq (c ∷ s) [] h = cc
text_cmp-eq (c ∷ s) (d ∷ t) h = ground (arith, text_cmp-eq s t)

text_cmp_trans :
    (s t u : Text)
    → text_cmp s t ≡ Ordering.lt
    → text_cmp t u ≡ Ordering.lt
    → text_cmp s u ≡ Ordering.lt
unfolding text_cmp
text_cmp_trans [] [] u h k = cc
text_cmp_trans [] (d ∷ t) [] h k = cc
text_cmp_trans [] (d ∷ t) (e ∷ u) h k = refl
text_cmp_trans (c ∷ s) [] u h k = cc
text_cmp_trans (c ∷ s) (d ∷ t) [] h k = cc
text_cmp_trans (c ∷ s) (d ∷ t) (e ∷ u) h k =
    ground (arith, text_cmp_trans s t u, text_cmp-eq s t, text_cmp-eq t u)

compare_segment-flip : (la lb : Text) → compare_segment lb la ≡ flip (compare_segment la lb)
unfolding compare_segment compare_keys
compare_segment-flip la lb = ground (arith, text_cmp-flip la lb)

-- Equal segments compare alike with every other one.
compare_segment-eq :
    (la lb lc : Text)
    → compare_segment la lb ≡ Ordering.eq
    → compare_segment la lc ≡ compare_segment lb lc
unfolding compare_segment compare_keys
compare_segment-eq la lb lc h = ground (arith, text_cmp-eq la lb)

compare_segment_trans :
    (la lb lc : Text)
    → compare_segment la lb ≡ Ordering.lt
    → compare_segment lb lc ≡ Ordering.lt
    → compare_segment la lc ≡ Ordering.lt
unfolding compare_segment compare_keys
compare_segment_trans la lb lc h k = ground (arith, text_cmp_trans la lb lc)

-- The loop with the result that the function starts it with.
abbrev compare_all : List Text → List Text → ℤ
compare_all a b = compare_segments (to_i32 (compare (length a) (length b))) a b

compare-suc : (m n : ℕ) → compare (suc m) (suc n) ≡ compare m n
compare-suc m n = ground arith

compare_all-cons :
    (la lb : Text) (a b : List Text)
    → compare_all (la ∷ a) (lb ∷ b) ≡ elim (compare_segment la lb) [
      | Ordering.lt ↦ negsuc 0
      | Ordering.eq ↦ compare_all a b
      | Ordering.gt ↦ pos 1
    ]
unfolding compare_segments
compare_all-cons la lb a b = rw (compare-suc (length a) (length b))

compare_all-flip : (a b : List Text) → compare_all b a ≡ negate (compare_all a b)
unfolding compare_segments
compare_all-flip [] [] = ground arith
compare_all-flip [] (lb ∷ b) = ground arith
compare_all-flip (la ∷ a) [] = ground arith
compare_all-flip (la ∷ a) (lb ∷ b) = ground (
  arith,
  compare_all-cons la lb a b,
  compare_all-cons lb la b a,
  compare_segment-flip la lb,
  compare_all-flip a b,
)

-- `compare(…) <= 0`
abbrev pub AtMost : ℤ → Type 0
AtMost z = is_positive z ≡ false

compare_all_trans :
    (a b c : List Text)
    → AtMost (compare_all a b)
    → AtMost (compare_all b c)
    → AtMost (compare_all a c)
unfolding compare_segments
compare_all_trans [] [] c h k = k
compare_all_trans [] (lb ∷ b) [] h k = ground arith
compare_all_trans [] (lb ∷ b) (lc ∷ c) h k = ground arith
compare_all_trans (la ∷ a) [] c h k = ground arith
compare_all_trans (la ∷ a) (lb ∷ b) [] h k = ground arith
compare_all_trans (la ∷ a) (lb ∷ b) (lc ∷ c) h k = ground (
  arith,
  compare_all-cons la lb a b,
  compare_all-cons lb lc b c,
  compare_all-cons la lc a c,
  compare_segment-eq la lb lc,
  compare_segment-eq lc lb la,
  compare_segment-flip la lb,
  compare_segment-flip lb lc,
  compare_segment-flip la lc,
  compare_segment_trans la lb lc,
  compare_all_trans a b c,
)

compare_prerelease-flip :
    (a b : List Text) → compare_prerelease b a ≡ negate (compare_prerelease a b)
unfolding compare_prerelease
compare_prerelease-flip [] [] = refl
compare_prerelease-flip [] (lb ∷ b) = refl
compare_prerelease-flip (la ∷ a) [] = refl
compare_prerelease-flip (la ∷ a) (lb ∷ b) = compare_all-flip (la ∷ a) (lb ∷ b)

compare_prerelease_trans :
    (a b c : List Text)
    → AtMost (compare_prerelease a b)
    → AtMost (compare_prerelease b c)
    → AtMost (compare_prerelease a c)
unfolding compare_prerelease
compare_prerelease_trans [] [] c h k = k
compare_prerelease_trans [] (lb ∷ b) c h k = cc
compare_prerelease_trans (la ∷ a) b [] h k = refl
compare_prerelease_trans (la ∷ a) [] (lc ∷ c) h k = cc
compare_prerelease_trans (la ∷ a) (lb ∷ b) (lc ∷ c) h k =
    compare_all_trans (la ∷ a) (lb ∷ b) (lc ∷ c) h k

-- Swapping the versions negates the result of the comparison.
pub compare_semver-flip : (a b : Semver) → compare_semver b a ≡ negate (compare_semver a b)
unfolding compare_semver
compare_semver-flip a b = ground (arith, compare_prerelease-flip a.prerelease b.prerelease)

-- Precedence is transitive: a version at most a second, which is at most a third, is at most the
-- third, with prerelease segments of numbers, words and any mix of them.
pub compare_semver_trans :
    (a b c : Semver)
    → AtMost (compare_semver a b)
    → AtMost (compare_semver b c)
    → AtMost (compare_semver a c)
unfolding compare_semver
compare_semver_trans a b c h k =
    ground (arith, compare_prerelease_trans a.prerelease b.prerelease c.prerelease)
