-- ===== src/Gts/Semver/Inc.antt =====
-- `inc_semver` of semver.rs against `parse_semver` and `compare_semver`.
use night.Gts.Semver.Print.{released, parse_semver-format_core, parse_semver-format_prerelease}
use night.Text.Decimal.{u64_max}
use night.Gts.Semver.{Semver, parse_semver, compare_semver, inc_semver, format_core, add_one_u64}
use night.Text.{Text, text_eq, lit}
use night.Prelude.{
  Result, ok, Bool-cases, pos, ◌+◌, ◌<◌, ◌≡◌, refl, subst, inl, inr, some, List, ◌∷◌, ◌++◌,
  append-nil, arith, [],
}

ok-injective : (s t : Text) → ◌≡◌ {A = Result Text Text} (ok s) (ok t) → s ≡ t
ok-injective s t h = cc

-- What a caller of `inc` learns from the text that it returns.
abbrev pub Greater : Semver → Text → Type 0
Greater sv v =
    (next : Semver) × (parse_semver v ≡ some next)
    × (compare_semver next sv ≡ pos 1)
    × (next.build ≡ [])

Greater-of :
    (sv next : Semver) (s v : Text)
    → ◌≡◌ {A = Result Text Text} (ok s) (ok v)
    → parse_semver s ≡ some next
    → compare_semver next sv ≡ pos 1
    → next.build ≡ []
    → Greater sv v
Greater-of sv next s v e read more build =
    (next, subst (λ t. parse_semver t ≡ some next) (ok-injective s v e) read, more, build)

module _ (sv : Semver) (release v : Text) (ha : sv.major < u64_max) (hb : sv.minor < u64_max)
    (hc : sv.patch < u64_max) where
  Greater-patch :
      (suffix : Text) (pre : List Text)
      → parse_semver (format_core sv.major sv.minor (sv.patch + 1) ++ suffix)
        ≡ some (record (released sv.major sv.minor (sv.patch + 1)) { prerelease = pre })
      → ◌≡◌ {A = Result Text Text}
          (ok (format_core sv.major sv.minor (add_one_u64 sv.patch) ++ suffix))
          (ok v)
      → Greater sv v
  unfolding compare_semver
  Greater-patch suffix pre read e =
      let w : add_one_u64 sv.patch ≡ sv.patch + 1 = omega arith in
      Greater-of sv (record (released sv.major sv.minor (sv.patch + 1)) { prerelease = pre })
        (format_core sv.major sv.minor (sv.patch + 1) ++ suffix) v (rw w at e) read (ground arith)
        refl

  -- What `inc` prints is a version that the parser reads, without build metadata, and that has a
  -- higher precedence, if none of the three numbers is the largest of 64 bits.
  pub inc_semver-Greater : inc_semver sv release ≡ ok v → Greater sv v
  unfolding inc_semver compare_semver
  inc_semver-Greater h = elim (Bool-cases (text_eq release (lit "major"))) [
    | inl major ↦
        let w : add_one_u64 sv.major ≡ sv.major + 1 = omega arith in
        Greater-of sv (released (sv.major + 1) 0 0) (format_core (sv.major + 1) 0 0) v
          (rw (major, w) at h)
          (parse_semver-format_core (sv.major + 1) 0 0 (omega arith) (omega arith) (omega arith))
          (ground arith) refl
    | inr a ↦ elim (Bool-cases (text_eq release (lit "minor"))) [
      | inl minor ↦
          let w : add_one_u64 sv.minor ≡ sv.minor + 1 = omega arith in
          Greater-of sv (released sv.major (sv.minor + 1) 0) (format_core sv.major (sv.minor + 1) 0)
            v (rw (a, minor, w) at h)
            (parse_semver-format_core sv.major (sv.minor + 1) 0 (omega arith) (omega arith)
              (omega arith))
            (ground arith) refl
      | inr b ↦ elim (Bool-cases (text_eq release (lit "patch"))) [
        | inl patch ↦
            Greater-patch [] []
              (rw append-nil (
                parse_semver-format_core sv.major sv.minor (sv.patch + 1) (omega arith)
                  (omega arith) (omega arith)))
              (rw append-nil (rw (a, b, patch) at h))
        | inr c ↦ elim (Bool-cases (text_eq release (lit "prerelease"))) [
          | inl prerelease ↦
              Greater-patch (lit "-0") (lit "0" ∷ [])
                (parse_semver-format_prerelease sv.major sv.minor (sv.patch + 1) (omega arith)
                  (omega arith) (omega arith))
                (rw (a, b, c, prerelease) at h)
          | inr d ↦ ground arith
        ]
      ]
    ]
  ]
