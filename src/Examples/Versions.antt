-- ===== src/Examples/Versions.antt =====
-- Runs of crates/night24-gts/src/semver.rs.
use night.Gts.Semver.Inc.{Greater, inc_semver-Greater}
use night.Gts.Semver.Print.{released, parse_semver-format_core}
use night.Text.Decimal.{to_decimal}
use night.Gts.Semver.Order.{AtMost, compare_semver_trans}
use night.Text.{lit, Text}
use night.Gts.Semver.{
  Semver, compare_semver, inc_semver, satisfies_pairs, parse_semver, compare_prerelease,
  format_core, satisfies_caret, operator_holds,
}
use night.Prelude.{◌≡◌, refl, some, ◌∷◌, arith, []}

abbrev v100 : Semver
v100 = record { major = 1; minor = 0; patch = 0; prerelease = []; build = [] }

abbrev v100a : Semver
v100a = record v100 { prerelease = lit "alpha" ∷ lit "1" ∷ [] }

abbrev v120 : Semver
v120 = record v100 { minor = 2 }

compare_semver_trans_example : AtMost (compare_semver v100a v120)
unfolding compare_semver compare_prerelease
compare_semver_trans_example = compare_semver_trans v100a v100 v120 refl refl

inc_semver-Greater_example : Greater v100 (lit "1.1.0")
unfolding inc_semver format_core to_decimal night.Text.text_eq
inc_semver-Greater_example =
    inc_semver-Greater v100 (lit "minor") (lit "1.1.0") (omega arith) (omega arith) (omega arith)
      refl

parse_semver-format_core_example : parse_semver (format_core 1 20 3) ≡ some (released 1 20 3)
parse_semver-format_core_example =
    parse_semver-format_core 1 20 3 (omega arith) (omega arith) (omega arith)
