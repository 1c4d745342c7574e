-- ===== src/Examples/Globs.antt =====
-- Runs of `glob_match` of crates/night24-core/src/tool_executor/filesystem.rs.
use night.Prelude.{◌≡◌, refl, ◌↔◌, true, false}
use night.Core.Glob.{glob_match, Denotes, glob_match_iff, single_stars, star}
use night.Text.{lit}

glob_match_iff_example :
    (glob_match (lit "*.r?") (lit "lib.rs") ≡ true) ↔ Denotes (lit "*.r?") (lit "lib.rs")
unfolding single_stars
glob_match_iff_example = glob_match_iff (lit "*.r?") (lit "lib.rs") refl

accepted : glob_match (lit "*.r?") (lit "lib.rs") ≡ true
unfolding glob_match star
accepted = refl

-- Two stars at the end do not match the empty rest.
two_stars : glob_match (lit "a**") (lit "a") ≡ false
unfolding glob_match star
two_stars = refl
