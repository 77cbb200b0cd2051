-- ===== src/Planner/Version/Tests.antt =====
-- Runs of `version_compare`.
use ro_repo.Base.Text.{codes, is_digit, is_alpha}
use ro_repo.Planner.Version.{
  version_compare, less, same, more, version_loop, round, marked, segments, cut, compare_segments,
  strip, is_mark, wanted,
}
use ro_repo.Base.{◌≡◌, refl}

tilde_is_older : version_compare (codes "1.0~rc1") (codes "1.0") ≡ less
unfolding version_compare version_loop round marked segments cut compare_segments strip is_mark
    wanted is_digit is_alpha
tilde_is_older = refl

numbers_by_value : version_compare (codes "1.10") (codes "1.9") ≡ more
unfolding version_compare version_loop round marked segments cut compare_segments strip is_mark
    wanted is_digit is_alpha
numbers_by_value = refl

caret_is_newer : version_compare (codes "1.0^git1") (codes "1.0") ≡ more
unfolding version_compare version_loop round marked segments cut compare_segments strip is_mark
    wanted is_digit is_alpha
caret_is_newer = refl

separators_do_not_count : version_compare (codes "1.0_2") (codes "1.00.02") ≡ same
unfolding version_compare version_loop round marked segments cut compare_segments strip is_mark
    wanted is_digit is_alpha
separators_do_not_count = refl
