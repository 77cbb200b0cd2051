-- ===== src/Site/Tests/Witnesses.antt =====
-- The run of the tests of the site, as the theorems on it take it.
use native.Mathlib.Decide.{ℕ_discrete}
use ro_repo.Base.{◌≡◌, refl, [], ◌∷◌, some, List, false}
use ro_repo.Base.Text.{Text, codes}
use ro_repo.Base.Dict.{lookup, contains, insert, text_key}
use ro_repo.Site.Tree.Stream.{stream_injective}
use ro_repo.Site.Records.{beta}
use ro_repo.Site.Immutable.{Kept, Reach, here, after, staged, rolled_back, Reach-Kept}
use ro_repo.Site.Published.{Published, stage_remote_channel-Published}
use ro_repo.Site.RolledBack.{RolledBack, rollback_remote_channel-RolledBack}
use ro_repo.Site.Local.Undone.{Undone, publish-Undone}
use ro_repo.Site.Promotion.Cleared.{Cleared}
use ro_repo.Site.Tests.{
  world, first_dir, second_dir, stored_site, first_site, second_site, evidence, rolled_site,
  whole_snapshot, tools, rollback_request, the_publication, local_before, local_after,
  staged_second,
}
use ro_repo.Base.Text.{is_digit, rsplit, is_space, is_alpha, add_text, add_texts}
use ro_repo.Site.Tree.{
  walk, walk_all, place, sorted, to_bytes, stream, directory_tree_digest, copy, copy_all,
}
use ro_repo.Site.Records.{is_run, verify_gpg_signature}
use ro_repo.Site.Verify.{
  parse_snapshot_nevra, walk_asset, safe_store_asset, snapshot_packages, is_sha256, check_icon,
  check_apps, check_store, verify_signed_remote_publication,
}
use ro_repo.Site.Stage.{
  check_stored, new_snapshot, stage_pages_snapshot, keep_history, copy_arch, copy_file, copy_store,
  new_tree, swap, check_publication, stage_tree, stage_remote_channel,
}
use ro_repo.Site.Snapshot.{
  check_repository, check_repositories, folder_of, check_package, check_packages, check_copies,
  keys_of, verify_snapshot, rollback_folder, verify_signed_rpms,
}
use ro_repo.Site.Rollback.{
  check_request, find_route, check_stable, check_rollback, evidence_of, record_evidence,
  finish_rollback, rollback_remote_channel,
}
use ro_repo.Site.Promotion.{is_snapshot_id}
use ro_repo.Site.Local.{copy_repository, signature_of, make_stage, move_link, swap_links, publish}

abbrev files : List (Text × Text)
files = (codes "a", codes "b") ∷ []

stream_injective_example : files ≡ files
unfolding ℕ_discrete walk walk_all place sorted to_bytes stream directory_tree_digest copy copy_all
stream_injective_example =
    stream_injective files files
      (0 ∷ 0 ∷ 0 ∷ 0 ∷ 0 ∷ 0 ∷ 0 ∷ 1 ∷ b'a' ∷ 0 ∷ 0 ∷ 0 ∷ 0 ∷ 0 ∷ 0 ∷ 0 ∷ 1 ∷ b'b' ∷ []) refl refl

stage_remote_channel-Published_example :
    Published world second_dir beta first_site second_site staged_second
unfolding ℕ_discrete lookup contains insert is_digit rsplit is_space walk walk_all place sorted
    to_bytes stream directory_tree_digest copy copy_all is_run verify_gpg_signature
    parse_snapshot_nevra walk_asset safe_store_asset snapshot_packages is_sha256 check_icon
    check_apps check_store verify_signed_remote_publication check_stored new_snapshot
    stage_pages_snapshot keep_history copy_arch copy_file copy_store new_tree swap check_publication
    stage_tree stage_remote_channel check_repository check_repositories folder_of check_package
    check_packages check_copies keys_of verify_snapshot rollback_folder verify_signed_rpms
    check_request find_route check_stable check_rollback evidence_of record_evidence finish_rollback
    rollback_remote_channel
stage_remote_channel-Published_example =
    stage_remote_channel-Published world second_dir beta first_site second_site staged_second refl

rollback_remote_channel-RolledBack_example :
    RolledBack world rollback_request second_site rolled_site evidence
unfolding ℕ_discrete lookup contains insert is_digit rsplit is_space walk walk_all place sorted
    to_bytes stream directory_tree_digest copy copy_all is_run verify_gpg_signature
    parse_snapshot_nevra walk_asset safe_store_asset snapshot_packages is_sha256 check_icon
    check_apps check_store verify_signed_remote_publication check_stored new_snapshot
    stage_pages_snapshot keep_history copy_arch copy_file copy_store new_tree swap check_publication
    stage_tree stage_remote_channel check_repository check_repositories folder_of check_package
    check_packages check_copies keys_of verify_snapshot rollback_folder verify_signed_rpms
    check_request find_route check_stable check_rollback evidence_of record_evidence finish_rollback
    rollback_remote_channel
rollback_remote_channel-RolledBack_example =
    rollback_remote_channel-RolledBack world rollback_request second_site rolled_site evidence refl

publish-Undone_example : Undone world (codes "d1") local_before local_after
unfolding ℕ_discrete lookup contains insert is_digit is_alpha rsplit is_space add_text add_texts
    walk walk_all place sorted to_bytes stream directory_tree_digest copy copy_all is_run
    verify_gpg_signature check_repository check_repositories folder_of check_package check_packages
    check_copies keys_of verify_snapshot rollback_folder verify_signed_rpms copy_repository
    signature_of make_stage move_link swap_links publish is_snapshot_id
publish-Undone_example =
    publish-Undone world tools (codes "d2") (codes "d1") the_publication (some whole_snapshot) false
      local_before local_after refl refl refl

run_reach : Reach world stored_site rolled_site
unfolding ℕ_discrete lookup contains insert is_digit rsplit is_space walk walk_all place sorted
    to_bytes stream directory_tree_digest copy copy_all is_run verify_gpg_signature
    parse_snapshot_nevra walk_asset safe_store_asset snapshot_packages is_sha256 check_icon
    check_apps check_store verify_signed_remote_publication check_stored new_snapshot
    stage_pages_snapshot keep_history copy_arch copy_file copy_store new_tree swap check_publication
    stage_tree stage_remote_channel check_repository check_repositories folder_of check_package
    check_packages check_copies keys_of verify_snapshot rollback_folder verify_signed_rpms
    check_request find_route check_stable check_rollback evidence_of record_evidence finish_rollback
    rollback_remote_channel
run_reach =
    after (after (after here (staged first_dir beta refl)) (staged second_dir beta refl))
      (rolled_back rollback_request refl)

Reach-Kept_example : Kept stored_site rolled_site
Reach-Kept_example = Reach-Kept world stored_site rolled_site run_reach
