-- ===== src/Planner/Plan/Parts.antt =====
-- What a successful `promote` has computed, step by step.
use ro_repo.Base.{◌≡◌, true, false, some, [], ok, arith}
use ro_repo.Base.Text.{Text}
use ro_repo.Base.Dict.{text_key, lookup, values}
use ro_repo.Planner.Registry.{Policies}
use ro_repo.Planner.Packages.{Manifest, packages}
use ro_repo.Planner.Candidate.{verify_candidate}
use ro_repo.Planner.Plan.{
  Outcome, groups_of, verify_retained, select_items, index_from, without, add_all, check_unrelated,
  check_updates, promote,
}

pub record Promoted (pol : Policies) (cm sm : Manifest) (group : Text) (o : Outcome) : Type 0 where
  pub policy_of : lookup group pol.groups ≡ some o.policy
  pub chosen_of : verify_candidate o.candidate o.policy pol.owner group ≡ ok o.chosen
  pub retained_of : groups_of pol.owner (values o.stable) ≡ ok o.retained
  pub verified : verify_retained o.stable pol o.retained ≡ ok tt
  pub candidate_of : packages pol.owner false cm ≡ ok o.candidate
  pub stable_of : packages pol.owner true sm ≡ ok o.stable
  pub old_of : select_items pol.owner group o.stable ≡ ok o.old_group
  pub additions_of : index_from [] o.chosen ≡ ok o.additions
  pub result_of : add_all o.additions (without o.old_group o.stable) ≡ ok o.result
  pub unrelated : check_unrelated pol.owner group o.result o.stable ≡ ok tt
  pub updates : check_updates o.old_group o.additions ≡ ok tt

pub promote-Promoted :
    (pol : Policies) (cm sm : Manifest) (group : Text) (o : Outcome)
    → promote pol cm sm group ≡ ok o
    → Promoted pol cm sm group o
unfolding promote
promote-Promoted pol cm sm group o h = ground arith
