-- ===== src/Planner/Plan/Promotion.antt =====
-- The promises of `plan`: one group changes, nothing is downgraded, no bytes are swapped.
use ro_repo.Base.{◌≡◌, ◌≢◌, ◌↔◌, true, false, List, ok, arith, ◌⊎◌, inl, inr, Result-cases}
use ro_repo.Base.Text.{Text}
use ro_repo.Base.Dict.{In, values}
use ro_repo.Planner.Version.{Sign, less}
use ro_repo.Planner.Nevra.{Package, evr_compare}
use ro_repo.Planner.Registry.{Policies, Registry, policies}
use ro_repo.Planner.Packages.{Packages, Identity, Manifest, packages, group_of}
use ro_repo.Planner.Packages.Index.{HasKey}
use ro_repo.Planner.Plan.{Plan, Outcome, promote, plan, sorted}
use ro_repo.Planner.Plan.Parts.{Promoted, promote-Promoted}
use ro_repo.Planner.Plan.Lists.{sorted-In}
use ro_repo.Planner.Plan.Exact.{chosen-In, result-In, replaces_checked}
use ro_repo.Planner.Plan.Updates.{check_update_sound, check_update_bytes}

-- A chain of equivalences, one inside a sum.
through : {A B C D E : Type 0} → A ↔ B → B ↔ (C ⊎ D) → E ↔ C → A ↔ (E ⊎ D)
through {A} {B} {C} {D} {E} f g h = (λ a. to (g.0 (f.0 a)), from)
  where
    to : C ⊎ D → E ⊎ D
    to (inl c) = inl (h.1 c)
    to (inr d) = inr d

    from : E ⊎ D → A
    from (inl e) = f.1 (g.1 (inl (h.0 e)))
    from (inr d) = f.1 (g.1 (inr d))

-- The outcome that a plan was printed from.
record From (digest : List Package → Text) (cm sm : Manifest) (pol : Policies) (g : Text) (r : Plan)
    : Type 0 where
  outcome : Outcome
  parts : Promoted pol cm sm g outcome
  selected : r.selected_group_packages ≡ sorted outcome.chosen
  resulting : r.resulting_stable_packages ≡ sorted (values outcome.result)

module _ (digest : List Package → Text) (cm sm : Manifest) (registry : Registry) (g : Text)
    (r : Plan) (pol : Policies) (h : plan digest cm sm registry g ≡ ok r)
    (known : policies registry ≡ ok pol) where
  plan-From : From digest cm sm pol g r
  unfolding plan
  plan-From = elim (Result-cases (promote pol cm sm g)) [
    | inl (e, x) ↦ ground arith
    | inr (o, x) ↦ record {
      outcome = o;
      parts = promote-Promoted pol cm sm g o x;
      selected = ground arith;
      resulting = ground arith;
    }
  ]

  -- The selected packages are exactly the candidate's packages of the group.
  pub selected_iff :
      (candidate : Packages)
      → packages pol.owner false cm ≡ ok candidate
      → (p : Package)
      → In p r.selected_group_packages ↔ (In p (values candidate) × (group_of pol.owner p ≡ ok g))
  selected_iff candidate c p =
      let f = plan-From in
      let o = f.outcome in
      let same : o.candidate ≡ candidate = ground (arith, f.parts.candidate_of) in
      let i = chosen-In pol cm sm g o f.parts p in
      let s = sorted-In p o.chosen in rw (f.selected, ← same) (λ m. i.0 (s.0 m), λ m. s.1 (i.1 m))

  -- The resulting set is exactly the selected packages and the stable packages of other groups,
  -- each as it was.
  pub resulting_iff :
      (stable : Packages)
      → packages pol.owner true sm ≡ ok stable
      → (p : Package)
      → In p r.resulting_stable_packages ↔ (
          In p r.selected_group_packages
          ⊎ (In p (values stable) × (¬ (group_of pol.owner p ≡ ok g))))
  resulting_iff stable c p =
      let f = plan-From in
      let o = f.outcome in
      let same : o.stable ≡ stable = ground (arith, f.parts.stable_of) in
      let i = result-In pol cm sm g o f.parts p in
      let s = sorted-In p o.chosen in
      let t = sorted-In p (values o.result) in rw (f.selected, f.resulting, ← same) (through t i s)

  -- A selected package that replaces a stable one of the same name and architecture is not older,
  -- and if the NEVRA is the same then so are the signed bytes.
  pub no_downgrade :
      (stable : Packages) (k : Identity) (p prev : Package)
      → packages pol.owner true sm ≡ ok stable
      → In p r.selected_group_packages
      → In prev (values stable)
      → group_of pol.owner prev ≡ ok g
      → HasKey k p
      → HasKey k prev
      → ((s : Sign) × (evr_compare p prev ≡ ok s) × (s ≢ less))
        × (prev.nevra ≡ p.nevra
            → prev.published_signed_artifact_sha256 ≡ p.published_signed_artifact_sha256)
  no_downgrade stable k p prev c m n e x y =
      let f = plan-From in
      let o = f.outcome in
      let same : o.stable ≡ stable = ground (arith, f.parts.stable_of) in
      let chosen = (sorted-In p o.chosen).0 (rw f.selected at m) in
      let checked =
        replaces_checked pol cm sm g o f.parts k p prev chosen (rw (← same) at n) e x y in
      (check_update_sound p prev checked, check_update_bytes p prev checked)
