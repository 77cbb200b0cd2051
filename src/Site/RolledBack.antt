-- ===== src/Site/RolledBack.antt =====
-- What `rollback_remote_channel` of tools/ro_repo.py leaves behind.
use ro_repo.Base.{
  ◌≡◌, refl, true, false, some, ok, arith, inl, inr, Bool-cases, Option-cases, Result-cases,
}
use ro_repo.Base.Text.{text_eq, text_eq_iff, codes}
use ro_repo.Base.Dict.{text_key, lookup, insert, contains, lookup-insert}
use ro_repo.Site.Tree.{Node, child}
use ro_repo.Site.Records.{World, Lane, Site, Evidence, lane, set_lane, load_publication}
use ro_repo.Site.Verify.{verify_signed_remote_publication}
use ro_repo.Site.Stage.{Staged, stage_remote_channel}
use ro_repo.Site.Published.{Published, stage_remote_channel-Published, lane-set_lane}
use ro_repo.Site.Rollback.{
  Request, Route, check_request, sha_of, find_route, check_channel, check_rollback, evidence_of,
  record_evidence, finish_rollback, rollback_remote_channel,
}

-- The route of a rollback: another publication of the channel's history
pub record Found (w : World) (r : Request) (l : Lane) (route : Route) : Type 0 where
  pub in_history : lookup r.target_run l.history ≡ some route.target_dir
  pub read :
      load_publication w (child (codes "publication-v1.json") (some route.target_dir))
      ≡ ok route.to_publication
  pub named : route.to_publication.publication_run ≡ r.target_run
  pub other : text_eq route.from_publication.publication_run r.target_run ≡ false
  pub current : Node
  pub stands : l.current ≡ some current
  pub current_read :
      load_publication w (child (codes "publication-v1.json") (some current))
      ≡ ok route.from_publication

find_route-Found :
    (w : World) (r : Request) (l : Lane) (route : Route)
    → find_route w r l ≡ ok route
    → Found w r l route
unfolding find_route
find_route-Found w r l route h = elim (Option-cases l.current) [
  | inl q ↦ ground arith
  | inr (current, q) ↦
      let path = child (codes "publication-v1.json") (some current) in
      elim (Result-cases (load_publication w path)) [
        | inl (e, t) ↦ ground arith
        | inr (p, t) ↦ elim (Result-cases (sha_of w path)) [
          | inl (e, u) ↦ ground arith
          | inr (d, u) ↦ elim (Option-cases (lookup r.target_run l.history)) [
            | inl v ↦ ground arith
            | inr (target, v) ↦
                let target_path = child (codes "publication-v1.json") (some target) in
                elim (Result-cases (load_publication w target_path)) [
                  | inl (e, x) ↦ ground arith
                  | inr (p', x) ↦ elim (Result-cases (sha_of w target_path)) [
                    | inl (e, y) ↦ ground arith
                    | inr (d', y) ↦
                        let is : record {
                          target_dir = target;
                          from_publication = p;
                          from_sha256 = d;
                          to_publication = p';
                          to_sha256 = d';
                        }
                            ≡ route =
                          ground arith in
                        rw (← is) (record {
                          in_history = v;
                          read = x;
                          named = ground (arith, text_eq_iff p'.publication_run r.target_run);
                          other = ground arith;
                          current = current;
                          stands = q;
                          current_read = t;
                        })
                  ]
                ]
          ]
        ]
      ]
]

check_rollback-Found :
    (w : World) (r : Request) (s : Site) (route : Route)
    → check_rollback w r s ≡ ok route
    → Found w r (lane r.channel s) route
      × (contains r.rollback_run (lane r.channel s).rollbacks ≡ false)
unfolding check_rollback
check_rollback-Found w r s route h = elim (Result-cases (check_request r)) [
  | inl (e, q) ↦ ground arith
  | inr (tt, q) ↦ elim (Result-cases (find_route w r (lane r.channel s))) [
    | inl (e, t) ↦ ground arith
    | inr (x, t) ↦ elim (Option-cases (lookup x.to_publication.snapshot_id s.snapshots)) [
      | inl u ↦ ground arith
      | inr (n, u) ↦
          elim (Result-cases
            (verify_signed_remote_publication w (some x.target_dir) (some n) r.channel)) [
              | inl (e, v) ↦ ground arith
              | inr (p, v) ↦
                  elim (Result-cases (check_channel w r r.channel x.to_publication.snapshot_id n)) [
                    | inl (e, y) ↦ ground arith
                    | inr (tt, y) ↦
                        let is : x ≡ route = ground arith in
                        (rw (← is) (find_route-Found w r (lane r.channel s) x t), ground arith)
                  ]
            ]
    ]
  ]
]

-- A rollback that succeeded
pub record RolledBack (w : World) (r : Request) (s s' : Site) (e : Evidence) : Type 0 where
  pub route : Route
  pub found : Found w r (lane r.channel s) route
  pub mid : Site
  pub staged : Staged
  pub published : Published w route.target_dir r.channel s mid staged
  pub changed : staged.changed ≡ true
  pub current : (lane r.channel s').current ≡ (lane r.channel mid).current
  pub fresh : contains r.rollback_run (lane r.channel s).rollbacks ≡ false
  pub written : lookup r.rollback_run (lane r.channel s').rollbacks ≡ some e
  pub evidence : e ≡ evidence_of r route

record_evidence-eq :
    (r : Request) (e x : Evidence) (s s' : Site)
    → record_evidence r e s ≡ (s', ok x)
    → ((lane r.channel s').current ≡ (lane r.channel s).current)
      × (lookup r.rollback_run (lane r.channel s').rollbacks ≡ some e)
      × (x ≡ e)
unfolding record_evidence
record_evidence-eq r e x s s' h =
    let l = lane r.channel s in
    elim (Bool-cases (contains r.rollback_run l.rollbacks)) [
      | inl b ↦ ground arith
      | inr b ↦
          let m : Lane = record l { rollbacks = insert r.rollback_run e l.rollbacks } in
          let is : set_lane r.channel m s ≡ s' = ground arith in
          rw (← is, lane-set_lane r.channel m s)
            (
              refl,
              ground (
                arith,
                lookup-insert r.rollback_run r.rollback_run e l.rollbacks,
                text_eq_iff r.rollback_run r.rollback_run,
              ),
              ground arith,
            )
    ]

-- A rollback that succeeds found the run that was asked for in the channel's history, and another
-- run in its place; it staged that entry as a new tree, and wrote evidence of both runs under a
-- rollback run that had none.
pub rollback_remote_channel-RolledBack :
    (w : World) (r : Request) (s s' : Site) (e : Evidence)
    → rollback_remote_channel w r s ≡ (s', ok e)
    → RolledBack w r s s' e
unfolding rollback_remote_channel finish_rollback
rollback_remote_channel-RolledBack w r s s' e h = elim (Result-cases (check_rollback w r s)) [
  | inl (x, q) ↦ ground arith
  | inr (route, q) ↦
      let (found, fresh) = check_rollback-Found w r s route q in
      let after = stage_remote_channel w route.target_dir r.channel s in
      elim (Result-cases after.1) [
        | inl (x, t) ↦ ground arith
        | inr (staged, t) ↦ elim (Bool-cases staged.changed) [
          | inr b ↦ ground arith
          | inl b ↦
              let done : record_evidence r (evidence_of r route) after.0 ≡ (s', ok e) =
                ground arith in
              let (here, put, is) = record_evidence-eq r (evidence_of r route) e after.0 s' done in
              record {
                route = route;
                found = found;
                mid = after.0;
                staged = staged;
                published =
                    stage_remote_channel-Published w route.target_dir r.channel s after.0 staged
                      (ground arith);
                changed = b;
                current = here;
                fresh = fresh;
                written = rw is put;
                evidence = is;
              }
        ]
      ]
]
