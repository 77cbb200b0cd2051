-- ===== src/Site/Immutable.antt =====
-- What the operations of tools/ro_repo.py on a site never change: its snapshots, its histories and
-- the evidence of its rollbacks.
use ro_repo.Base.{
  ◌≡◌, refl, none, some, Result, ok, err, arith, inl, inr, Bool-cases, Option-cases, Result-cases,
}
use ro_repo.Base.Text.{Text, text_eq_iff, codes}
use ro_repo.Base.Dict.{Dict, text_key, lookup, insert, contains, lookup-insert, contains-lookup}
use ro_repo.Site.Tree.{Node, copy, child}
use ro_repo.Site.Records.{
  World, Channel, beta, stable, Lane, Site, Evidence, Publication, load_manifest, lane, set_lane,
  tree_digest,
}
use ro_repo.Site.Stage.{
  Stored, check_stored, new_snapshot, stage_pages_snapshot, Staged, keep_history, stage_tree,
  stage_remote_channel, check_publication, new_tree, swap,
}
use ro_repo.Site.Rollback.{
  Request, Route, rollback_remote_channel, finish_rollback, record_evidence, evidence_of,
  check_rollback,
}

-- What was there is there still, unchanged.
abbrev pub Grows : {V : Type 0} → Dict Text V → Dict Text V → Type 0
Grows {V} d d' = (k : Text) (v : V) → lookup k d ≡ some v → lookup k d' ≡ some v

pub record LaneKept (l l' : Lane) : Type 0 where
  pub history : Grows l.history l'.history
  pub rollbacks : Grows l.rollbacks l'.rollbacks

pub record Kept (s s' : Site) : Type 0 where
  pub snapshots : Grows s.snapshots s'.snapshots
  pub beta_kept : LaneKept s.beta_lane s'.beta_lane
  pub stable_kept : LaneKept s.stable_lane s'.stable_lane

LaneKept-refl : (l : Lane) → LaneKept l l
LaneKept-refl l = record { history = λ k v h. h; rollbacks = λ k v h. h }

LaneKept-trans : (l m n : Lane) → LaneKept l m → LaneKept m n → LaneKept l n
LaneKept-trans l m n a b = record {
  history = λ k v h. b.history k v (a.history k v h);
  rollbacks = λ k v h. b.rollbacks k v (a.rollbacks k v h);
}

pub Kept-refl : (s : Site) → Kept s s
Kept-refl s = record {
  snapshots = λ k v h. h;
  beta_kept = LaneKept-refl s.beta_lane;
  stable_kept = LaneKept-refl s.stable_lane;
}

pub Kept-trans : (s t u : Site) → Kept s t → Kept t u → Kept s u
Kept-trans s t u a b = record {
  snapshots = λ k v h. b.snapshots k v (a.snapshots k v h);
  beta_kept = LaneKept-trans s.beta_lane t.beta_lane u.beta_lane a.beta_kept b.beta_kept;
  stable_kept =
      LaneKept-trans s.stable_lane t.stable_lane u.stable_lane a.stable_kept b.stable_kept;
}

insert-Grows :
    {V : Type 0} (k : Text) (v : V) (d : Dict Text V) → lookup k d ≡ none → Grows d (insert k v d)
insert-Grows k v d n j w h = ground (arith, lookup-insert k j v d, text_eq_iff k j)

new_snapshot-Kept :
    (w : World) (snapshot : Node) (id candidate : Text) (s s' : Site) (r : Stored)
    → lookup id s.snapshots ≡ none
    → new_snapshot w snapshot id candidate s ≡ ok (r, s')
    → Kept s s'
unfolding new_snapshot
new_snapshot-Kept w snapshot id candidate s s' r n h =
    elim (Result-cases (tree_digest w (some (copy snapshot)))) [
      | inl (e, q) ↦ ground arith
      | inr (d, q) ↦
          let is : record s { snapshots = insert id (copy snapshot) s.snapshots } ≡ s' =
            ground arith in
          rw (← is) (record {
            snapshots = insert-Grows id (copy snapshot) s.snapshots n;
            beta_kept = LaneKept-refl s.beta_lane;
            stable_kept = LaneKept-refl s.stable_lane;
          })
    ]

pub stage_pages_snapshot-Kept :
    (w : World) (name : Text) (snapshot : Node) (s s' : Site) (r : Stored)
    → stage_pages_snapshot w name snapshot s ≡ ok (r, s')
    → Kept s s'
unfolding stage_pages_snapshot
stage_pages_snapshot-Kept w name snapshot s s' r h =
    elim (Result-cases
      (load_manifest w (child (codes "repository-snapshot-v1.json") (some snapshot)))) [
        | inl (e, q) ↦ ground arith
        | inr (m, q) ↦ elim (Result-cases (tree_digest w (some snapshot))) [
          | inl (e, t) ↦ ground arith
          | inr (d, t) ↦ elim (Option-cases (lookup m.snapshot_id s.snapshots)) [
            | inl n ↦ new_snapshot-Kept w snapshot m.snapshot_id d s s' r n (ground arith)
            | inr (old, f) ↦ elim (Result-cases (check_stored w old m.snapshot_id d)) [
              | inl (e, u) ↦ ground arith
              | inr (x, u) ↦ let is : s ≡ s' = ground arith in rw (← is) (Kept-refl s)
            ]
          ]
        ]
      ]

set_lane-Kept :
    (c : Channel) (l : Lane) (s : Site)
    → Grows (lane c s).history l.history
    → Grows (lane c s).rollbacks l.rollbacks
    → Kept s (set_lane c l s)
set_lane-Kept beta l s h r = record {
  snapshots = λ k v m. m;
  beta_kept = record { history = h; rollbacks = r };
  stable_kept = LaneKept-refl s.stable_lane;
}
set_lane-Kept stable l s h r = record {
  snapshots = λ k v m. m;
  beta_kept = LaneKept-refl s.beta_lane;
  stable_kept = record { history = h; rollbacks = r };
}

keep_history-Grows :
    (w : World) (d : Node) (run : Text) (l l' : Lane)
    → keep_history w d run l ≡ ok l'
    → Grows l.history l'.history × (l'.rollbacks ≡ l.rollbacks) × (l'.current ≡ l.current)
unfolding keep_history
keep_history-Grows w d run l l' h = elim (Option-cases (lookup run l.history)) [
  | inl n ↦
      let is : record l { history = insert run (copy d) l.history } ≡ l' = ground arith in
      (rw (← is) (insert-Grows run (copy d) l.history n), rw (← is) refl, rw (← is) refl)
  | inr (old, f) ↦ elim (Result-cases (tree_digest w (some d))) [
    | inl (e, q) ↦ ground arith
    | inr (x, q) ↦ elim (Result-cases (tree_digest w (some old))) [
      | inl (e, u) ↦ ground arith
      | inr (y, u) ↦
          let is : l ≡ l' = ground arith in (rw (← is) (λ k v m. m), rw (← is) refl, rw (← is) refl)
    ]
  ]
]

stage_tree-Same :
    (w : World) (d snapshot : Node) (p : Publication) (l l' : Lane) (r : Staged)
    → stage_tree w d snapshot p l ≡ ok (r, l')
    → (l'.history ≡ l.history) × (l'.rollbacks ≡ l.rollbacks)
unfolding stage_tree
stage_tree-Same w d snapshot p l l' r h = elim (Result-cases (new_tree w d (some snapshot) p)) [
  | inl (e, q) ↦ ground arith
  | inr (new, q) ↦ elim (Result-cases (swap w p new l.current)) [
    | inl (e, u) ↦ ground arith
    | inr ((x, place), u) ↦
        let is : record l { current = some place } ≡ l' = ground arith in
        (rw (← is) refl, rw (← is) refl)
  ]
]

-- Whatever comes of it, and also where it fails.
pub stage_remote_channel-Kept :
    (w : World) (d : Node) (c : Channel) (s : Site) → Kept s (stage_remote_channel w d c s).0
unfolding stage_remote_channel
stage_remote_channel-Kept w d c s = elim (Result-cases (check_publication w d c s)) [
  | inl (e, q) ↦ rw (q, stage_remote_channel) (Kept-refl s)
  | inr ((p, n), q) ↦ elim (Result-cases (keep_history w d p.publication_run (lane c s))) [
    | inl (e, u) ↦ rw (q, u, stage_remote_channel) (Kept-refl s)
    | inr (l, u) ↦
        let (grows, same, here) = keep_history-Grows w d p.publication_run (lane c s) l u in
        elim (Result-cases (stage_tree w d n p l)) [
          | inl (e, t) ↦
              rw (q, u, t, stage_remote_channel) (set_lane-Kept c l s grows (rw same (λ k v m. m)))
          | inr ((r, l'), t) ↦
              let (h, b) = stage_tree-Same w d n p l l' r t in
              rw (q, u, t, stage_remote_channel)
                (set_lane-Kept c l' s (rw h grows) (rw (b, same) (λ k v m. m)))
        ]
  ]
]

record_evidence-Kept : (r : Request) (e : Evidence) (s : Site) → Kept s (record_evidence r e s).0
unfolding record_evidence
record_evidence-Kept r e s =
    let l = lane r.channel s in
    elim (Option-cases (lookup r.rollback_run l.rollbacks)) [
      | inl n ↦ elim (Bool-cases (contains r.rollback_run l.rollbacks)) [
        | inl b ↦ rw (b, record_evidence) (Kept-refl s)
        | inr b ↦
            rw (b, record_evidence)
              (set_lane-Kept r.channel _ s (λ k v m. m)
                (insert-Grows r.rollback_run e l.rollbacks n))
      ]
      | inr (v, f) ↦
          rw (contains-lookup r.rollback_run v l.rollbacks f, record_evidence) (Kept-refl s)
    ]

finish_rollback-Kept :
    (r : Request) (route : Route) (s t : Site) (x : Result Staged)
    → Kept s t
    → Kept s (finish_rollback r route t x).0
unfolding finish_rollback
finish_rollback-Kept r route s t (err e) k = k
finish_rollback-Kept r route s t (ok x) k = elim (Bool-cases x.changed) [
  | inl b ↦
      rw (b, finish_rollback) (Kept-trans s t _ k (record_evidence-Kept r (evidence_of r route) t))
  | inr b ↦ rw (b, finish_rollback) k
]

pub rollback_remote_channel-Kept :
    (w : World) (r : Request) (s : Site) → Kept s (rollback_remote_channel w r s).0
unfolding rollback_remote_channel finish_rollback
rollback_remote_channel-Kept w r s = elim (Result-cases (check_rollback w r s)) [
  | inl (e, q) ↦ rw (q, rollback_remote_channel) (Kept-refl s)
  | inr (route, q) ↦
      let after = stage_remote_channel w route.target_dir r.channel s in
      rw (q, rollback_remote_channel)
        (finish_rollback-Kept r route s after.0 after.1
          (stage_remote_channel-Kept w route.target_dir r.channel s))
]

-- An operation that was called on the site, whatever came of it.
pub data Step (w : World) (s : Site) : Site → Type 0 where
  stored :
      (name : Text) (snapshot : Node) (r : Stored) {s' : Site}
      → stage_pages_snapshot w name snapshot s ≡ ok (r, s')
      → Step w s s'
  staged :
      (d : Node) (c : Channel) {s' : Site} → (stage_remote_channel w d c s).0 ≡ s' → Step w s s'
  rolled_back : (r : Request) {s' : Site} → (rollback_remote_channel w r s).0 ≡ s' → Step w s s'

pub data Reach (w : World) (s : Site) : Site → Type 0 where
  here : Reach w s s
  after : {t u : Site} → Reach w s t → Step w t u → Reach w s u

Step-Kept : (w : World) (s s' : Site) → Step w s s' → Kept s s'
Step-Kept w s s' (stored name snapshot r h) = stage_pages_snapshot-Kept w name snapshot s s' r h
Step-Kept w s s' (staged d c e) = rw (← e) (stage_remote_channel-Kept w d c s)
Step-Kept w s s' (rolled_back r e) = rw (← e) (rollback_remote_channel-Kept w r s)

-- However the operations follow one another, and also where they fail: a snapshot that is stored,
-- an entry of a history and the evidence of a rollback stay as they are.
pub Reach-Kept : (w : World) (s s' : Site) → Reach w s s' → Kept s s'
Reach-Kept w s s' here = Kept-refl s
Reach-Kept w s s' (after {t} r step) =
    Kept-trans s t s' (Reach-Kept w s t r) (Step-Kept w t s' step)
