-- ===== src/Site/Published.antt =====
-- What a staged channel of tools/ro_repo.py shows.
use ro_repo.Base.{
  ◌⊎◌, Bool, ◌≡◌, refl, ap, true, false, Option, none, some, ok, arith, inl, inr, Bool-cases,
  Option-cases, Result-cases,
}
use ro_repo.Base.Text.{Text, text_eq, text_eq_iff, codes}
use ro_repo.Base.Dict.{text_key, lookup, insert, lookup-insert}
use ro_repo.Site.Tree.{Node, child, copy}
use ro_repo.Site.Records.{
  World, Channel, Publication, Manifest, Lane, Site, load_manifest, channel_eq,
  verify_gpg_signature, lane, set_lane, tree_digest, load_publication, beta, stable,
}
use ro_repo.Site.Verify.{verify_signed_remote_publication, check_store_if}
use ro_repo.Site.Stage.{
  Staged, check_publication, keep_history, new_tree, swap, stage_tree, stage_remote_channel,
}
use ro_repo.Site.Mirror.{Shows, new_tree-Shows}

pub lane-set_lane : (c : Channel) (l : Lane) (s : Site) → lane c (set_lane c l s) ≡ l
lane-set_lane beta l s = refl
lane-set_lane stable l s = refl

keep_history-has :
    (w : World) (d : Node) (run : Text) (l l' : Lane)
    → keep_history w d run l ≡ ok l'
    → ((n : Node) × (lookup run l'.history ≡ some n)) × (l'.current ≡ l.current)
unfolding keep_history
keep_history-has w d run l l' h = elim (Option-cases (lookup run l.history)) [
  | inl n ↦
      let is : record l { history = insert run (copy d) l.history } ≡ l' = ground arith in
      rw (← is) (
        (copy d, ground (arith, lookup-insert run run (copy d) l.history, text_eq_iff run run)),
        refl,
      )
  | inr (old, f) ↦ elim (Result-cases (tree_digest w (some d))) [
    | inl (e, q) ↦ ground arith
    | inr (x, q) ↦ elim (Result-cases (tree_digest w (some old))) [
      | inl (e, u) ↦ ground arith
      | inr (y, u) ↦ let is : l ≡ l' = ground arith in rw (← is) ((old, f), refl)
    ]
  ]
]

-- Two trees whose digests are these
record Digests (w : World) (old new : Node) (x y : Text) : Type 0 where
  of_old : tree_digest w (some old) ≡ ok x
  of_new : tree_digest w (some new) ≡ ok y

-- The new tree stands there, and a tree that stood there before has another digest.
record Replaced (w : World) (old : Option Node) (new place : Node) : Type 0 where
  place_new : place ≡ new
  differs :
      (old ≡ none)
      ⊎ ((stood : Node) × (x : Text) × (y : Text) × (old ≡ some stood)
          × Digests w stood new x y
          × (text_eq x y ≡ false))

-- The tree that stood there stands there still, and has the digest of the new one.
record Same (w : World) (old : Option Node) (new place : Node) : Type 0 where
  place_old : old ≡ some place
  sha : Text
  equal : Digests w place new sha sha

swap_cases :
    (w : World) (p : Publication) (new : Node) (old : Option Node) (r : Staged) (place : Node)
    → swap w p new old ≡ ok (r, place)
    → (r.snapshot_id ≡ p.snapshot_id)
      × (r.publication_run ≡ p.publication_run)
      × (((r.changed ≡ true) × Replaced w old new place)
          ⊎ ((r.changed ≡ false) × Same w old new place))
unfolding swap
swap_cases w p new none r place h = (
  ground arith,
  ground arith,
  inl (ground arith, record { place_new = ground arith; differs = inl refl }),
)
swap_cases w p new (some target) r place h =
    elim (Result-cases (load_publication w (child (codes "publication-v1.json") (some target)))) [
      | inl (e, q) ↦ ground arith
      | inr (x, q) ↦ elim (Result-cases (tree_digest w (some target))) [
        | inl (e, t) ↦ ground arith
        | inr (a, t) ↦ elim (Result-cases (tree_digest w (some new))) [
          | inl (e, u) ↦ ground arith
          | inr (b, u) ↦ elim (Bool-cases (text_eq a b)) [
            | inl same ↦
                let is : target ≡ place = ground arith in
                let equal : b ≡ a = ground (arith, text_eq_iff a b) in
                let twin : tree_digest w (some new) ≡ ok a = rw u (ap ok equal) in
                (
                  ground arith,
                  ground arith,
                  inr (
                    ground arith,
                    record {
                      place_old = ap some is;
                      sha = a;
                      equal = record { of_old = rw (← is) t; of_new = twin };
                    },
                  ),
                )
            | inr other ↦ (
              ground arith,
              ground arith,
              inl (
                ground arith,
                record {
                  place_new = ground arith;
                  differs = inr (target, a, b, refl, record { of_old = t; of_new = u }, other);
                },
              ),
            )
          ]
        ]
      ]
    ]

-- What a verified publication is
pub record Verified (w : World) (d snapshot : Option Node) (c : Channel) (p : Publication)
    : Type 0 where
  pub manifest : Manifest
  pub described :
      load_manifest w (child (codes "repository-snapshot-v1.json") snapshot) ≡ ok manifest
  pub read : load_publication w (child (codes "publication-v1.json") d) ≡ ok p
  pub on_channel : channel_eq p.channel c ≡ true
  pub of_snapshot : p.snapshot_id ≡ manifest.snapshot_id
  pub signed :
      verify_gpg_signature w
        (child (codes "publication-v1.json") d)
        (child (codes "publication-v1.json.asc") d)
        manifest.metadata_signing_fingerprint
      ≡ ok tt
  pub stored : check_store_if w (child (codes "store") d) p.store_tree_sha256 manifest ≡ ok tt

pub verify-Verified :
    (w : World) (d snapshot : Option Node) (c : Channel) (p : Publication)
    → verify_signed_remote_publication w d snapshot c ≡ ok p
    → Verified w d snapshot c p
unfolding verify_signed_remote_publication
verify-Verified w d snapshot c p h =
    elim (Result-cases (load_manifest w (child (codes "repository-snapshot-v1.json") snapshot))) [
      | inl (e, q) ↦ ground arith
      | inr (m, q) ↦
          elim (Result-cases (load_publication w (child (codes "publication-v1.json") d))) [
            | inl (e, t) ↦ ground arith
            | inr (x, t) ↦
                let gpg =
                  verify_gpg_signature w (child (codes "publication-v1.json") d)
                    (child (codes "publication-v1.json.asc") d) m.metadata_signing_fingerprint in
                elim (Result-cases gpg) [
                  | inl (e, u) ↦ ground arith
                  | inr (tt, u) ↦
                      elim (Result-cases
                        (check_store_if w (child (codes "store") d) x.store_tree_sha256 m)) [
                          | inl (e, v) ↦ ground arith
                          | inr (tt, v) ↦
                              let is : x ≡ p = ground arith in
                              rw (← is) (record {
                                manifest = m;
                                described = q;
                                read = t;
                                on_channel = ground arith;
                                of_snapshot =
                                    ground (arith, text_eq_iff x.snapshot_id m.snapshot_id);
                                signed = u;
                                stored = v;
                              })
                        ]
                ]
          ]
    ]

check_publication-eq :
    (w : World) (d : Node) (c : Channel) (s : Site) (p : Publication) (n : Node)
    → check_publication w d c s ≡ ok (p, n)
    → (lookup p.snapshot_id s.snapshots ≡ some n) × Verified w (some d) (some n) c p
unfolding check_publication
check_publication-eq w d c s p n h =
    elim (Result-cases (load_publication w (child (codes "publication-v1.json") (some d)))) [
      | inl (e, q) ↦ ground arith
      | inr (x, q) ↦ elim (Option-cases (lookup x.snapshot_id s.snapshots)) [
        | inl t ↦ ground arith
        | inr (m, t) ↦
            elim (Result-cases (verify_signed_remote_publication w (some d) (some m) c)) [
              | inl (e, u) ↦ ground arith
              | inr (y, u) ↦
                  let is : x ≡ p = ground arith in
                  let at : m ≡ n = ground arith in
                  let v = verify-Verified w (some d) (some m) c y u in
                  let one : y ≡ x = ground (arith, v.read, q) in
                  (rw (← is, ← at) t, rw (← at, ← is, ← one) v)
            ]
      ]
    ]

-- What stands in the place of a channel: the new tree, where none stood or one of another digest
-- did, or the tree that stood there, of the same digest
pub data Outcome (w : World) (old now : Option Node) (new : Node) (changed : Bool) : Type 0 where
  first : changed ≡ true → old ≡ none → now ≡ some new → Outcome w old now new changed
  replaced :
      changed ≡ true
      → (stood : Node) (x y : Text) → old ≡ some stood
      → tree_digest w (some stood) ≡ ok x
      → tree_digest w (some new) ≡ ok y
      → text_eq x y ≡ false
      → now ≡ some new
      → Outcome w old now new changed
  kept :
      changed ≡ false
      → (stood : Node) (x : Text) → old ≡ some stood
      → tree_digest w (some stood) ≡ ok x
      → tree_digest w (some new) ≡ ok x
      → now ≡ some stood
      → Outcome w old now new changed

outcome_of :
    (w : World) (old : Option Node) (new place : Node) (changed : Bool)
    → ((changed ≡ true) × Replaced w old new place) ⊎ ((changed ≡ false) × Same w old new place)
    → Outcome w old (some place) new changed
outcome_of w old new place changed (inl (c, r)) = elim r.differs [
  | inl n ↦ first c n (ap some r.place_new)
  | inr (stood, x, y, o, d, n) ↦ replaced c stood x y o d.of_old d.of_new n (ap some r.place_new)
]
outcome_of w old new place changed (inr (c, s)) =
    kept c place s.sha s.place_old s.equal.of_old s.equal.of_new refl

-- A channel that was staged
pub record Published (w : World) (d : Node) (c : Channel) (s s' : Site) (r : Staged) : Type 0 where
  pub publication : Publication
  pub snapshot : Node
  pub snapshot_is_stored : lookup publication.snapshot_id s.snapshots ≡ some snapshot
  pub verified : Verified w (some d) (some snapshot) c publication
  pub snapshot_named : r.snapshot_id ≡ publication.snapshot_id
  pub run_named : r.publication_run ≡ publication.publication_run
  pub entered : (n : Node) × (lookup publication.publication_run (lane c s').history ≡ some n)
  pub new : Node
  pub shows : Shows d snapshot new
  pub outcome : Outcome w (lane c s).current (lane c s').current new r.changed

stage_tree-cases :
    (w : World) (d n : Node) (p : Publication) (l l' : Lane) (r : Staged)
    → stage_tree w d n p l ≡ ok (r, l')
    → (r.snapshot_id ≡ p.snapshot_id)
      × (r.publication_run ≡ p.publication_run)
      × ((new : Node) × Shows d n new × Outcome w l.current l'.current new r.changed)
      × (l'.history ≡ l.history)
unfolding stage_tree
stage_tree-cases w d n p l l' r h = elim (Result-cases (new_tree w d (some n) p)) [
  | inl (e, q) ↦ ground arith
  | inr (new, q) ↦ elim (Result-cases (swap w p new l.current)) [
    | inl (e, u) ↦ ground arith
    | inr ((x, place), u) ↦
        let (a, b, out) = swap_cases w p new l.current x place u in
        let is : record l { current = some place } ≡ l' = ground arith in
        let same : x ≡ r = ground arith in
        let shows = new_tree-Shows w d n new p q in
        rw (← is, ← same) (a, b, (new, shows, outcome_of w l.current new place x.changed out), refl)
  ]
]

-- A channel that was staged shows the repositories of the stored snapshot that its publication
-- names, under that publication's manifest and signature, which are verified, and its history has
-- the run. The new tree stands in the place of none or of one whose digest is another; where a tree
-- of the same digest stood, that one stands there still, and nothing else.
pub stage_remote_channel-Published :
    (w : World) (d : Node) (c : Channel) (s s' : Site) (r : Staged)
    → stage_remote_channel w d c s ≡ (s', ok r)
    → Published w d c s s' r
unfolding stage_remote_channel
stage_remote_channel-Published w d c s s' r h = elim (Result-cases (check_publication w d c s)) [
  | inl (e, q) ↦ ground arith
  | inr ((p, n), q) ↦ elim (Result-cases (keep_history w d p.publication_run (lane c s))) [
    | inl (e, u) ↦ ground arith
    | inr (l, u) ↦ elim (Result-cases (stage_tree w d n p l)) [
      | inl (e, t) ↦ ground arith
      | inr ((x, l'), t) ↦
          let is : set_lane c l' s ≡ s' = ground arith in
          let same : x ≡ r = ground arith in
          let (stored, verified) = check_publication-eq w d c s p n q in
          let (has, here) = keep_history-has w d p.publication_run (lane c s) l u in
          let (a, b, (new, shows, out), hist) = stage_tree-cases w d n p l l' x t in
          rw (← is, ← same)
            (record {
              publication = p;
              snapshot = n;
              snapshot_is_stored = stored;
              verified = verified;
              snapshot_named = a;
              run_named = b;
              entered = rw (lane-set_lane c l' s, hist) has;
              new = new;
              shows = shows;
              outcome = rw (lane-set_lane c l' s, ← here) out;
            })
    ]
  ]
]
