-- ===== src/Site/Mirror.antt =====
-- What `stage_remote_channel` of tools/ro_repo.py puts in the place of a channel.
use ro_repo.Base.{
  ◌≡◌, ap, sym, true, Option, some, [], ok, arith, inl, inr, Bool-cases, Option-cases, Result-cases,
}
use ro_repo.Base.Text.{Text, codes}
use ro_repo.Base.Dict.{text_key}
use ro_repo.Site.Tree.{
  Node, file, dir, link, entry, child, bytes_of, is_plain_dir, copy, copy_all, walk_all,
  directory_tree_digest,
}
use ro_repo.Site.Tree.Stream.{copy_all-walk}
use ro_repo.Site.Records.{World, Publication, tree_digest}
use ro_repo.Site.Stage.{copy_arch, copy_file, copy_store, new_tree}

-- A directory with a digest has no link, and is its own copy.
digest-copy :
    (w : World) (n : Node) (d : Text)
    → is_plain_dir (some n) ≡ true
    → tree_digest w (some n) ≡ ok d
    → copy n ≡ n
unfolding directory_tree_digest copy copy_all
digest-copy w (file b) d p h = ground arith
digest-copy w (link n) d p h = ground arith
digest-copy w (dir es) d p h = elim (Result-cases (walk_all [] es)) [
  | inl (e, q) ↦ ground arith
  | inr (fs, q) ↦ ap dir (copy_all-walk [] es fs q)
]

-- The repository of the snapshot, unchanged
pub Mirrors : Text → Option Node → Node → Type 0
Mirrors arch rpm n = (child arch rpm ≡ some n) × (is_plain_dir (some n) ≡ true)

copy_arch-Mirrors :
    (w : World) (arch : Text) (rpm : Option Node) (n : Node)
    → copy_arch w arch rpm ≡ ok n
    → Mirrors arch rpm n
unfolding copy_arch Mirrors
copy_arch-Mirrors w arch rpm n h = elim (Option-cases (child arch rpm)) [
  | inl q ↦ ground arith
  | inr (source, q) ↦ elim (Bool-cases (is_plain_dir (some source))) [
    | inr b ↦ ground arith
    | inl b ↦ elim (Result-cases (tree_digest w (some source))) [
      | inl (e, t) ↦ ground arith
      | inr (d, t) ↦ elim (Result-cases (tree_digest w (some (copy source)))) [
        | inl (e, u) ↦ ground arith
        | inr (d', u) ↦
            let same : copy source ≡ n = ground arith in
            let is : source ≡ n = rw (digest-copy w source d b t) at same in
            (rw (← is) q, rw (← is) b)
      ]
    ]
  ]
]

-- The tree that the channel shows: the three repositories of the snapshot, and the manifest and the
-- signature of the publication.
pub record Shows (publication_dir : Node) (snapshot new : Node) : Type 0 where
  pub x86_64 :
      child (codes "x86_64") (some new)
      ≡ child (codes "x86_64") (child (codes "rpm") (some snapshot))
  pub aarch64 :
      child (codes "aarch64") (some new)
      ≡ child (codes "aarch64") (child (codes "rpm") (some snapshot))
  pub source :
      child (codes "source") (some new)
      ≡ child (codes "source") (child (codes "rpm") (some snapshot))
  pub manifest :
      bytes_of (child (codes "publication-v1.json") (some new))
      ≡ bytes_of (child (codes "publication-v1.json") (some publication_dir))
  pub signature :
      bytes_of (child (codes "publication-v1.json.asc") (some new))
      ≡ bytes_of (child (codes "publication-v1.json.asc") (some publication_dir))

copy_file-eq :
    (name : Text) (d n : Node)
    → copy_file name d ≡ ok n
    → bytes_of (some n) ≡ bytes_of (child name (some d))
unfolding copy_file
copy_file-eq name d n h = ground arith

pub new_tree-Shows :
    (w : World) (d snapshot new : Node) (p : Publication)
    → new_tree w d (some snapshot) p ≡ ok new
    → Shows d snapshot new
unfolding new_tree Mirrors
new_tree-Shows w d snapshot new p h =
    let rpm = child (codes "rpm") (some snapshot) in
    elim (Result-cases (copy_arch w (codes "x86_64") rpm)) [
      | inl (e, q) ↦ ground arith
      | inr (a, q) ↦ elim (Result-cases (copy_arch w (codes "aarch64") rpm)) [
        | inl (e, t) ↦ ground arith
        | inr (b, t) ↦ elim (Result-cases (copy_arch w (codes "source") rpm)) [
          | inl (e, u) ↦ ground arith
          | inr (c, u) ↦ elim (Result-cases (copy_file (codes "publication-v1.json") d)) [
            | inl (e, v) ↦ ground arith
            | inr (m, v) ↦ elim (Result-cases (copy_file (codes "publication-v1.json.asc") d)) [
              | inl (e, x) ↦ ground arith
              | inr (s, x) ↦ elim (Result-cases (copy_store w d p.store_tree_sha256)) [
                | inl (e, y) ↦ ground arith
                | inr (st, y) ↦
                    let is : dir (
                          entry (codes "x86_64") a (
                            entry (codes "aarch64") b (
                              entry (codes "source") c (
                                entry (codes "publication-v1.json") m
                                  (entry (codes "publication-v1.json.asc") s st)))))
                        ≡ new =
                      ground arith in
                    rw (← is) (record {
                      x86_64 = sym (copy_arch-Mirrors w (codes "x86_64") rpm a q).0;
                      aarch64 = sym (copy_arch-Mirrors w (codes "aarch64") rpm b t).0;
                      source = sym (copy_arch-Mirrors w (codes "source") rpm c u).0;
                      manifest = copy_file-eq (codes "publication-v1.json") d m v;
                      signature = copy_file-eq (codes "publication-v1.json.asc") d s x;
                    })
              ]
            ]
          ]
        ]
      ]
    ]
