-- ===== src/Site/Local/Undone.antt =====
-- A local publication of tools/ro_repo.py is undone by a rollback.
use ro_repo.Base.{
  ◌≡◌, refl, Bool, false, not, Option, Result, ok, arith, ◌⊎◌, inl, inr, Result-cases, ◌>>=◌, ◌>>◌,
  raise_if,
}
use ro_repo.Base.Text.{Text, codes, text_eq}
use ro_repo.Base.Dict.{text_key, lookup, insert, lookup-insert}
use ro_repo.Site.Tree.{Node, child}
use ro_repo.Site.Records.{World, Publication}
use ro_repo.Site.Snapshot.{verify_snapshot}
use ro_repo.Site.Promotion.{is_snapshot_id}
use ro_repo.Site.Local.{
  Target, absent, directory, link_to, Local, Tools, make_stage, move_link, swap_links, publish,
  rollback,
}

-- A rollback shows what was there before the publication, and a second one the publication again.
pub record Undone (w : World) (old : Text) (l l' : Local) : Type 0 where
  pub back : (rollback w l').0.current ≡ link_to old
  pub kept : lookup old (rollback w l').0.published ≡ lookup old l.published
  pub again : (rollback w (rollback w l').0).0 ≡ l'

linked_twice :
    (w : World) (name old : Text) (stage : Node) (l l' : Local)
    → text_eq name old ≡ false
    → record {
      current = link_to name;
      previous = link_to old;
      published = insert name stage l.published;
    }
      ≡ l'
    → Undone w old l l'
unfolding rollback
linked_twice w name old stage l l' fresh is = rw (← is) (record {
  back = refl;
  kept = rw (lookup-insert name old stage l.published, fresh) refl;
  again = refl;
})

swap_links-Undone :
    (w : World) (name old : Text) (stage : Node) (l l' : Local)
    → text_eq name old ≡ false
    → l.current ≡ link_to old
    → swap_links name stage l ≡ (l', ok tt)
    → Undone w old l l'
unfolding swap_links move_link
swap_links-Undone w name old stage l l' fresh at h = elim (target_cases l.previous) [
  | inl d ↦ ground arith
  | inr moved ↦ linked_twice w name old stage l l' fresh (moved_eq moved)
]
  where
    target_cases : (t : Target) → (t ≡ directory) ⊎ ((t ≡ absent) ⊎ ((x : Text) × (t ≡ link_to x)))
    target_cases directory = inl refl
    target_cases absent = inr (inl refl)
    target_cases (link_to x) = inr (inr (x, refl))

    moved_eq :
        (l.previous ≡ absent) ⊎ ((x : Text) × (l.previous ≡ link_to x))
        → record {
          current = link_to name;
          previous = link_to old;
          published = insert name stage l.published;
        }
          ≡ l'
    moved_eq (inl e) = ground arith
    moved_eq (inr (x, e)) = ground arith

-- If the data has a new name then a publication over a link is undone by a rollback: the channel shows
-- the data that it showed before, as it was, and a second rollback shows the publication again.
pub publish-Undone :
    (w : World) (tools : Tools) (name old : Text) (p : Publication) (snapshot : Option Node)
    (is_signed : Bool) (l l' : Local)
    → text_eq name old ≡ false
    → l.current ≡ link_to old
    → publish w tools name p snapshot is_signed l ≡ (l', ok tt)
    → Undone w old l l'
unfolding publish
publish-Undone w tools name old p snapshot is_signed l l' fresh at h =
    let stage : Result Node = (do
      raise_if (not (is_snapshot_id p.snapshot_id)) "invalid snapshot ID schema"
      manifest ← verify_snapshot w p.snapshot_id snapshot
      make_stage tools is_signed manifest p (child (codes "rpm") snapshot)) in
    elim (Result-cases stage) [
      | inl (e, q) ↦ ground arith
      | inr (node, q) ↦ swap_links-Undone w name old node l l' fresh at (ground arith)
    ]
