-- ===== src/Client/Forward.antt =====
-- A client of tools/v3_client_update.py never goes back.
use ro_repo.Base.{
  ◌≤◌, ◌≡◌, refl, ◌∙◌, false, Option, none, some, List, ok, arith, inl, inr, Result-cases,
}
use ro_repo.Base.Text.{Text, codes, text_eq_iff}
use ro_repo.Client.{
  Payload, Selected, StateFile, absent, linked, unreadable, state, Disk, Client, Outside, Documents,
}
use ro_repo.Client.Checks.{check_command_if, check_view, regresses, check_selected, immutable_url}
use ro_repo.Client.Update.{
  repo_text, make_bundle, write_bundle, select, atomic, write_repo, check_update, write_update,
  update,
}

-- One selection follows another: neither the generation nor the checkpoint goes back, and where one of
-- them stays, so does what it stands for.
pub record Follows (s s' : Selected) : Type 0 where
  pub generation : s.generation ≤ s'.generation
  pub seq : s.checkpoint.seq ≤ s'.checkpoint.seq
  pub same_view : s.generation ≡ s'.generation → s.result_stable_sha256 ≡ s'.result_stable_sha256
  pub same_checkpoint :
      s.checkpoint.seq ≡ s'.checkpoint.seq → s.checkpoint.sha256 ≡ s'.checkpoint.sha256

Follows-refl : (s : Selected) → Follows s s
Follows-refl s = record {
  generation = omega arith;
  seq = omega arith;
  same_view = λ e. refl;
  same_checkpoint = λ e. refl;
}

Follows-trans : (s t u : Selected) → Follows s t → Follows t u → Follows s u
Follows-trans s t u f g = record {
  generation = omega (arith, f.generation, g.generation);
  seq = omega (arith, f.seq, g.seq);
  same_view = λ e.
      f.same_view (omega (arith, f.generation, g.generation, e))
      ∙ g.same_view (omega (arith, f.generation, g.generation, e));
  same_checkpoint = λ e.
      f.same_checkpoint (omega (arith, f.seq, g.seq, e))
      ∙ g.same_checkpoint (omega (arith, f.seq, g.seq, e));
}

-- A selection that a client has is followed by the one it has later.
pub record Forward (d d' : Disk) : Type 0 where
  pub follows :
      (s : Selected)
      → d.selected ≡ state s
      → (s' : Selected) × (d'.selected ≡ state s') × Follows s s'

Forward-same : (d d' : Disk) → d'.selected ≡ d.selected → Forward d d'
Forward-same d d' e = record { follows = λ s h. (s, e ∙ h, Follows-refl s) }

Forward-trans : (d e f : Disk) → Forward d e → Forward e f → Forward d f
Forward-trans d e f a b = record {
  follows = λ s h.
      let (t, at, fst) = a.follows s h in
      let (u, to, snd) = b.follows t at in (u, to, Follows-trans s t u fst snd);
}

regresses-Follows : (p : Payload) (s : Selected) → regresses p s ≡ false → Follows s (select p)
regresses-Follows p s h = record {
  generation = ground arith;
  seq = ground arith;
  same_view = λ e. ground (arith, text_eq_iff p.result_stable_sha256 s.result_stable_sha256);
  same_checkpoint = λ e. ground (arith, text_eq_iff p.checkpoint.sha256 s.checkpoint.sha256);
}

check_selected-Follows :
    (p : Payload) (f : StateFile) (s : Selected)
    → check_selected p f ≡ ok tt
    → f ≡ state s
    → Follows s (select p)
unfolding check_selected
check_selected-Follows p absent s h e = ground arith
check_selected-Follows p linked s h e = ground arith
check_selected-Follows p unreadable s h e = ground arith
check_selected-Follows p (state t) s h e =
    let same : t ≡ s = ground arith in rw (← same) (regresses-Follows p t (ground arith))

pub check_update-selected :
    (w : Documents) (c : Client) (o : Outside) (command : Option (List Text)) (d : Disk)
    (p : Payload)
    → check_update w c o command d ≡ ok p
    → (check_view w c o ≡ ok p) × (check_selected p d.selected ≡ ok tt)
unfolding check_update
check_update-selected w c o command d p h = elim (Result-cases (check_command_if o command)) [
  | inl (e, q) ↦ ground arith
  | inr (tt, q) ↦ elim (Result-cases (check_view w c o)) [
    | inl (e, t) ↦ ground arith
    | inr (x, t) ↦ elim (Result-cases (check_selected x d.selected)) [
      | inl (e, u) ↦ ground arith
      | inr (tt, u) ↦
          elim (Result-cases (immutable_url w c.origin x.result_stable_sha256 (codes "x86_64"))) [
            | inl (e, v) ↦ ground arith
            | inr (url, v) ↦ let is : x ≡ p = ground arith in rw (← is) (t, u)
          ]
    ]
  ]
]

write_bundle-selected :
    (w : Documents) (c : Client) (o : Outside) (command : Option (List Text)) (d d' : Disk)
    → write_bundle w c o command d ≡ ok d'
    → d'.selected ≡ d.selected
unfolding write_bundle
write_bundle-selected w c o none d d' h = let is : d ≡ d' = ground arith in rw (← is) refl
write_bundle-selected w c o (some command) d d' h =
    elim (Result-cases (make_bundle w c o d.bundle)) [
      | inl (e, q) ↦ ground arith
      | inr (b, q) ↦ let is : record d { bundle = b } ≡ d' = ground arith in rw (← is) refl
    ]

pub write_repo-selected :
    (text : Text) (p : Payload) (d d' : Disk)
    → write_repo text p d ≡ ok d'
    → d'.selected ≡ state (select p)
unfolding write_repo
write_repo-selected text p d d' h = elim (Result-cases (atomic d.repo text)) [
  | inl (e, q) ↦ ground arith
  | inr (f, q) ↦
      let is : record d { repo = f; selected = state (select p) } ≡ d' = ground arith in
      rw (← is) refl
]

write_update-Forward :
    (w : Documents) (c : Client) (o : Outside) (command : Option (List Text)) (p : Payload)
    (d : Disk)
    → check_selected p d.selected ≡ ok tt
    → Forward d (write_update w c o command p d).0
unfolding write_update
write_update-Forward w c o command p d h = elim (Result-cases (write_bundle w c o command d)) [
  | inl (e, q) ↦ rw (q, write_update) (Forward-same d d refl)
  | inr (b, q) ↦
      let kept = write_bundle-selected w c o command d b q in
      let text = repo_text c p.result_stable_sha256 command in
      elim (Result-cases (write_repo text p b)) [
        | inl (e, t) ↦ rw (q, t, write_update) (Forward-same d b kept)
        | inr (n, t) ↦
            rw (q, t, write_update)
              (record {
                follows = λ s at. (
                  select p,
                  write_repo-selected text p b n t,
                  check_selected-Follows p d.selected s h at,
                );
              })
      ]
]

pub update-Forward :
    (w : Documents) (c : Client) (o : Outside) (command : Option (List Text)) (d : Disk)
    → Forward d (update w c o command d).0
unfolding update
update-Forward w c o command d = elim (Result-cases (check_update w c o command d)) [
  | inl (e, q) ↦ rw (q, update) (Forward-same d d refl)
  | inr (p, q) ↦
      let (view, selected) = check_update-selected w c o command d p q in
      rw (q, update) (write_update-Forward w c o command p d selected)
]

-- The updates of a client, each with what it finds outside, whatever came of them
pub data Run (w : Documents) (c : Client) (d : Disk) : Disk → Type 0 where
  start : Run w c d d
  next :
      {e f : Disk} (o : Outside) (command : Option (List Text))
      → Run w c d e
      → (update w c o command e).0 ≡ f
      → Run w c d f

-- However a client is updated, and also where updates fail, what it has selected is followed: it never
-- goes back to a lower generation or checkpoint, nor from one view of a generation to another.
pub Run-Forward : (w : Documents) (c : Client) (d d' : Disk) → Run w c d d' → Forward d d'
Run-Forward w c d d' start = Forward-same d d refl
Run-Forward w c d d' (next {e} o command r h) =
    Forward-trans d e d' (Run-Forward w c d e r) (rw (← h) (update-Forward w c o command e))
