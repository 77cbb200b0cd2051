-- ===== src/Client/Failed.antt =====
-- What an update of tools/v3_client_update.py that fails leaves behind.
use ro_repo.Base.{
  ◌≡◌, refl, false, Option, none, some, List, ok, err, arith, ◌⊎◌, inl, inr, Result-cases, String,
}
use ro_repo.Base.Text.{Text}
use ro_repo.Client.{Payload, state, Disk, Client, Outside, Documents}
use ro_repo.Client.Update.{
  Report, repo_text, make_bundle, write_bundle, select, write_repo, run_dnf, check_update,
  write_update, update,
}
use ro_repo.Client.Forward.{check_update-selected, write_repo-selected}
use ro_repo.Client.Verified.{Viewed, check_view-Viewed}

-- The repositories of the client and its selection are as they were.
pub record Unchanged (d d' : Disk) : Type 0 where
  pub selected : d'.selected ≡ d.selected
  pub repo : d'.repo ≡ d.repo

-- A verified view was selected, and then `dnf5` failed.
pub record Selected (w : Documents) (c : Client) (o : Outside) (command : Option (List Text))
    (d' : Disk) : Type 0 where
  pub payload : Payload
  pub viewed : Viewed w c o payload
  pub selected : d'.selected ≡ state (select payload)
  pub arguments : List Text
  pub given : command ≡ some arguments
  pub dnf_failed : o.dnf_succeeds ≡ false

write_bundle-Unchanged :
    (w : Documents) (c : Client) (o : Outside) (command : Option (List Text)) (d d' : Disk)
    → write_bundle w c o command d ≡ ok d'
    → Unchanged d d'
unfolding write_bundle
write_bundle-Unchanged w c o none d d' h =
    let is : d ≡ d' = ground arith in rw (← is) (record { selected = refl; repo = refl })
write_bundle-Unchanged w c o (some command) d d' h =
    elim (Result-cases (make_bundle w c o d.bundle)) [
      | inl (e, q) ↦ ground arith
      | inr (b, q) ↦
          let is : record d { bundle = b } ≡ d' = ground arith in
          rw (← is) (record { selected = refl; repo = refl })
    ]

run_dnf-failed :
    (o : Outside) (command : Option (List Text)) (r : Report) (e : String)
    → run_dnf o command r ≡ err e
    → (arguments : List Text) × (command ≡ some arguments) × (o.dnf_succeeds ≡ false)
unfolding run_dnf
run_dnf-failed o none r e h = ground arith
run_dnf-failed o (some command) r e h = (command, refl, ground arith)

write_update-failed :
    (w : Documents) (c : Client) (o : Outside) (command : Option (List Text)) (p : Payload)
    (d d' : Disk) (e : String)
    → Viewed w c o p
    → write_update w c o command p d ≡ (d', err e)
    → Unchanged d d' ⊎ Selected w c o command d'
unfolding write_update
write_update-failed w c o command p d d' e viewed h =
    elim (Result-cases (write_bundle w c o command d)) [
      | inl (x, q) ↦
          let is : d ≡ d' = ground arith in
          inl (rw (← is) (record { selected = refl; repo = refl }))
      | inr (b, q) ↦
          let text = repo_text c p.result_stable_sha256 command in
          elim (Result-cases (write_repo text p b)) [
            | inl (x, t) ↦
                let is : b ≡ d' = ground arith in
                inl (rw (← is) (write_bundle-Unchanged w c o command d b q))
            | inr (n, t) ↦
                let is : n ≡ d' = ground arith in
                let report : Report = record {
                  result_sha256 = p.result_stable_sha256;
                  generation = p.generation;
                  repo_sha256 = w.crypto.sha256 text;
                  dnf_ran = false;
                } in
                let (arguments, given, failed) = run_dnf-failed o command report e (ground arith) in
                inr (
                  rw (← is) (record {
                    payload = p;
                    viewed = viewed;
                    selected = write_repo-selected text p b n t;
                    arguments = arguments;
                    given = given;
                    dnf_failed = failed;
                  }))
          ]
    ]

-- An update that fails leaves the repository file and the selection as they were, or it has verified
-- a whole view and selected it, and the command that was given to `dnf5` failed.
pub update-failed :
    (w : Documents) (c : Client) (o : Outside) (command : Option (List Text)) (d d' : Disk)
    (e : String)
    → update w c o command d ≡ (d', err e)
    → Unchanged d d' ⊎ Selected w c o command d'
unfolding update
update-failed w c o command d d' e h = elim (Result-cases (check_update w c o command d)) [
  | inl (x, q) ↦
      let is : d ≡ d' = ground arith in inl (rw (← is) (record { selected = refl; repo = refl }))
  | inr (p, q) ↦
      let (view, selected) = check_update-selected w c o command d p q in
      write_update-failed w c o command p d d' e (check_view-Viewed w c o p view) (ground arith)
]
