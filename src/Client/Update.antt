-- ===== src/Client/Update.antt =====
-- `Client.update` of tools/v3_client_update.py: what it writes.
use ro_repo.Base.{
  ℕ, Bool, true, false, Option, none, some, List, [], ◌∷◌, ◌++◌, Result, ok, err, ◌>>=◌, ◌>>◌,
  raise_if, or_raise, not, if◌then◌else◌, ◌==◌, ◌-◌, length,
}
use ro_repo.Base.Text.{Text, codes, text_eq}
use ro_repo.Trust.{Crypto}
use ro_repo.Client.{
  Payload, Selected, state, File, no_file, a_link, content, Disk, Client, Outside, Documents,
}
use ro_repo.Client.Checks.{
  check_command_if, check_view, check_selected, immutable_url, strip_slashes, starts_with,
}

-- What an update reports
pub record Report : Type 0 where
  pub result_sha256 : Text
  pub generation : ℕ
  pub repo_sha256 : Text
  pub dnf_ran : Bool

-- `_atomic`; the file system does not fail.
unfoldable pub atomic : File → Text → Result File
atomic a_link raw = err "unsafe client output"
atomic no_file raw = ok (content raw)
atomic (content old) raw = ok (content raw)

-- One of the two keys that are installed, with its pin
unfoldable pub read_key : Crypto → Outside → Text → Option Text → Result Text
read_key crypto o url none = do
  raw ← or_raise (o.key_file url) "missing preinstalled public signing root"
  err "preinstalled signing root pin mismatch"
read_key crypto o url (some pin) = do
  raw ← or_raise (o.key_file url) "missing preinstalled public signing root"
  raise_if (not (text_eq (crypto.sha256 raw) pin)) "preinstalled signing root pin mismatch"
  ok raw

-- The bundle of the keys
unfoldable pub make_bundle : Documents → Client → Outside → File → Result File
make_bundle w client o old = do
  rpm_key ← read_key w.crypto o client.rpm_key_url client.rpm_key_sha256
  metadata_key ← read_key w.crypto o client.metadata_key_url client.metadata_key_sha256
  merged ← or_raise (o.merge_keys (rpm_key ∷ metadata_key ∷ [])) "CalledProcessError"
  atomic old merged

-- `s.replace(part, other)` of every occurrence of a part that is not empty; the number counts the
-- characters that belong to an occurrence which has been replaced already.
unfoldable pub replace_after : ℕ → Text → Text → Text → Text
replace_after n part other [] = []
replace_after n part other (c ∷ cs) = elim (n == 0) [
  | false ↦ replace_after (n - 1) part other cs
  | true ↦ elim (starts_with part (c ∷ cs)) [
    | true ↦ other ++ replace_after (length part - 1) part other cs
    | false ↦ c ∷ replace_after 0 part other cs
  ]
]

abbrev pub replace : Text → Text → Text → Text
replace part other s = replace_after 0 part other s

-- The text of the repository file, before the keys are replaced
unfoldable pub plain_text : Client → Text → Text
plain_text client digest =
    let url =
      strip_slashes client.origin ++ (codes "/v3/views/" ++ (digest ++ codes "/rpm/x86_64")) in
    codes "[ro-stable-v3]\nname=Ro-ASD verified stable\nenabled=1\nbaseurl="
    ++ (replace (codes "/x86_64") (codes "/$basearch") url
        ++ (codes "\ngpgcheck=1\nrepo_gpgcheck=1\nsslverify=1\nskip_if_unavailable=0\ngpgkey="
            ++ (client.rpm_key_url ++ (b' ' ∷ client.metadata_key_url ++ codes "\n"))))

-- The text that is written: with a command, its keys are those of the bundle.
unfoldable pub repo_text : Client → Text → Option (List Text) → Text
repo_text client digest none = plain_text client digest
repo_text client digest (some command) =
    replace (client.rpm_key_url ++ b' ' ∷ client.metadata_key_url)
      (codes "file://" ++ client.bundle_path) (plain_text client digest)

-- The bundle, where a command is given
unfoldable pub write_bundle : Documents → Client → Outside → Option (List Text) → Disk → Result Disk
write_bundle w client o none disk = ok disk
write_bundle w client o (some command) disk = do
  bundle ← make_bundle w client o disk.bundle
  ok (record disk { bundle = bundle })

abbrev pub select : Payload → Selected
select p = record {
  generation = p.generation;
  result_stable_sha256 = p.result_stable_sha256;
  checkpoint = p.checkpoint;
}

-- The repository file, and the state that is pinned before `dnf5` runs
unfoldable pub write_repo : Text → Payload → Disk → Result Disk
write_repo text p disk = do
  repo ← atomic disk.repo text
  ok (record disk { repo = repo; selected = state (select p) })

-- `dnf5` with the repositories of the client
unfoldable pub run_dnf : Outside → Option (List Text) → Report → Result Report
run_dnf o none report = ok report
run_dnf o (some command) report =
    if o.dnf_succeeds then ok (record report { dnf_ran = true }) else err "CalledProcessError"

-- The checks of an update
unfoldable pub check_update :
    Documents → Client → Outside → Option (List Text) → Disk → Result Payload
check_update w client o command disk = do
  check_command_if o command
  p ← check_view w client o
  check_selected p disk.selected
  url ← immutable_url w client.origin p.result_stable_sha256 (codes "x86_64")
  raise_if disk.repos_linked "unsafe client repo directory"
  ok p

-- What follows the checks
unfoldable pub write_update :
    Documents → Client → Outside → Option (List Text) → Payload → Disk → Disk × Result Report
write_update w client o command p disk =
    let text = repo_text client p.result_stable_sha256 command in
    elim (write_bundle w client o command disk) [
      | err e ↦ (disk, err e)
      | ok bundled ↦ elim (write_repo text p bundled) [
        | err e ↦ (bundled, err e)
        | ok written ↦ (
          written,
          run_dnf o command (record {
            result_sha256 = p.result_stable_sha256;
            generation = p.generation;
            repo_sha256 = w.crypto.sha256 text;
            dnf_ran = false;
          }),
        )
      ]
    ]

-- `update`, under the lock of the client
unfoldable pub update :
    Documents → Client → Outside → Option (List Text) → Disk → Disk × Result Report
update w client o command disk = elim (check_update w client o command disk) [
  | err e ↦ (disk, err e)
  | ok p ↦ write_update w client o command p disk
]
