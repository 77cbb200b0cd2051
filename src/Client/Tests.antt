-- ===== src/Client/Tests.antt =====
-- A client that has selected a view of generation 3, and an update to generation 4.
use native.Mathlib.Decide.{ℕ_discrete}
use ro_repo.Base.{refl, true, false, none, some, [], ◌∷◌, ok, ◌++◌}
use ro_repo.Base.Text.{Text, codes}
use ro_repo.Trust.{Envelope, Codec}
use ro_repo.Client.{Payload, Descriptor, state, no_file, content, Disk, Client, Outside, Documents}
use ro_repo.Client.Update.{Report, select}
use ro_repo.Client.Forward.{Forward, start, next, Run-Forward}
use ro_repo.Client.Failed.{Unchanged, update-failed}
use ro_repo.Client.{unreadable}
use ro_repo.Base.{◌⊎◌}
use ro_repo.Base.Text.{is_digit, is_alpha}
use ro_repo.Trust.Base64.{letter, bits, encode, decode, is_letter, b64}
use ro_repo.Trust.{
  is_hex_digest, verify_bytes, check_times, check_payload, check_signature, verify_envelope,
}
use ro_repo.Client.Compare.{same_checkpoint, same_payload, same_items, same_urls, same_descriptor}
use ro_repo.Client.Checks.{
  installroots, check_command, immutable_url, check_discovery, check_baseurls, check_publication,
  check_items, check_view, check_selected,
}
use ro_repo.Client.Update.{
  atomic, read_key, make_bundle, replace_after, plain_text, repo_text, write_bundle, write_repo,
  run_dnf, check_update, write_update, update,
}

abbrev pin : Text
pin = codes "0123456789abcdef0123456789abcdef0123456789abcdef0123456789abcdef"

abbrev origin : Text
origin = codes "https://ro.example"

abbrev payload : Payload
payload = record {
  nonce = codes "n";
  origin = origin;
  generation = 4;
  result_stable_sha256 = pin;
  publication_sha256 = pin;
  attempt_id = codes "a";
  checkpoint = record { seq = 9; sha256 = codes "c" };
  post_verification_sha256 = codes "v";
  publishable = false;
  issued_at = 10;
  expires_at = 20;
}

abbrev descriptor : Descriptor
descriptor = record {
  result_stable_sha256 = pin;
  inventory = record { path = codes "rpm/x"; sha256 = pin } ∷ [];
  attempt_id = codes "a";
  signing_key_sha256 = pin;
  baseurls =
      (codes "x86_64", codes "https://ro.example/v3/views/" ++ (pin ++ codes "/rpm/x86_64"))
      ∷ (codes "aarch64", codes "https://ro.example/v3/views/" ++ (pin ++ codes "/rpm/aarch64"))
      ∷ (codes "source", codes "https://ro.example/v3/views/" ++ (pin ++ codes "/rpm/source"))
      ∷ [];
  others = codes "{}";
  issued_at = 10;
}

abbrev envelope_of : {P : Type 0} → Text → P → Envelope P
envelope_of role p = record {
  domain = codes "ro-repo-v3-backend-1";
  role = role;
  payload = p;
  signature = codes "AP8";
}

abbrev codec_of : {P : Type 0} → Text → P → Codec P
codec_of role p = record {
  read = λ raw. some (envelope_of role p);
  canonical = λ domain r q. domain;
  issued_at = λ q. some 10;
  expires_at = λ q. some 20;
}

abbrev documents : Documents
documents = record {
  crypto = record {
    sha256 = λ t. pin;
    is_rsa_key = λ k. true;
    verifies = λ k content_of signature. true;
  };
  discovery_payload = λ raw. some payload;
  discovery_codec = codec_of (codes "client-discovery") payload;
  descriptor = λ raw. some descriptor;
  publication_codec = codec_of (codes "publication") descriptor;
  sha_inventory = λ items. pin;
  is_https_origin = λ t. true;
}

abbrev client : Client
client = record {
  origin = origin;
  discovery_key = codes "d";
  discovery_pin = pin;
  publication_key = codes "p";
  publication_pin = pin;
  rpm_key_url = codes "file:///r";
  metadata_key_url = codes "file:///m";
  rpm_key_sha256 = none;
  metadata_key_sha256 = none;
  bundle_path = codes "/tmp/signing-roots.asc";
}

abbrev outside : Outside
outside = record {
  nonce = codes "n";
  clock = 12;
  later_clock = 13;
  discovery = λ nonce. codes "answer";
  reader = λ o result attempt.
      ok (record { publication = some (codes "publication"); read = λ path. some (codes "file") });
  key_file = λ url. none;
  merge_keys = λ keys. none;
  is_private_root = λ path. false;
  dnf_succeeds = false;
}

abbrev before : Disk
before = record {
  selected = state (record {
    generation = 3;
    result_stable_sha256 = codes "old";
    checkpoint = record { seq = 7; sha256 = codes "b" };
  });
  repos_linked = false;
  repo = no_file;
  bundle = no_file;
}

abbrev text : Text
text = repo_text client pin none

abbrev after : Disk
after = record before { selected = state (select payload); repo = content text }

abbrev report : Report
report = record { result_sha256 = pin; generation = 4; repo_sha256 = pin; dnf_ran = false }

Run-Forward_example : Forward before after
unfolding ℕ_discrete is_digit is_alpha letter bits encode decode is_letter b64 is_hex_digest
    verify_bytes check_times check_payload check_signature verify_envelope installroots
    check_command same_checkpoint same_payload same_items same_urls same_descriptor immutable_url
    check_discovery check_baseurls check_publication check_items check_view check_selected atomic
    read_key make_bundle replace_after plain_text repo_text write_bundle write_repo run_dnf
    check_update write_update update
Run-Forward_example = Run-Forward documents client before after (next outside none start refl)

-- A state that cannot be read
abbrev broken : Disk
broken = record before { selected = unreadable }

update-failed_example :
    Unchanged broken broken ⊎ ro_repo.Client.Failed.Selected documents client outside none broken
unfolding ℕ_discrete is_digit is_alpha letter bits encode decode is_letter b64 is_hex_digest
    verify_bytes check_times check_payload check_signature verify_envelope installroots
    check_command same_checkpoint same_payload same_items same_urls same_descriptor immutable_url
    check_discovery check_baseurls check_publication check_items check_view check_selected atomic
    read_key make_bundle replace_after plain_text repo_text write_bundle write_repo run_dnf
    check_update write_update update
update-failed_example =
    update-failed documents client outside none broken broken "invalid JSON" refl
