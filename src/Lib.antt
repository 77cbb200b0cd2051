-- ===== src/Lib.antt =====
-- Ro-Repo: the tools that promote and publish RPM packages.
--
-- tools/v3_promotion_planner.py computes, offline, how one promotion group of a beta snapshot
-- replaces the same group of the stable set. `Planner` models it whole: `Planner.Version` the RPM
-- version order, `Planner.Nevra` the parser of package entries and the order of epochs, versions
-- and releases, `Planner.Registry` the producer registry, `Planner.Packages` a snapshot manifest,
-- `Planner.Candidate` the verification of a group and `Planner.Plan` the plan.
--
-- What is planned is published by attempts on a signed ledger. `Publication.Records` holds the
-- rows; `Publication.Ledger` is tools/v3_backend_ledger.py: its integrity check, the audit events
-- and the transaction `execute`. `Publication.Authorization` is `request` of
-- tools/v3_authorization.py. `Publication.Backend` is tools/v3_publication_backend.py: the stages
-- of an attempt, `_transition` as `transition`, `create` up to the tests in `Backend.Stages`, the
-- approval, the signature, the remote checks and `publish` in `Backend.Publish`,
-- `reauthorize_first` in `Backend.Resume`, and `fail`.
-- `Backend.Reach` has the committed operations as steps. `Publication.Outbox` is
-- tools/v3_publication_outbox.py: the job of an attempt, with its lease and its fence.
--
-- `Policy` is what a promotion must meet: `Policy.Dwell` is tools/v3_promotion_policy.py,
-- `Policy.Profile` is tools/v3_policy_profile.py, `Policy.Validation` is
-- tools/v3_group_validation.py. `Trust` is of tools/v3_backend_trust.py: base64url
-- (`Trust.Base64`) and signed envelopes. `Client` is tools/v3_client_update.py: `Client.Checks`
-- what it verifies before it writes, `Client.Compare` how payloads are compared,
-- `Client.Update` what it writes, `Client.Forward` its updates as steps.
--
-- tools/ro_repo.py serves the repositories from a site of static files. `Site.Tree` has file trees
-- and `directory_tree_digest`; `Site.Records` the records of the site; `Site.Verify`
-- `verify_signed_remote_publication`; `Site.Stage` `stage_pages_snapshot` and
-- `stage_remote_channel`; `Site.Snapshot` `verify_snapshot`; `Site.Rollback`
-- `rollback_remote_channel`; `Site.Policies` the component policies; and `Site.Promotion`
-- `prepare_remote_stable_promotion`. `Site.Immutable` has the operations as steps. `Site.Local` is
-- the local `publish` and `rollback`.
--
-- A Python text that the code takes apart is the list of its code points (`Base.Text`). A dict is
-- an association list in insertion order (`Base.Dict`). A `PlanningError` is an `err` with its
-- message, without the names that some messages append (`Base.Errors`). A JSON value that fails
-- the type tests is a constructor of its own (`malformed`, `invalid`), so the data that passes
-- them is typed. A database is a value: a transaction returns the next one, and one that raises
-- returns none, as its rows are rolled back.
--
-- The comparison of versions is a loop; its fuel is one more than the two sizes together, and each
-- round shortens both sides. No other function takes fuel.
--
-- Parameters: SHA-256 of canonical JSON (of `plan`, and in `Audit`) and the signatures of the
-- audit (`Audit`). The clock of a transaction is read at named moments (`Clock`), once in a
-- change. Of the site (`World`): SHA-256, the JSON library with the schemas, `gpg`, `rpmkeys` and
-- the character table of `isdigit`; the clock with the ISO reader (`Now`). Of the policy
-- (`Calendar`): the reader and the printer of times and the last time of `datetime`, of which the
-- theorems suppose that no later one is read and that one up to it is read back from its print. Of
-- `Trust` (`Crypto`, `Codec`): `openssl` and JSON. Of a client (`Outside`, `Documents`): HTTP,
-- `gpg`, `dnf5`, the resolution of paths, and JSON.
--
-- A directory is a list of entries, a link is the node that it leads to, and there are no devices
-- and no broken links; copies, renames and writes do not fail. An operation of the site or of a
-- client returns its files with its result, so what was written before an error stays.
--
-- Not modelled: the limit on the digits of `int`, the messages' appended names, the schema checks
-- of rows and of a promotion that is written, `verify_proposal` and the agreement of plan and
-- registry at `create`, the receipts of a job, the outbox's coordinator, the hooks of the tests, and
-- the database adapters; the building and signing of packages, snapshots and catalogs; the local `promote`; OIDC tokens.
pub mod Base
pub mod Planner
pub mod Trust
pub mod Client
pub mod Policy
pub mod Site
pub mod Publication
