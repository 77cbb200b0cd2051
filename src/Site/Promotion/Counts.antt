-- ===== src/Site/Promotion/Counts.antt =====
-- What the loop of a promotion of tools/ro_repo.py gathers of the package policies.
use ro_repo.Base.{
  ℕ, zero, suc, ◌≤◌, ◌≡◌, refl, true, false, Option, none, some, List, [], ◌∷◌, ok, arith, inl, inr,
  Bool-cases, Option-cases, Result-cases, after_bind, is_empty, ltb, if◌then◌else◌,
}
use ro_repo.Base.Text.{
  Text, codes, text_eq, text_eq_iff, has_text, add_text, add_texts, has_text-add_text,
  has_text-add_texts,
}
use ro_repo.Base.Dict.{In}
use ro_repo.Site.Records.{Package}
use ro_repo.Site.Policies.{Policy, Config, resolve_package_policy}
use ro_repo.Site.Promotion.{
  risk_name, minimum_days, Gathered, gather_name, gather, risk_rank, name_of, is_source,
  package_names,
}

-- A policy that the gathered values answer for
pub record Counted (config : Config) (name : Text) (g : Gathered) : Type 0 where
  pub policy : Policy
  pub resolved : resolve_package_policy config name ≡ ok policy
  pub group : Text
  pub group_named : policy.promotion_group ≡ some group
  pub group_listed : has_text group g.groups ≡ true
  pub tests_listed :
      (t : Text) → has_text t policy.required_tests ≡ true → has_text t g.tests ≡ true
  pub rank : ℕ
  pub rank_known : risk_rank policy.risk_class ≡ ok rank
  pub rank_covered : rank ≤ g.rank

-- What was gathered stays.
pub record Below (g g' : Gathered) : Type 0 where
  pub groups : (t : Text) → has_text t g.groups ≡ true → has_text t g'.groups ≡ true
  pub tests : (t : Text) → has_text t g.tests ≡ true → has_text t g'.tests ≡ true
  pub rank : g.rank ≤ g'.rank

Counted-Below :
    (config : Config) (name : Text) (g g' : Gathered)
    → Below g g'
    → Counted config name g
    → Counted config name g'
Counted-Below config name g g' b c = record {
  policy = c.policy;
  resolved = c.resolved;
  group = c.group;
  group_named = c.group_named;
  group_listed = b.groups c.group c.group_listed;
  tests_listed = λ t h. b.tests t (c.tests_listed t h);
  rank = c.rank;
  rank_known = c.rank_known;
  rank_covered = omega (arith, c.rank_covered, b.rank);
}

gather_name_sound :
    (config : Config) (name : Text) (g g' : Gathered)
    → gather_name config name g ≡ ok g'
    → Counted config name g' × Below g g'
unfolding gather_name
gather_name_sound config name g g' h = elim (Result-cases (resolve_package_policy config name)) [
  | inl (e, q) ↦ ground arith
  | inr (p, q) ↦ elim (Result-cases (risk_rank p.risk_class)) [
    | inl (e, t) ↦ ground arith
    | inr (k, t) ↦ elim (Option-cases p.promotion_group) [
      | inl u ↦ ground arith
      | inr (group, u) ↦ elim (Bool-cases (is_empty group)) [
        | inl v ↦ ground arith
        | inr v ↦
            let n : Gathered = record {
              rank = if ltb g.rank k then k else g.rank;
              groups = add_text group g.groups;
              tests = add_texts p.required_tests g.tests;
            } in
            let is : n ≡ g' = ground arith in
            rw (← is) (
              record {
                policy = p;
                resolved = q;
                group = group;
                group_named = u;
                group_listed =
                    ground (arith, has_text-add_text group group g.groups, text_eq_iff group group);
                tests_listed = λ t h. ground (arith, has_text-add_texts t p.required_tests g.tests);
                rank = k;
                rank_known = t;
                rank_covered = ground arith;
              },
              record {
                groups = λ t h. ground (arith, has_text-add_text t group g.groups);
                tests = λ t h. ground (arith, has_text-add_texts t p.required_tests g.tests);
                rank = ground arith;
              },
            )
      ]
    ]
  ]
]

gather-Below :
    (config : Config) (names : List Text) (g g' : Gathered)
    → gather config names g ≡ ok g'
    → Below g g'
unfolding gather
gather-Below config [] g g' h =
    let is : g ≡ g' = ground arith in
    rw (← is) (record { groups = λ t x. x; tests = λ t x. x; rank = omega arith })
gather-Below config (name ∷ names) g g' h =
    let (n, first, rest) =
      after_bind (gather_name config name g) (λ n. gather config names n) g' h in
    let (counted, b) = gather_name_sound config name g n first in
    let c = gather-Below config names n g' rest in
    record {
      groups = λ t x. c.groups t (b.groups t x);
      tests = λ t x. c.tests t (b.tests t x);
      rank = omega (arith, b.rank, c.rank);
    }

-- Every name of the loop is counted at its end.
pub gather-Counted :
    (config : Config) (names : List Text) (g g' : Gathered) (name : Text)
    → gather config names g ≡ ok g'
    → has_text name names ≡ true
    → Counted config name g'
unfolding gather
gather-Counted config [] g g' name h m = ground arith
gather-Counted config (x ∷ names) g g' name h m =
    let (n, first, rest) = after_bind (gather_name config x g) (λ n. gather config names n) g' h in
    let (counted, b) = gather_name_sound config x g n first in
    elim (Bool-cases (text_eq name x)) [
      | inl e ↦
          let same : x ≡ name = ground (arith, text_eq_iff name x) in
          Counted-Below config name n g' (gather-Below config names n g' rest) (rw (← same) counted)
      | inr e ↦ gather-Counted config names n g' name rest (ground arith)
    ]

package_names-keep :
    (ps : List Package) (seen : List Text) (t : Text)
    → has_text t seen ≡ true
    → has_text t (package_names ps seen) ≡ true
unfolding package_names
package_names-keep [] seen t h = h
package_names-keep (p ∷ ps) seen t h = elim (Bool-cases (is_source p)) [
  | inl e ↦ rw e (package_names-keep ps seen t h)
  | inr e ↦ rw e (
      package_names-keep ps (add_text (name_of p.nevra) seen) t
        (ground (arith, has_text-add_text t (name_of p.nevra) seen)))
]

-- Every package that is no source is named.
pub package_names-In :
    (ps : List Package) (seen : List Text) (q : Package)
    → In q ps
    → is_source q ≡ false
    → has_text (name_of q.nevra) (package_names ps seen) ≡ true
unfolding package_names
package_names-In [] seen q m h = absurd m
package_names-In (p ∷ ps) seen q (inl e) h =
    let same : is_source p ≡ false = rw (← e) h in
    rw (same, e)
      (package_names-keep ps (add_text (name_of p.nevra) seen) (name_of p.nevra) (
        ground (
          arith,
          has_text-add_text (name_of p.nevra) (name_of p.nevra) seen,
          text_eq_iff (name_of p.nevra) (name_of p.nevra),
        )))
package_names-In (p ∷ ps) seen q (inr m) h =
    package_names-In ps (if is_source p then seen else add_text (name_of p.nevra) seen) q m h

risk_rank_bound : (c : Option Text) (k : ℕ) → risk_rank c ≡ ok k → k ≤ 2
unfolding risk_rank
risk_rank_bound none k h = ground arith
risk_rank_bound (some c) k h = ground arith

gather_name_bound :
    (config : Config) (name : Text) (g g' : Gathered)
    → gather_name config name g ≡ ok g'
    → g.rank ≤ 2
    → g'.rank ≤ 2
unfolding gather_name
gather_name_bound config name g g' h b = elim (Result-cases (resolve_package_policy config name)) [
  | inl (e, q) ↦ ground arith
  | inr (p, q) ↦ elim (Result-cases (risk_rank p.risk_class)) [
    | inl (e, t) ↦ ground arith
    | inr (k, t) ↦ ground (arith, risk_rank_bound p.risk_class k t)
  ]
]

-- The rank that is gathered is one of the three.
pub gather_bound :
    (config : Config) (names : List Text) (g g' : Gathered)
    → gather config names g ≡ ok g'
    → g.rank ≤ 2
    → g'.rank ≤ 2
unfolding gather
gather_bound config [] g g' h b = ground arith
gather_bound config (x ∷ names) g g' h b =
    let (n, first, rest) = after_bind (gather_name config x g) (λ n. gather config names n) g' h in
    gather_bound config names n g' rest (gather_name_bound config x g n first b)

-- Its name is read back.
pub risk_rank-risk_name : (n : ℕ) → n ≤ 2 → risk_rank (some (risk_name n)) ≡ ok n
unfolding risk_rank
risk_rank-risk_name zero h = refl
risk_rank-risk_name (suc zero) h = refl
risk_rank-risk_name (suc (suc zero)) h = refl
risk_rank-risk_name (suc (suc (suc n))) h = ground arith

pub minimum_days_named :
    (n : ℕ)
    → n ≤ 2
    → (if text_eq (risk_name n) (codes "critical-system") then 14 else 7) ≡ minimum_days n
minimum_days_named zero h = refl
minimum_days_named (suc zero) h = refl
minimum_days_named (suc (suc zero)) h = refl
minimum_days_named (suc (suc (suc n))) h = omega arith
