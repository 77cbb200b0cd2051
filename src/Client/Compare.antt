-- ===== src/Client/Compare.antt =====
-- What tools/v3_client_update.py expects of the payloads that it has verified: all keys but the two
-- times. `verify_envelope` of tools/v3_backend_trust.py compares them one by one.
use ro_repo.Base.{
  ◌≡◌, refl, Bool, true, false, List, [], ◌∷◌, arith, ◌&&◌, ◌||◌, ◌==◌, ==_iff, length, all,
}
use ro_repo.Base.Text.{Text, text_eq, text_eq_iff}
use ro_repo.Base.Dict.{Dict}
use ro_repo.Client.{Payload, Item, Descriptor, Checkpoint}

abbrev same_bool : Bool → Bool → Bool
same_bool true b = b
same_bool false true = false
same_bool false false = true

unfoldable pub same_checkpoint : Checkpoint → Checkpoint → Bool
same_checkpoint a b = (a.seq == b.seq) && text_eq a.sha256 b.sha256

-- The nine `expected_keys` of a discovery
unfoldable pub same_payload : Payload → Payload → Bool
same_payload p q =
    text_eq p.nonce q.nonce
    && text_eq p.origin q.origin
    && (p.generation == q.generation)
    && text_eq p.result_stable_sha256 q.result_stable_sha256
    && text_eq p.publication_sha256 q.publication_sha256
    && text_eq p.attempt_id q.attempt_id
    && same_checkpoint p.checkpoint q.checkpoint
    && text_eq p.post_verification_sha256 q.post_verification_sha256
    && same_bool p.publishable q.publishable

unfoldable pub same_items : List Item → List Item → Bool
same_items [] [] = true
same_items [] (y ∷ ys) = false
same_items (x ∷ xs) [] = false
same_items (x ∷ xs) (y ∷ ys) =
    text_eq x.path y.path && text_eq x.sha256 y.sha256 && same_items xs ys

abbrev pub has_url : Dict Text Text → Text → Text → Bool
has_url [] arch url = false
has_url ((a, u) ∷ urls) arch url = (text_eq a arch && text_eq u url) || has_url urls arch url

-- Two dictionaries are equal, in whatever order
unfoldable pub same_urls : Dict Text Text → Dict Text Text → Bool
same_urls d e = (length d == length e) && all (λ (x : Text × Text). has_url e x.0 x.1) d

-- A descriptor without its times
unfoldable pub same_descriptor : Descriptor → Descriptor → Bool
same_descriptor d e =
    text_eq d.result_stable_sha256 e.result_stable_sha256
    && same_items d.inventory e.inventory
    && text_eq d.attempt_id e.attempt_id
    && text_eq d.signing_key_sha256 e.signing_key_sha256
    && same_urls d.baseurls e.baseurls
    && text_eq d.others e.others

-- A payload that says the same of everything but the times
pub record Agrees (p q : Payload) : Type 0 where
  pub nonce : q.nonce ≡ p.nonce
  pub origin : q.origin ≡ p.origin
  pub generation : q.generation ≡ p.generation
  pub result : q.result_stable_sha256 ≡ p.result_stable_sha256
  pub publication : q.publication_sha256 ≡ p.publication_sha256
  pub attempt : q.attempt_id ≡ p.attempt_id
  pub seq : q.checkpoint.seq ≡ p.checkpoint.seq
  pub sha256 : q.checkpoint.sha256 ≡ p.checkpoint.sha256

pub same_payload-Agrees : (p q : Payload) → same_payload p q ≡ true → Agrees p q
unfolding same_payload same_checkpoint
same_payload-Agrees p q h = record {
  nonce = ground (arith, text_eq_iff p.nonce q.nonce);
  origin = ground (arith, text_eq_iff p.origin q.origin);
  generation = ground (arith, ==_iff p.generation q.generation);
  result = ground (arith, text_eq_iff p.result_stable_sha256 q.result_stable_sha256);
  publication = ground (arith, text_eq_iff p.publication_sha256 q.publication_sha256);
  attempt = ground (arith, text_eq_iff p.attempt_id q.attempt_id);
  seq = ground (arith, ==_iff p.checkpoint.seq q.checkpoint.seq);
  sha256 = ground (arith, text_eq_iff p.checkpoint.sha256 q.checkpoint.sha256);
}

item_of :
    {a b c d : Text}
    → c ≡ a
    → d ≡ b
    → ◌≡◌ {A = Item} (record { path = c; sha256 = d }) (record { path = a; sha256 = b })
item_of e f = rw (e, f) refl

pub same_items_sound : (xs ys : List Item) → same_items xs ys ≡ true → ys ≡ xs
unfolding same_items
same_items_sound [] [] h = refl
same_items_sound [] (y ∷ ys) h = ground arith
same_items_sound (x ∷ xs) [] h = ground arith
same_items_sound (x ∷ xs) (y ∷ ys) h =
    let p : y.path ≡ x.path = ground (arith, text_eq_iff x.path y.path) in
    let s : y.sha256 ≡ x.sha256 = ground (arith, text_eq_iff x.sha256 y.sha256) in
    let first : y ≡ x = item_of p s in
    let rest : ys ≡ xs = same_items_sound xs ys (ground arith) in rw (first, rest) refl

-- A descriptor that is of the same view
pub record AgreesOn (d e : Descriptor) : Type 0 where
  pub result : e.result_stable_sha256 ≡ d.result_stable_sha256
  pub inventory : e.inventory ≡ d.inventory
  pub attempt : e.attempt_id ≡ d.attempt_id
  pub signing_key : e.signing_key_sha256 ≡ d.signing_key_sha256

pub same_descriptor-AgreesOn : (d e : Descriptor) → same_descriptor d e ≡ true → AgreesOn d e
unfolding same_descriptor
same_descriptor-AgreesOn d e h = record {
  result = ground (arith, text_eq_iff d.result_stable_sha256 e.result_stable_sha256);
  inventory = same_items_sound d.inventory e.inventory (ground arith);
  attempt = ground (arith, text_eq_iff d.attempt_id e.attempt_id);
  signing_key = ground (arith, text_eq_iff d.signing_key_sha256 e.signing_key_sha256);
}
