-- ===== src/Client/Verified.antt =====
-- What a client of tools/v3_client_update.py has verified once an update succeeds.
use ro_repo.Base.{
  ◌<◌, ◌≡◌, false, Option, some, List, [], ◌∷◌, ok, arith, inl, inr, Option-cases, Result-cases,
}
use ro_repo.Base.Text.{Text, codes, text_eq_iff}
use ro_repo.Base.Dict.{In}
use ro_repo.Trust.{verify_envelope}
use ro_repo.Trust.Attested.{Attested, verify_envelope-Attested}
use ro_repo.Client.{Payload, Item, Descriptor, Reader, Client, Outside, Documents}
use ro_repo.Client.Compare.{
  same_payload, same_descriptor, Agrees, same_payload-Agrees, AgreesOn, same_descriptor-AgreesOn,
}
use ro_repo.Client.Checks.{
  check_discovery, check_baseurls, check_publication, is_unsafe, check_items, check_view,
}

-- An item of the inventory that was read
pub record ItemRead (w : Documents) (reader : Reader) (item : Item) : Type 0 where
  pub raw : Text
  pub is_read : reader.read item.path ≡ some raw
  pub has_digest : w.crypto.sha256 raw ≡ item.sha256
  pub is_safe : is_unsafe item.path ≡ false

check_items-ItemRead :
    (w : Documents) (reader : Reader) (items : List Item) (item : Item)
    → check_items w.crypto reader.read items ≡ ok tt
    → In item items
    → ItemRead w reader item
unfolding check_items
check_items-ItemRead w reader [] item h m = absurd m
check_items-ItemRead w reader (i ∷ items) item h m = elim (Option-cases (reader.read i.path)) [
  | inl q ↦ ground arith
  | inr (raw, q) ↦ elim m [
    | inl e ↦ rw e (record {
      raw = raw;
      is_read = q;
      has_digest = ground (arith, text_eq_iff (w.crypto.sha256 raw) i.sha256);
      is_safe = ground arith;
    })
    | inr k ↦ check_items-ItemRead w reader items item (ground arith) k
  ]
]

-- A discovery that was made for this update
pub record Discovered (w : Documents) (c : Client) (o : Outside) (p : Payload) : Type 0 where
  pub nonce : p.nonce ≡ o.nonce
  pub origin : p.origin ≡ c.origin
  pub answer : Payload
  pub attested :
      Attested w.crypto w.discovery_codec
        (o.discovery o.nonce)
        (codes "client-discovery")
        c.discovery_key
        c.discovery_pin
        (same_payload p)
        o.clock
        answer
  pub agrees : Agrees p answer

check_discovery-Discovered :
    (w : Documents) (c : Client) (o : Outside) (p : Payload)
    → check_discovery w c o (o.discovery o.nonce) ≡ ok p
    → Discovered w c o p
unfolding check_discovery
check_discovery-Discovered w c o p h =
    let raw = o.discovery o.nonce in
    elim (Option-cases (w.discovery_payload raw)) [
      | inl q ↦ ground arith
      | inr (x, q) ↦
          let role = codes "client-discovery" in
          let envelope =
            verify_envelope w.crypto w.discovery_codec raw role c.discovery_key c.discovery_pin
              (same_payload x) o.clock in
          elim (Result-cases envelope) [
            | inl (e, t) ↦ ground arith
            | inr (a, t) ↦
                let is : x ≡ p = ground arith in
                let attested =
                  verify_envelope-Attested w.crypto w.discovery_codec raw role c.discovery_key
                    c.discovery_pin (same_payload x) o.clock a t in
                rw (← is) (record {
                  nonce = ground (arith, text_eq_iff x.nonce o.nonce);
                  origin = ground (arith, text_eq_iff x.origin c.origin);
                  answer = a;
                  attested = attested;
                  agrees = same_payload-Agrees x a attested.current.bound;
                })
          ]
    ]

-- A publication that a discovery names
pub record Described (w : Documents) (c : Client) (p : Payload) (answer : Option Text)
    (d : Descriptor) : Type 0 where
  pub publication : Text
  pub is_read : answer ≡ some publication
  pub has_digest : w.crypto.sha256 publication ≡ p.publication_sha256
  pub signed : Descriptor
  pub attested :
      Attested w.crypto w.publication_codec publication
        (codes "publication")
        c.publication_key
        c.publication_pin
        (same_descriptor d)
        d.issued_at
        signed
  pub agrees : AgreesOn d signed
  pub inventory : w.sha_inventory d.inventory ≡ p.result_stable_sha256
  pub attempt : d.attempt_id ≡ p.attempt_id

check_publication-Described :
    (w : Documents) (c : Client) (p : Payload) (answer : Option Text) (d : Descriptor)
    → check_publication w c p answer ≡ ok d
    → Described w c p answer d
unfolding check_publication
check_publication-Described w c p answer d h = elim (Option-cases answer) [
  | inl q ↦ ground arith
  | inr (publication, q) ↦ elim (Option-cases (w.descriptor publication)) [
    | inl t ↦ ground arith
    | inr (x, t) ↦
        let role = codes "publication" in
        let envelope =
          verify_envelope w.crypto w.publication_codec publication role c.publication_key
            c.publication_pin (same_descriptor x) x.issued_at in
        elim (Result-cases envelope) [
          | inl (e, u) ↦ ground arith
          | inr (a, u) ↦
              elim (Result-cases (check_baseurls w c p.result_stable_sha256 x.baseurls)) [
                | inl (e, v) ↦ ground arith
                | inr (urls, v) ↦
                    let is : x ≡ d = ground arith in
                    let attested =
                      verify_envelope-Attested w.crypto w.publication_codec publication role
                        c.publication_key c.publication_pin (same_descriptor x) x.issued_at a u in
                    rw (← is) (record {
                      publication = publication;
                      is_read = q;
                      has_digest =
                          ground
                            (arith, text_eq_iff (w.crypto.sha256 publication) p.publication_sha256);
                      signed = a;
                      attested = attested;
                      agrees = same_descriptor-AgreesOn x a attested.current.bound;
                      inventory =
                          ground (
                            arith,
                            text_eq_iff (w.sha_inventory x.inventory) p.result_stable_sha256,
                          );
                      attempt = ground (arith, text_eq_iff x.attempt_id p.attempt_id);
                    })
              ]
        ]
  ]
]

-- A view that was verified as a whole
pub record Viewed (w : Documents) (c : Client) (o : Outside) (p : Payload) : Type 0 where
  pub discovered : Discovered w c o p
  pub reader : Reader
  pub reached : o.reader c.origin p.result_stable_sha256 p.attempt_id ≡ ok reader
  pub descriptor : Descriptor
  pub described : Described w c p reader.publication descriptor
  pub items : (item : Item) → In item descriptor.inventory → ItemRead w reader item
  pub in_time : o.later_clock < p.expires_at

pub check_view-Viewed :
    (w : Documents) (c : Client) (o : Outside) (p : Payload)
    → check_view w c o ≡ ok p
    → Viewed w c o p
unfolding check_view
check_view-Viewed w c o p h = elim (Result-cases (check_discovery w c o (o.discovery o.nonce))) [
  | inl (e, q) ↦ ground arith
  | inr (x, q) ↦ elim (Result-cases (o.reader c.origin x.result_stable_sha256 x.attempt_id)) [
    | inl (e, t) ↦ ground arith
    | inr (reader, t) ↦ elim (Result-cases (check_publication w c x reader.publication)) [
      | inl (e, u) ↦ ground arith
      | inr (d, u) ↦ elim (Result-cases (check_items w.crypto reader.read d.inventory)) [
        | inl (e, v) ↦ ground arith
        | inr (tt, v) ↦
            let is : x ≡ p = ground arith in
            rw (← is) (record {
              discovered = check_discovery-Discovered w c o x q;
              reader = reader;
              reached = t;
              descriptor = d;
              described = check_publication-Described w c x reader.publication d u;
              items = λ item m. check_items-ItemRead w reader d.inventory item v m;
              in_time = ground arith;
            })
      ]
    ]
  ]
]
