-- ===== src/Certificates/Vouched.antt =====
-- What a path of certificates that leads to the authority of gen_certs.py shows.
use cmpe272_finaltest_assesm.Prelude.{
  ℕ, ◌≡◌, ap, ◌∙◌, arith, Bool, true, false, ◌&&◌, ◌⊎◌, inl, inr, List, [], ◌∷◌, ◌++◌, leb, ◌=ₜ◌,
  text_eq_sound, text_eq_refl, Bool-cases,
}
use cmpe272_finaltest_assesm.Bytes.{Text}
use cmpe272_finaltest_assesm.Certificates.{
  Certificate, X509, Draws, not_after, ca_name, ca_cert, issue_leaf, recv_cert, send_cert,
}
use cmpe272_finaltest_assesm.Certificates.Handshake.{allows, counted, linked, leads}

-- What a link shows.
record IsLinked (x : X509) (t n : ℕ) (cert issuer : Certificate) : Type 0 where
  named : cert.body.issuer ≡ issuer.body.subject
  verified : x.verify issuer.body.public_key cert.body cert.signature ≡ true
  authority : issuer.body.constraints.ca ≡ true
  allowed : allows issuer.body.constraints.path_length n ≡ true
  issuer_early : leb issuer.body.not_before t ≡ true
  issuer_late : leb t issuer.body.not_after ≡ true
  early : leb cert.body.not_before t ≡ true
  late : leb t cert.body.not_after ≡ true

counted_none :
    (n : ℕ) (next : Certificate)
    → counted n next ≡ 0
    → (next.body.subject ≡ next.body.issuer) × (n ≡ 0)
counted_none n next e = elim (Bool-cases (next.body.subject =ₜ next.body.issuer)) [
  | inl own ↦ (text_eq_sound next.body.subject next.body.issuer own, ground arith)
  | inr other ↦ absurd (ground (arith, n))
]

module _ (x : X509) where
  linked_lem :
      (t n : ℕ) (cert issuer : Certificate)
      → linked x t n cert issuer ≡ true
      → IsLinked x t n cert issuer
  unfolding linked
  linked_lem t n cert issuer h = record {
    named = text_eq_sound cert.body.issuer issuer.body.subject (ground arith);
    verified = ground arith;
    authority = ground arith;
    allowed = ground arith;
    issuer_early = ground arith;
    issuer_late = ground arith;
    early = ground arith;
    late = ground arith;
  }

  leads_end :
      (t n : ℕ) (cert root : Certificate)
      → leads x t n cert [] (root ∷ []) ≡ true
      → linked x t n cert root ≡ true
  unfolding leads
  leads_end t n cert root h = ground arith

  leads_step :
      (t n : ℕ) (cert next : Certificate) (path roots : List Certificate)
      → leads x t n cert (next ∷ path) roots ≡ true
      → (linked x t n cert next ≡ true) × (leads x t (counted n next) next path roots ≡ true)
  unfolding leads
  leads_step t n cert next path roots h = (ground arith, ground arith)

module _ (x : X509) (r : Draws) where
  abbrev pub in_time : ℕ → Bool
  in_time t = leb r.now t && leb t (not_after r)

  -- What the certificate of a peer must have.
  abbrev pub IsIssued : ℕ → Certificate → Type 0
  IsIssued t cert =
      (x.verify (x.public_of r.ca_key) cert.body cert.signature ≡ true)
      × (in_time t ≡ true)
      × (leb cert.body.not_before t ≡ true)
      × (leb t cert.body.not_after ≡ true)

  -- The certificates of a path are of the authority: they bear its name, and they are authorities.
  abbrev pub AreOfAuthority : List Certificate → Type 0
  AreOfAuthority [] = Unit
  AreOfAuthority (c ∷ cs) =
      (c.body.subject ≡ ca_name) × (c.body.constraints.ca ≡ true) × AreOfAuthority cs

  -- The last certificate of a path, the one that a root has to vouch for.
  abbrev pub top : Certificate → List Certificate → Certificate
  top cert [] = cert
  top cert (next ∷ path) = top next path

  -- What a certificate and a path that are accepted must have.
  abbrev pub IsVouched : ℕ → Certificate → List Certificate → Type 0
  IsVouched t cert path =
      IsIssued t (top cert path)
      × (cert.body.issuer ≡ ca_name)
      × (leb cert.body.not_before t ≡ true)
      × (leb t cert.body.not_after ≡ true)
      × AreOfAuthority path

  -- What the authority vouches for itself.
  anchored_lem :
      (t n : ℕ) (cert : Certificate)
      → linked x t n cert (ca_cert x r) ≡ true
      → (n ≡ 0) × IsIssued t cert × (cert.body.issuer ≡ ca_name)
  unfolding ca_cert
  anchored_lem t n cert h =
      let l = linked_lem x t n cert (ca_cert x r) h in
      (
        ground (arith, l.allowed),
        (l.verified, ground (arith, l.issuer_early, l.issuer_late), l.early, l.late),
        l.named,
      )

  pub leads_lem :
      (t n : ℕ) (cert : Certificate) (path : List Certificate)
      → leads x t n cert path (ca_cert x r ∷ []) ≡ true
      → (n ≡ 0) × IsVouched t cert path
  leads_lem t n cert [] h =
      let linked_here = leads_end x t n cert (ca_cert x r) h in
      let l = linked_lem x t n cert (ca_cert x r) linked_here in
      let (none_below, issued, named) = anchored_lem t n cert linked_here in
      (none_below, (issued, named, l.early, l.late, tt))
  leads_lem t n cert (next ∷ path) h =
      let (linked_here, later) = leads_step x t n cert next path (ca_cert x r ∷ []) h in
      let l = linked_lem x t n cert next linked_here in
      let (none_below, (issued, named, early, late, others)) =
        leads_lem t (counted n next) next path later in
      let (own, none_here) = counted_none n next none_below in
      let of_authority = own ∙ named in
      (
        none_here,
        (issued, l.named ∙ of_authority, l.early, l.late, (of_authority, l.authority, others)),
      )

  AreOfAuthority-middle :
      (before : List Certificate) (leaf : Certificate) (after : List Certificate)
      → AreOfAuthority (before ++ (leaf ∷ after))
      → leaf.body.subject ≡ ca_name
  AreOfAuthority-middle [] leaf after h = h.0
  AreOfAuthority-middle (c ∷ cs) leaf after h = AreOfAuthority-middle cs leaf after h.2

  abbrev pub IsLeaf : Certificate → Type 0
  IsLeaf leaf = (leaf ≡ recv_cert x r) ⊎ (leaf ≡ send_cert x r)

  IsLeaf-subject : (leaf : Certificate) → IsLeaf leaf → (leaf.body.subject =ₜ ca_name) ≡ false
  unfolding recv_cert send_cert issue_leaf
  IsLeaf-subject leaf (inl e) = ap (λ (c : Certificate). c.body.subject =ₜ ca_name) e
  IsLeaf-subject leaf (inr e) = ap (λ (c : Certificate). c.body.subject =ₜ ca_name) e

  -- No path leads over one of the two leaves.
  pub leads-leaf :
      (t n : ℕ) (cert : Certificate) (before : List Certificate) (leaf : Certificate)
      (after : List Certificate)
      → IsLeaf leaf
      → leads x t n cert (before ++ (leaf ∷ after)) (ca_cert x r ∷ []) ≡ false
  leads-leaf t n cert before leaf after is_leaf =
      elim (Bool-cases (leads x t n cert (before ++ (leaf ∷ after)) (ca_cert x r ∷ []))) [
        | inl h ↦
            let (none_below, (issued, named, early, late, others)) =
              leads_lem t n cert (before ++ (leaf ∷ after)) h in
            let own = AreOfAuthority-middle before leaf after others in
            let other = IsLeaf-subject leaf is_leaf in
            let same = ap (λ (s : Text). s =ₜ ca_name) own in ground (arith, text_eq_refl ca_name)
        | inr h ↦ h
      ]
