-- ===== src/Certificates/Handshake.antt =====
-- What a TLS handshake checks of the certificates that a peer shows, written out as documentation has
-- it; the code only sets it up.
use cmpe272_finaltest_assesm.Prelude.{
  ℕ, ◌+◌, Bool, true, false, ◌&&◌, ◌||◌, Option, none, some, List, [], ◌∷◌, leb, ◌=ₜ◌,
  if◌then◌else◌,
}
use cmpe272_finaltest_assesm.Bytes.{Text}
use cmpe272_finaltest_assesm.Certificates.{
  Purpose, server_auth, client_auth, San, Usage, Body, Certificate, X509,
}
use cmpe272_finaltest_assesm.Certificates.Context.{Context, VerifyMode, cert_none, cert_required}

abbrev same_purpose : Purpose → Purpose → Bool
same_purpose server_auth server_auth = true
same_purpose client_auth client_auth = true
same_purpose _ _ = false

abbrev has_purpose : Purpose → List Purpose → Bool
has_purpose p [] = false
has_purpose p (q ∷ qs) = same_purpose p q || has_purpose p qs

-- A certificate without the extension serves every purpose.
abbrev serves : Purpose → Option (List Purpose) → Bool
serves p none = true
serves p (some qs) = has_purpose p qs

abbrev may_sign : Option Usage → Bool
may_sign none = true
may_sign (some u) = u.key_cert_sign

-- How many certificates may stand between an authority and the last one.
abbrev pub allows : Option ℕ → ℕ → Bool
allows none n = true
allows (some m) n = leb n m

abbrev within : Body → ℕ → Bool
within b t = leb b.not_before t && leb t b.not_after

-- A certificate that bears the name of its issuer does not count for the path length.
abbrev pub counted : ℕ → Certificate → ℕ
counted n cert = if cert.body.subject =ₜ cert.body.issuer then n else n + 1

module _ (x : X509) where
  abbrev has_name : Text → List San → Bool
  has_name host [] = false
  has_name host (s ∷ sans) = x.goes_by host s || has_name host sans

  abbrev is_named : Text → Option (List San) → Bool
  is_named host none = false
  is_named host (some sans) = has_name host sans

  -- The issuer signed this certificate and may do so: it is an authority, `n` certificates of others
  -- may stand below it, and it is neither too early nor too late for either of them.
  unfoldable pub linked : ℕ → ℕ → Certificate → Certificate → Bool
  linked t n cert issuer =
      (cert.body.issuer =ₜ issuer.body.subject)
      && x.verify issuer.body.public_key cert.body cert.signature
      && issuer.body.constraints.ca
      && may_sign issuer.body.usage
      && allows issuer.body.constraints.path_length n
      && within issuer.body t
      && within cert.body t

  abbrev anchored : ℕ → ℕ → Certificate → List Certificate → Bool
  anchored t n cert [] = false
  anchored t n cert (root ∷ roots) = linked t n cert root || anchored t n cert roots

  -- The certificates of the path lead from this one to a root.
  unfoldable pub leads : ℕ → ℕ → Certificate → List Certificate → List Certificate → Bool
  leads t n cert [] roots = anchored t n cert roots
  leads t n cert (next ∷ path) roots =
      linked t n cert next && leads t (counted n next) next path roots

  abbrev passes : Context → Purpose → Text → ℕ → Certificate → List Certificate → Bool
  passes ctx purpose host t cert path =
      leads t 0 cert path ctx.roots
      && serves purpose cert.body.extended
      && (if ctx.check_hostname then is_named host cert.body.sans else true)

  -- Whether a context that does not require a certificate goes on without one, and whether it goes on
  -- with any.
  abbrev is_lenient : VerifyMode → Bool
  is_lenient cert_required = false
  is_lenient _ = true

  abbrev is_blind : VerifyMode → Bool
  is_blind cert_none = true
  is_blind _ = false

  -- Whether this context goes on with a peer that shows this certificate, and those of a path from it.
  abbrev pub accepts_path : Context → Purpose → Text → ℕ → Certificate → List Certificate → Bool
  accepts_path ctx purpose host t cert path =
      is_blind ctx.verify_mode || passes ctx purpose host t cert path

  -- Whether it goes on with a peer that shows this certificate alone, or none.
  abbrev pub accepts : Context → Purpose → Text → ℕ → Option Certificate → Bool
  accepts ctx purpose host t none = is_lenient ctx.verify_mode
  accepts ctx purpose host t (some cert) = accepts_path ctx purpose host t cert []
