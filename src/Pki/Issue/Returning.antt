-- ===== src/Pki/Issue/Returning.antt =====
-- pki/pki.go: no type assertion, no index and no pointer panics.
use jopa.Common.{
  ℕ, String, Bool, true, false, Option, none, some, List, [], ◌∷◌, ◌≡◌, refl, ap, sym, subst,
  if◌then◌else◌, ◌==ₛ◌, length,
}
use jopa.Common.Outcome.{Outcome, ok, err, panic, ◌>>=◌, >>=-eq-ok, ok_injective, Returns}
use jopa.Pki.{
  Failure, Key, rsa_key, ec_key, PrivateKey, Crypto, Block, rsa_block_type, ec_block_type,
  encode_cert_private_key, encode_rsa, encode_ec, parse_cert_private_key, parse_decoded,
  parse_block, parse_certificates, ensure_some, cert_loop, gen_cert_private_key, generate_rsa_key,
  generate_ec_key, sig_algorithm_type, sig_rsa, sig_ec, is_curve,
}
use jopa.Pki.Issue.{
  CertPem, Request, Template, Parent, issuer, X509, Clock, default_dsa, default_rsa_bits, all_certs,
  sign_request, create_sub_cert, new_request, create_sub_cert_with_key, root_signer,
  issue_root_cert, create_self_signed_root_cert, create_root_cert,
}

Returns-step :
    {E A B : Type 0} (m : Outcome E A) (f : A → Outcome E B)
    → Returns m
    → ((a : A) → m ≡ ok a → Returns (f a))
    → Returns (m >>= f)
Returns-step panic f h g = absurd h
Returns-step (err e) f h g = tt
Returns-step (ok a) f h g = g a refl

Returns-if :
    {E A : Type 0} (b1 b2 : Bool) (m n : Outcome E A) (e : E)
    → Returns m
    → Returns n
    → Returns (if b1 then m else if b2 then n else err e)
Returns-if true b2 m n e h g = h
Returns-if false true m n e h g = g
Returns-if false false m n e h g = tt

-- The functions of the libraries come back.
pub record Calm {R E C P : Type 0} (c : Crypto R E C) (x : X509 R E C P) : Type 0 where
  pub generate_rsa-Returns : (bits : ℕ) → Returns (c.generate_rsa bits)
  pub generate_ec-Returns : (dsa : String) → Returns (c.generate_ec dsa)
  pub marshal_ec-Returns : (k : E) → Returns (c.marshal_ec k)
  pub parse_rsa-Returns : (w : List ℕ) → Returns (c.parse_rsa w)
  pub parse_ec-Returns : (w : List ℕ) → Returns (c.parse_ec w)
  pub create_request-Returns : (info : Request) (k : Key R E) → Returns (x.create_request info k)
  pub parse_request-Returns : (w : List ℕ) → Returns (x.parse_request w)
  pub create_certificate-Returns :
      (t : Template) (parent : Parent C) (p : P) (k : Key R E)
      → Returns (x.create_certificate t parent p k)

module _ {R E C P : Type 0} (c : Crypto R E C) (x : X509 R E C P) where
  -- The type of a key names the kind that it is of.
  data Typed : PrivateKey R E → Type 0 where
    rsa_typed : (k : R) → Typed (record { key_type = rsa_block_type; key = rsa_key k })
    ec_typed : (k : E) → Typed (record { key_type = ec_block_type; key = ec_key k })

  encode-Returns :
      {priv : PrivateKey R E} → Calm c x → Typed priv → Returns (encode_cert_private_key c priv)
  unfolding encode_cert_private_key encode_rsa encode_ec
  encode-Returns calm (rsa_typed k) = tt
  encode-Returns calm (ec_typed k) =
      Returns-step (c.marshal_ec k) _ (calm.marshal_ec-Returns k) (λ a e. tt)

  sig-Returns : {priv : PrivateKey R E} → Typed priv → Returns (sig_algorithm_type c priv)
  unfolding sig_algorithm_type sig_rsa sig_ec
  sig-Returns (rsa_typed k) = tt
  sig-Returns (ec_typed k) = tt

  rsa-Typed :
      (m : Outcome Failure R) {priv : PrivateKey R E}
      → (m >>= λ k. ok (record { key_type = rsa_block_type; key = rsa_key k })) ≡ ok priv
      → Typed priv
  rsa-Typed m h =
      let (k, e, made) = >>=-eq-ok m _ h in subst Typed (ok_injective made) (rsa_typed k)

  ec-Typed :
      (m : Outcome Failure E) {priv : PrivateKey R E}
      → (m >>= λ k. ok (record { key_type = ec_block_type; key = ec_key k })) ≡ ok priv
      → Typed priv
  ec-Typed m h = let (k, e, made) = >>=-eq-ok m _ h in subst Typed (ok_injective made) (ec_typed k)

  -- What one of two calls, or an error, gives.
  Typed-if :
      (b1 b2 : Bool) (m n : Outcome Failure (PrivateKey R E)) (e : Failure) {priv : PrivateKey R E}
      → (m ≡ ok priv → Typed priv)
      → (n ≡ ok priv → Typed priv)
      → (if b1 then m else if b2 then n else err e) ≡ ok priv
      → Typed priv
  Typed-if true b2 m n e f g h = f h
  Typed-if false true m n e f g h = g h
  Typed-if false false m n e f g h = cc

  generated-Typed :
      (dsa : String) (bits : ℕ) {priv : PrivateKey R E}
      → gen_cert_private_key c dsa bits ≡ ok priv
      → Typed priv
  unfolding gen_cert_private_key generate_rsa_key generate_ec_key
  generated-Typed dsa bits h =
      Typed-if _ _ (generate_rsa_key c bits) (generate_ec_key c dsa) _
        (rsa-Typed (c.generate_rsa bits)) (ec-Typed (c.generate_ec dsa)) h

  decoded-Typed :
      (d : Option (Block × List ℕ)) {priv : PrivateKey R E}
      → parse_decoded c d ≡ ok priv
      → Typed priv
  unfolding parse_decoded parse_block
  decoded-Typed none h = cc
  decoded-Typed (some (block, rest)) h =
      Typed-if _ _ _ _ _ (ec-Typed (c.parse_ec block.bytes)) (rsa-Typed (c.parse_rsa block.bytes)) h

  parsed-Typed :
      (w : List ℕ) {priv : PrivateKey R E} → parse_cert_private_key c w ≡ ok priv → Typed priv
  unfolding parse_cert_private_key
  parsed-Typed w h = decoded-Typed (c.decode w) h

  abbrev as_rsa : R → Outcome Failure (PrivateKey R E)
  as_rsa k = ok (record { key_type = rsa_block_type; key = rsa_key k })

  abbrev as_ec : E → Outcome Failure (PrivateKey R E)
  as_ec k = ok (record { key_type = ec_block_type; key = ec_key k })

  rsa-Returns : (m : Outcome Failure R) → Returns m → Returns (m >>= as_rsa)
  rsa-Returns m h = Returns-step m as_rsa h (λ a e. tt)

  ec-Returns : (m : Outcome Failure E) → Returns m → Returns (m >>= as_ec)
  ec-Returns m h = Returns-step m as_ec h (λ a e. tt)

  generate-Returns :
      (dsa : String) (bits : ℕ) → Calm c x → Returns (gen_cert_private_key c dsa bits)
  unfolding gen_cert_private_key generate_rsa_key generate_ec_key
  generate-Returns dsa bits calm =
      Returns-if (dsa ==ₛ "rsa") (is_curve c dsa) (generate_rsa_key c bits) (generate_ec_key c dsa)
        _ (rsa-Returns (c.generate_rsa bits) (calm.generate_rsa-Returns bits))
        (ec-Returns (c.generate_ec dsa) (calm.generate_ec-Returns dsa))

  decoded-Returns : (d : Option (Block × List ℕ)) → Calm c x → Returns (parse_decoded c d)
  unfolding parse_decoded parse_block
  decoded-Returns none calm = tt
  decoded-Returns (some (block, rest)) calm =
      Returns-if (block.block_type ==ₛ ec_block_type) (block.block_type ==ₛ rsa_block_type)
        (c.parse_ec block.bytes >>= as_ec) (c.parse_rsa block.bytes >>= as_rsa) _
        (ec-Returns (c.parse_ec block.bytes) (calm.parse_ec-Returns block.bytes))
        (rsa-Returns (c.parse_rsa block.bytes) (calm.parse_rsa-Returns block.bytes))

  parse-Returns : (w : List ℕ) → Calm c x → Returns (parse_cert_private_key c w)
  unfolding parse_cert_private_key
  parse-Returns w calm = decoded-Returns (c.decode w) calm

  -- The list of certificates is not empty when there is no error.
  ensured-some :
      (r : List C × Option Failure) (certs : List C)
      → ensure_some c r ≡ (certs, none)
      → (a : C) × (more : List C) × (certs ≡ a ∷ more)
  unfolding ensure_some
  ensured-some (certs0, some e) certs h = cc
  ensured-some ([], none) certs h = cc
  ensured-some (a ∷ more, none) certs h = (a, more, ap (λ r. r.0) (sym h))

  certs-Returns :
      {B : Type 0} (w : List ℕ) (next : List C → Outcome Failure B)
      → ((a : C) (more : List C) → Returns (next (a ∷ more)))
      → Returns (all_certs c x (parse_certificates c w) >>= next)
  unfolding parse_certificates
  certs-Returns w next h =
      go (ensure_some c (cert_loop c (length w) w)) (ensured-some (cert_loop c (length w) w))
    where
      go :
          (r : List C × Option Failure)
          → ((certs : List C) → r ≡ (certs, none) → (a : C) × (more : List C) × (certs ≡ a ∷ more))
          → Returns (all_certs c x r >>= next)
      go (certs, some e) nonempty = tt
      go ([], none) nonempty = let (a, more, impossible) = nonempty [] refl in cc
      go (a ∷ more, none) nonempty = h a more

  new_request-Returns : (info : Request) → Calm c x → Returns (new_request c x info)
  unfolding new_request
  new_request-Returns info calm =
      Returns-step (gen_cert_private_key c default_dsa default_rsa_bits) _
        (generate-Returns default_dsa default_rsa_bits calm)
        (λ priv made.
          Returns-step (encode_cert_private_key c priv) _
            (encode-Returns calm (generated-Typed default_dsa default_rsa_bits made))
            (λ bytes e.
              Returns-step (x.create_request info priv.key) _
                (calm.create_request-Returns info priv.key) (λ csr e. tt)))

  new_request-Typed :
      (info : Request) {priv : PrivateKey R E} {priv_byte csr : List ℕ}
      → new_request c x info ≡ ok (priv, priv_byte, csr)
      → Typed priv
  unfolding new_request
  new_request-Typed info h =
      let (k, generated, h2) =
        >>=-eq-ok (gen_cert_private_key c default_dsa default_rsa_bits) _ h in
      let (bytes, encoded, h3) = >>=-eq-ok (encode_cert_private_key c k) _ h2 in
      let (request, made, h4) = >>=-eq-ok (x.create_request info k.key) _ h3 in
      subst Typed (ap (λ r. r.0) (ok_injective h4))
        (generated-Typed default_dsa default_rsa_bits generated)

  -- The certificate of a request, under a parent that is given.
  sub_cert-Returns :
      (csr : List ℕ) (days : ℕ) (parent : CertPem) (clock : Clock)
      → Calm c x
      → Returns (create_sub_cert c x csr days (some parent) clock)
  unfolding create_sub_cert sign_request
  sub_cert-Returns csr days parent clock calm =
      Returns-step (parse_cert_private_key c parent.key) _ (parse-Returns parent.key calm)
        (λ ca_key parsed. certs-Returns parent.crt _ (λ ca more.
          Returns-step (x.parse_request csr) _ (calm.parse_request-Returns csr) (λ request read.
            Returns-step (sig_algorithm_type c ca_key) _
              (sig-Returns (parsed-Typed parent.key parsed))
              (λ algorithm e.
                Returns-step (x.create_certificate _ (issuer ca) _ ca_key.key) _
                  (calm.create_certificate-Returns _ _ _ _) (λ cert e. tt)))))

  -- There is a parent where one is needed.
  abbrev Needed : Bool → Option CertPem → Type 0
  Needed false none = ⊥
  Needed _ _ = Unit

  signer-Returns :
      (b : Bool) (priv : PrivateKey R E) (parent : Option CertPem)
      → Needed b parent
      → Calm c x
      → Typed priv
      → Returns (root_signer c x b priv parent)
  unfolding root_signer
  signer-Returns true priv parent needed calm typed =
      Returns-step (sig_algorithm_type c priv) _ (sig-Returns typed) (λ a e. tt)
  signer-Returns false priv none needed calm typed = absurd needed
  signer-Returns false priv (some parent) needed calm typed =
      Returns-step (parse_cert_private_key c parent.key) _ (parse-Returns parent.key calm)
        (λ ca_key parsed.
          Returns-step (sig_algorithm_type c ca_key) _
            (sig-Returns (parsed-Typed parent.key parsed))
            (λ a e. certs-Returns parent.crt _ (λ ca more. tt)))

  root_cert-Returns :
      (b : Bool) (info : Request) (days : ℕ) (parent : Option CertPem) (clock : Clock)
      → Needed b parent
      → Calm c x
      → Returns (issue_root_cert c x b info days parent clock)
  unfolding issue_root_cert
  root_cert-Returns b info days parent clock needed calm =
      Returns-step (new_request c x info) _ (new_request-Returns info calm)
        (λ (priv, priv_byte, csr) made.
          Returns-step (x.parse_request csr) _ (calm.parse_request-Returns csr) (λ request read.
            Returns-step (root_signer c x b priv parent) _
              (signer-Returns b priv parent needed calm (new_request-Typed info made))
              (λ signer found.
                Returns-step (x.create_certificate _ _ _ _) _
                  (calm.create_certificate-Returns _ _ _ _) (λ cert e. tt))))

  -- If the functions of the libraries come back and a parent is given where one is used, then every function that
  -- issues a certificate comes back with a result or an error, whatever the bytes of the parent and of the request are:
  -- no type assertion on a key panics, and the first of the certificates that were parsed exists.
  pub issue-Returns :
      (info : Request) (csr : List ℕ) (days : ℕ) (parent : CertPem) (clock : Clock)
      → Calm c x
      → Returns (create_self_signed_root_cert c x info days clock)
        × Returns (create_root_cert c x info days (some parent) clock)
        × Returns (create_sub_cert c x csr days (some parent) clock)
        × Returns (create_sub_cert_with_key c x info days (some parent) clock)
  unfolding create_self_signed_root_cert create_root_cert create_sub_cert_with_key
  issue-Returns info csr days parent clock calm = (
    root_cert-Returns true info days none clock tt calm,
    root_cert-Returns false info days (some parent) clock tt calm,
    sub_cert-Returns csr days parent clock calm,
    Returns-step (new_request c x info) _ (new_request-Returns info calm)
        (λ (priv, priv_byte, request) made.
          Returns-step (create_sub_cert c x request days (some parent) clock) _
            (sub_cert-Returns request days parent clock calm) (λ crt e. tt)),
  )
