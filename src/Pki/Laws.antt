-- ===== src/Pki/Laws.antt =====
-- pki/utils.go: what is encoded is parsed again.
use jopa.Common.{
  ℕ, ◌+◌, ◌≤◌, String, Bool, true, false, ◌||◌, ◌==ₛ◌, List, [], ◌++◌, length, some, ◌≡◌, ◌≢◌, refl,
  ap, if_holds, leb, ◌/◌, append-nil, if◌then◌else◌, ◌∙◌, subst, inl, inr, ◌⊎◌,
}
use jopa.Common.Outcome.{Outcome, ok, err, ◌>>=◌, >>=-eq-ok, ok_injective}
use jopa.Pki.{
  Failure, unknown_algorithm, Crypto, rsa_key, ec_key, PrivateKey, rsa_block_type, ec_block_type,
  certificate_block_type, block_of, is_curve, gen_cert_private_key, encode_cert_private_key,
  parse_cert_private_key, parse_decoded, parse_block, sig_rsa, sig_ec, encode_rsa, encode_ec,
  generate_rsa_key, generate_ec_key, sig_algorithm_type, Algorithm, unknown,
}

-- The types of the blocks that are written and read.
abbrev pub is_used : String → Bool
is_used t = t ==ₛ rsa_block_type || t ==ₛ ec_block_type || t ==ₛ certificate_block_type

-- What encoding/pem and crypto/x509 document: the inverse functions of what was generated or read.
pub record Inverse {R E C : Type 0} (c : Crypto R E C) : Type 0 where
  pub decode-encode :
      (t : String) (bytes rest : List ℕ)
      → is_used t ≡ true
      → c.decode (c.encode (block_of c t bytes) ++ rest) ≡ some (block_of c t bytes, rest)
  pub encode-nonempty : (t : String) (bytes : List ℕ) → 1 ≤ length (c.encode (block_of c t bytes))
  pub parse_rsa-marshal :
      (bits : ℕ) (k : R) → c.generate_rsa bits ≡ ok k → c.parse_rsa (c.marshal_rsa k) ≡ ok k
  pub parse_ec-marshal :
      (dsa : String) (k : E)
      → is_curve c dsa ≡ true
      → c.generate_ec dsa ≡ ok k
      → (bytes : List ℕ) × (c.marshal_ec k ≡ ok bytes) × (c.parse_ec bytes ≡ ok k)
  pub parse_certificate-raw : (cert : C) → c.parse_certificate (c.raw cert) ≡ ok cert

-- Which of two guarded calls gave the result.
which_branch :
    {A : Type 0} (b1 b2 : Bool) {o1 o2 : Outcome Failure A} {v : A}
    → (if b1 then o1 else if b2 then o2 else err unknown_algorithm) ≡ ok v
    → (o1 ≡ ok v) ⊎ ((b2 ≡ true) × (o2 ≡ ok v))
which_branch true b2 h = inl h
which_branch false true h = inr (refl, h)
which_branch false false h = cc

module _ {R E C : Type 0} (c : Crypto R E C) where
  -- The key is parsed back from its encoding, and a signature algorithm is known for it.
  abbrev pub Usable : PrivateKey R E → Type 0
  Usable priv =
      (bytes : List ℕ) × (encode_cert_private_key c priv ≡ ok bytes)
      × (parse_cert_private_key c bytes ≡ ok priv)
      × ((a : Algorithm) × (sig_algorithm_type c priv ≡ ok a) × (a ≢ unknown))

  -- A single block is decoded.
  decode-encode_alone :
      (t : String) (bytes : List ℕ)
      → Inverse c
      → is_used t ≡ true
      → c.decode (c.encode (block_of c t bytes)) ≡ some (block_of c t bytes, [])
  decode-encode_alone t bytes inverse used =
      subst (λ w. c.decode w ≡ some (block_of c t bytes, [])) (append-nil _)
        (inverse.decode-encode t bytes [] used)

  parse-encode_rsa :
      (bytes : List ℕ) (k : R)
      → Inverse c
      → c.parse_rsa bytes ≡ ok k
      → parse_cert_private_key c (c.encode (block_of c rsa_block_type bytes))
        ≡ ok (record { key_type = rsa_block_type; key = rsa_key k })
  unfolding parse_cert_private_key parse_decoded parse_block
  parse-encode_rsa bytes k inverse e =
      ap (λ o. parse_decoded c o) (decode-encode_alone rsa_block_type bytes inverse refl)
      ∙ ap (λ o. o >>= λ r. ok (record { key_type = rsa_block_type; key = rsa_key r })) e

  parse-encode_ec :
      (bytes : List ℕ) (k : E)
      → Inverse c
      → c.parse_ec bytes ≡ ok k
      → parse_cert_private_key c (c.encode (block_of c ec_block_type bytes))
        ≡ ok (record { key_type = ec_block_type; key = ec_key k })
  unfolding parse_cert_private_key parse_decoded parse_block
  parse-encode_ec bytes k inverse e =
      ap (λ o. parse_decoded c o) (decode-encode_alone ec_block_type bytes inverse refl)
      ∙ ap (λ o. o >>= λ r. ok (record { key_type = ec_block_type; key = ec_key r })) e

  rsa-signs :
      (k : R)
      → (a : Algorithm) × (sig_algorithm_type c
            (record { key_type = rsa_block_type; key = rsa_key k })
          ≡ ok a)
        × (a ≢ unknown)
  unfolding sig_algorithm_type sig_rsa
  rsa-signs k = (
    _,
    refl,
    if_holds (λ a. a ≢ unknown) (leb 4096 (c.rsa_bits k)) (λ e. cc)
        (if_holds (λ a. a ≢ unknown) (leb 3072 (c.rsa_bits k)) (λ e. cc) (λ e. cc)),
  )

  ec-signs :
      (k : E)
      → (a : Algorithm) × (sig_algorithm_type c
            (record { key_type = ec_block_type; key = ec_key k })
          ≡ ok a)
        × (a ≢ unknown)
  unfolding sig_algorithm_type sig_ec
  ec-signs k = (
    _,
    refl,
    if_holds (λ a. a ≢ unknown) (leb 72 (c.ec_bits k / 8 + 8)) (λ e. cc)
        (if_holds (λ a. a ≢ unknown) (leb 54 (c.ec_bits k / 8 + 8)) (λ e. cc) (λ e. cc)),
  )

  rsa-Usable :
      (bits : ℕ) (k : R)
      → Inverse c
      → c.generate_rsa bits ≡ ok k
      → Usable (record { key_type = rsa_block_type; key = rsa_key k })
  unfolding encode_cert_private_key encode_rsa
  rsa-Usable bits k inverse e = (
    _,
    refl,
    parse-encode_rsa (c.marshal_rsa k) k inverse (inverse.parse_rsa-marshal bits k e),
    rsa-signs k,
  )

  ec-Usable :
      (dsa : String) (k : E)
      → Inverse c
      → is_curve c dsa ≡ true
      → c.generate_ec dsa ≡ ok k
      → Usable (record { key_type = ec_block_type; key = ec_key k })
  unfolding encode_cert_private_key encode_ec
  ec-Usable dsa k inverse curve e =
      let (bytes, marshalled, parsed) = inverse.parse_ec-marshal dsa k curve e in
      (
        c.encode (block_of c ec_block_type bytes),
        ap (λ o. o >>= λ b. ok (c.encode (block_of c ec_block_type b))) marshalled,
        parse-encode_ec bytes k inverse parsed,
        ec-signs k,
      )

  generate_rsa_key-Usable :
      (bits : ℕ) (priv : PrivateKey R E)
      → Inverse c
      → generate_rsa_key c bits ≡ ok priv
      → Usable priv
  unfolding generate_rsa_key
  generate_rsa_key-Usable bits priv inverse h =
      let (k, e, made) = >>=-eq-ok (c.generate_rsa bits) _ h in
      subst Usable (ok_injective made) (rsa-Usable bits k inverse e)

  generate_ec_key-Usable :
      (dsa : String) (priv : PrivateKey R E)
      → Inverse c
      → is_curve c dsa ≡ true
      → generate_ec_key c dsa ≡ ok priv
      → Usable priv
  unfolding generate_ec_key
  generate_ec_key-Usable dsa priv inverse curve h =
      let (k, e, made) = >>=-eq-ok (c.generate_ec dsa) _ h in
      subst Usable (ok_injective made) (ec-Usable dsa k inverse curve e)

  -- If the library's functions are inverse to each other, a private key that was generated is encoded, parsed back
  -- from its encoding as the same key, and has a signature algorithm that is known; no type assertion panics.
  pub gen_cert_private_key-Usable :
      (dsa : String) (bits : ℕ) (priv : PrivateKey R E)
      → Inverse c
      → gen_cert_private_key c dsa bits ≡ ok priv
      → Usable priv
  unfolding gen_cert_private_key
  gen_cert_private_key-Usable dsa bits priv inverse h =
      elim (which_branch (dsa ==ₛ "rsa") (is_curve c dsa) h) [
        | inl e ↦ generate_rsa_key-Usable bits priv inverse e
        | inr (curve, e) ↦ generate_ec_key-Usable dsa priv inverse curve e
      ]
