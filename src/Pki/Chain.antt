-- ===== src/Pki/Chain.antt =====
-- pki/utils.go: chains of certificates.
use jopa.Common.{
  ℕ, zero, suc, ◌≤◌, List, [], ◌∷◌, ◌++◌, length, length-append, none, ◌≡◌, refl, ap, ◌∙◌, arith,
}
use jopa.Common.Outcome.{ok}
use jopa.Pki.{
  Crypto, certificate_block_type, block_of, add_cert, cert_block, cert_loop, ensure_some,
  parse_certificates, encode_certificates,
}
use jopa.Pki.Laws.{Inverse}

module _ {R E C : Type 0} (c : Crypto R E C) where
  abbrev encoded : C → List ℕ
  encoded cert = c.encode (block_of c certificate_block_type (c.raw cert))

  -- A round of the loop on data that is not empty.
  cert_loop-round :
      (fuel : ℕ) (pem : List ℕ)
      → 1 ≤ length pem
      → cert_loop c (suc fuel) pem ≡ cert_block c (c.decode pem) (λ rest. cert_loop c fuel rest)
  unfolding cert_loop
  cert_loop-round fuel [] h = absurd (omega arith)
  cert_loop-round fuel (b ∷ bs) h = refl

  cert_loop-encoded :
      (fuel : ℕ) (cert : C) (rest : List ℕ)
      → Inverse c
      → cert_loop c (suc fuel) (encoded cert ++ rest) ≡ add_cert c (ok cert) (cert_loop c fuel rest)
  unfolding cert_block
  cert_loop-encoded fuel cert rest inverse =
      cert_loop-round fuel (encoded cert ++ rest) (
        omega (
          arith,
          length-append (encoded cert) rest,
          inverse.encode-nonempty certificate_block_type (c.raw cert),
        ))
      ∙ ap (λ o. cert_block c o (λ r. cert_loop c fuel r))
          (inverse.decode-encode certificate_block_type (c.raw cert) rest refl)
      ∙ ap (λ o. add_cert c o (cert_loop c fuel rest)) (inverse.parse_certificate-raw cert)

  -- Fuel of the length of the data is enough.
  cert_loop-encode :
      (fuel : ℕ) (certs : List C)
      → Inverse c
      → length (encode_certificates c certs) ≤ fuel
      → cert_loop c fuel (encode_certificates c certs) ≡ (certs, none)
  unfolding cert_loop encode_certificates add_cert
  cert_loop-encode zero [] inverse h = refl
  cert_loop-encode (suc fuel) [] inverse h = refl
  cert_loop-encode zero (cert ∷ certs) inverse h = absurd (
      omega (
        arith,
        length-append (encoded cert) (encode_certificates c certs),
        inverse.encode-nonempty certificate_block_type (c.raw cert),
      ))
  cert_loop-encode (suc fuel) (cert ∷ certs) inverse h =
      cert_loop-encoded fuel cert (encode_certificates c certs) inverse
      ∙ ap (λ r. add_cert c (ok cert) r)
          (cert_loop-encode fuel certs inverse (
            omega (
              arith,
              length-append (encoded cert) (encode_certificates c certs),
              inverse.encode-nonempty certificate_block_type (c.raw cert),
            )))

  -- If the library's functions are inverse to each other, the certificates of a chain with at least one are parsed
  -- back from its encoding, all of them, in order and without an error.
  pub parse_certificates-encode :
      (cert : C) (certs : List C)
      → Inverse c
      → parse_certificates c (encode_certificates c (cert ∷ certs)) ≡ (cert ∷ certs, none)
  unfolding parse_certificates ensure_some
  parse_certificates-encode cert certs inverse =
      ap (λ r. ensure_some c r)
        (cert_loop-encode (length (encode_certificates c (cert ∷ certs))) (cert ∷ certs) inverse
          (omega arith))
