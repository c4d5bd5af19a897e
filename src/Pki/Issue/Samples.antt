-- ===== src/Pki/Issue/Samples.antt =====
-- Certificates that are issued by a small library: a certificate is its flag, the number of its holder among the
-- requests that are known, its public key and the key that signed it.
use jopa.Common.{
  ℕ, zero, suc, ◌+◌, String, Bool, true, false, ◌&&◌, ◌==◌, ◌==ₛ◌, if◌then◌else◌, some, List, [],
  ◌∷◌, Bool-cases, inl, inr,
}
use jopa.Common.Outcome.{Outcome, ok, err, panic, ◌>>=◌, Returns}
use jopa.Pki.{Failure, library_failed, Key, rsa_key, ec_key, Crypto}
use jopa.Pki.Samples.{numbers}
use jopa.Pki.Issue.{
  Template, CertPem, Request, X509, Clock, create_self_signed_root_cert, create_root_cert,
  create_sub_cert, create_sub_cert_with_key,
}
use jopa.Pki.Issue.Returning.{Calm, issue-Returns}
use jopa.Pki.Tool.{gen_csr, local_names}

-- Equal lists of texts, and requests by their fields.
abbrev same : List String → List String → Bool
same [] [] = true
same (s ∷ ss) (t ∷ ts) = s ==ₛ t && same ss ts
same _ _ = false

abbrev all_same : List (List String) → List (List String) → Bool
all_same [] [] = true
all_same (s ∷ ss) (t ∷ ts) = same s t && all_same ss ts
all_same _ _ = false

abbrev fields : Request → List (List String)
fields r =
    r.subject.country
    ∷ r.subject.organization
    ∷ r.subject.organizational_unit
    ∷ r.subject.locality
    ∷ r.subject.province
    ∷ r.subject.street_address
    ∷ r.subject.postal_code
    ∷ (r.subject.common_name ∷ [])
    ∷ r.dns_names
    ∷ r.email_addresses
    ∷ r.ip_addresses
    ∷ r.uris
    ∷ []

abbrev nobody : Request
nobody = gen_csr "" (local_names [])

abbrev of_fields : List (List String) → Request
of_fields (a ∷ b ∷ d ∷ e ∷ f ∷ g ∷ h ∷ (cn ∷ []) ∷ i ∷ j ∷ k ∷ l ∷ []) = record {
  subject = record {
    country = a;
    organization = b;
    organizational_unit = d;
    locality = e;
    province = f;
    street_address = g;
    postal_code = h;
    common_name = cn;
  };
  dns_names = i;
  email_addresses = j;
  ip_addresses = k;
  uris = l;
}
of_fields _ = nobody

abbrev position : List Request → Request → Outcome Failure ℕ
position [] q = err library_failed
position (r ∷ rs) q =
    let rest = position rs q in
    if all_same (fields r) (fields q) then ok 0 else rest >>= λ i. ok (suc i)

abbrev nth : ℕ → List Request → Request
nth i [] = nobody
nth zero (r ∷ rs) = r
nth (suc i) (r ∷ rs) = nth i rs

-- What a template says of its holder.
abbrev asked : Template → Request
asked t = record {
  subject = t.subject;
  dns_names = t.dns_names;
  email_addresses = t.email_addresses;
  ip_addresses = t.ip_addresses;
  uris = t.uris;
}

record Cert : Type 0 where
  pub authority : Bool
  pub holder : ℕ
  pub own_key : ℕ
  pub signer : ℕ

abbrev raw_cert : Cert → List ℕ
raw_cert t = (if t.authority then 1 else 0) ∷ t.holder ∷ t.own_key ∷ t.signer ∷ []

abbrev read_cert : List ℕ → Outcome Failure Cert
read_cert (b ∷ h ∷ k ∷ s ∷ []) =
    ok (record { authority = b == 1; holder = h; own_key = k; signer = s })
read_cert _ = err library_failed

abbrev crypto : Crypto ℕ ℕ Cert
crypto = record {
  generate_rsa = numbers.generate_rsa;
  generate_ec = numbers.generate_ec;
  marshal_rsa = numbers.marshal_rsa;
  marshal_ec = numbers.marshal_ec;
  parse_rsa = numbers.parse_rsa;
  parse_ec = numbers.parse_ec;
  parse_certificate = read_cert;
  raw = raw_cert;
  encode = numbers.encode;
  decode = numbers.decode;
  rsa_bits = numbers.rsa_bits;
  ec_bits = numbers.ec_bits;
}

abbrev number_of : Key ℕ ℕ → ℕ
number_of (rsa_key k) = k
number_of (ec_key k) = k

-- The requests of the tool.
abbrev known : List Request
known =
    gen_csr "root.ca" (local_names [])
    ∷ gen_csr "client" (local_names [])
    ∷ gen_csr "server" (local_names ("localhost" ∷ []))
    ∷ []

abbrev read_request : List ℕ → Outcome Failure (Request × ℕ)
read_request (i ∷ k ∷ []) = ok (nth i known, k)
read_request _ = err library_failed

abbrev library : X509 ℕ ℕ Cert ℕ
library = record {
  create_request = λ info k. position known info >>= λ i. ok (i ∷ number_of k ∷ []);
  parse_request = read_request;
  create_certificate = λ t parent p k. position known (asked t) >>= λ i.
      ok (raw_cert (record { authority = t.is_ca; holder = i; own_key = p; signer = number_of k }));
  add_days = λ t days. t + days;
}

abbrev finish : {A : Type 0} → (ℕ → A) → ℕ → Outcome Failure A
finish f i = ok (f i)

position-Returns :
    {A : Type 0} (f : ℕ → A) (rs : List Request) (q : Request)
    → Returns (position rs q >>= finish f)
position-Returns f [] q = tt
position-Returns f (r ∷ rs) q = elim (Bool-cases (all_same (fields r) (fields q))) [
  | inl eq ↦ rw eq tt
  | inr ne ↦ rw ne (go (position rs q) (position-Returns f rs q))
]
  where
    go :
        (o : Outcome Failure ℕ)
        → Returns (o >>= finish f)
        → Returns ((o >>= λ i. ok (suc i)) >>= finish f)
    go (ok i) h = tt
    go (err e) h = tt
    go panic h = h

single-Returns : (w : List ℕ) → Returns (numbers.parse_rsa w)
single-Returns [] = tt
single-Returns (k ∷ []) = tt
single-Returns (k ∷ l ∷ w) = tt

request-Returns : (w : List ℕ) → Returns (read_request w)
request-Returns [] = tt
request-Returns (i ∷ []) = tt
request-Returns (i ∷ k ∷ []) = tt
request-Returns (i ∷ k ∷ l ∷ w) = tt

library-Calm : Calm crypto library
library-Calm = record {
  generate_rsa-Returns = λ bits. tt;
  generate_ec-Returns = λ dsa. tt;
  marshal_ec-Returns = λ k. tt;
  parse_rsa-Returns = single-Returns;
  parse_ec-Returns = single-Returns;
  create_request-Returns = λ info k. position-Returns (λ i. i ∷ number_of k ∷ []) known info;
  parse_request-Returns = request-Returns;
  create_certificate-Returns = λ t parent p k.
      position-Returns
        (λ i.
          raw_cert (record { authority = t.is_ca; holder = i; own_key = p; signer = number_of k }))
        known (asked t);
}

abbrev noon : Clock
noon = record { begin = 12; now = 13 }

abbrev root_info : Request
root_info = gen_csr "root.ca" (local_names [])

-- A certificate and the key 256, as they are given out.
abbrev pair : List ℕ → CertPem
pair cert = record { crt = 2 ∷ 4 ∷ cert; key = 1 ∷ 1 ∷ 256 ∷ [] }

issue-Returns_example :
    Returns (create_self_signed_root_cert crypto library root_info 5 noon)
    × Returns (create_root_cert crypto library root_info 5 (some (pair [])) noon)
    × Returns (create_sub_cert crypto library (7 ∷ []) 5 (some (pair [])) noon)
    × Returns (create_sub_cert_with_key crypto library root_info 5 (some (pair [])) noon)
issue-Returns_example =
    issue-Returns crypto library root_info (7 ∷ []) 5 (pair []) noon library-Calm
