-- ===== src/Pki/Tool.antt =====
-- tools/issue_certificate.go: the tool that issues the certificates of a client and a server. The file system is the
-- parameter `Disk`; what is printed is left out.
use jopa.Common.{ℕ, ◌*◌, String, Option, some, List, [], ◌∷◌}
use jopa.Common.Outcome.{Outcome, ok, err, panic}
use jopa.Pki.{Failure, Crypto}
use jopa.Pki.Issue.{
  CertPem, Request, X509, Clock, create_self_signed_root_cert, create_sub_cert_with_key,
}

-- `ioutil.WriteFile`, and what a file holds.
pub record Disk (D : Type 0) : Type 0 where
  pub read : D → String → Option (List ℕ)
  pub write : D → String → List ℕ → D × Outcome Failure (Unit {0})

pub record AltNames : Type 0 where
  pub dns_names : List String
  pub ips : List String
  pub emails : List String
  pub uris : List String

-- `genCsr`
unfoldable pub gen_csr : String → AltNames → Request
gen_csr cn alt = record {
  subject = record {
    country = "CN" ∷ [];
    organization = "Linux Foundation Edge" ∷ [];
    organizational_unit = "BAETYL" ∷ [];
    locality = "Haidian District" ∷ [];
    province = "Beijing" ∷ [];
    street_address = "Baidu Campus" ∷ [];
    postal_code = "100093" ∷ [];
    common_name = cn;
  };
  dns_names = alt.dns_names;
  email_addresses = alt.emails;
  ip_addresses = alt.ips;
  uris = alt.uris;
}

abbrev pub local_addresses : List String
local_addresses = "0.0.0.0" ∷ "127.0.0.1" ∷ []

abbrev pub local_names : List String → AltNames
local_names dns = record { dns_names = dns; ips = local_addresses; emails = []; uris = [] }

-- What a step of the tool does to the files, with its result.
abbrev pub Io : Type 0 → Type 0 → Type 0
Io D A = D → D × Outcome Failure A

infixl 5 ◌>>->◌
abbrev pub ◌>>->◌ : {D A B : Type 0} → D × Outcome Failure A → (A → Io D B) → D × Outcome Failure B
(files, ok a) >>-> next = next a files
(files, err e) >>-> next = (files, err e)
(files, panic) >>-> next = (files, panic)

module _ {D R E C P : Type 0} (disk : Disk D) (c : Crypto R E C) (x : X509 R E C P) where
  -- `helper.createRoot`
  unfoldable pub create_root : Clock → Outcome Failure CertPem
  create_root clock =
      create_self_signed_root_cert c x (gen_csr "root.ca" (local_names [])) (50 * 365) clock

  -- `helper.createSub`
  unfoldable pub create_sub : String → AltNames → CertPem → Clock → Outcome Failure CertPem
  create_sub cn alt parent clock =
      create_sub_cert_with_key c x (gen_csr cn alt) (20 * 365) (some parent) clock

  -- The two files of a pair.
  unfoldable pub save_pair : String → String → CertPem → Io D (Unit {0})
  save_pair crt_path key_path pem files =
      disk.write files crt_path pem.crt >>-> λ done later. disk.write later key_path pem.key

  -- `helper.issueCert`
  unfoldable pub issue_cert : Clock → Clock → Clock → Io D (Unit {0})
  unfolding create_root create_sub save_pair
  issue_cert clock1 clock2 clock3 files = (files, create_root clock1) >>-> λ ca files1.
      save_pair "output/ca.crt" "output/ca.key" ca files1 >>-> λ done files2.
      (files2, create_sub "client" (local_names []) ca clock2) >>-> λ client files3.
      save_pair "output/client.crt" "output/client.key" client files3 >>-> λ done files4.
      (files4, create_sub "server" (local_names ("localhost" ∷ [])) ca clock3) >>-> λ server files5.
      save_pair "output/server.crt" "output/server.key" server files5
