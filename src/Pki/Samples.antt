-- ===== src/Pki/Samples.antt =====
-- The theorems on pki at concrete keys and certificates, which are numbers, as are the bytes of a block.
use jopa.Common.{
  ℕ, zero, suc, String, Bool, true, false, ◌==ₛ◌, ==ₛ_iff, if◌then◌else◌, Option, none, some, List,
  [], ◌∷◌, ◌++◌, length, ◌≡◌, ◌⊎◌, inl, inr, refl, ap, subst, sym, ◌||◌, arith,
}
use jopa.Common.Outcome.{Outcome, ok, err}
use jopa.Pki.{
  Failure, library_failed, Crypto, Block, ec_key, rsa_block_type, ec_block_type,
  certificate_block_type, parse_certificates, encode_certificates, gen_cert_private_key,
}
use jopa.Pki.Laws.{is_used, Inverse, Usable, gen_cert_private_key-Usable}
use jopa.Pki.Chain.{parse_certificates-encode}

abbrev tag : String → ℕ
tag t = if t ==ₛ rsa_block_type then 0 else if t ==ₛ ec_block_type then 1 else 2

abbrev type_of : ℕ → String
type_of zero = rsa_block_type
type_of (suc zero) = ec_block_type
type_of (suc (suc n)) = certificate_block_type

abbrev split : ℕ → List ℕ → List ℕ × List ℕ
split zero w = ([], w)
split (suc n) [] = ([], [])
split (suc n) (b ∷ w) = let (front, back) = split n w in (b ∷ front, back)

abbrev read_block : List ℕ → Option (Block × List ℕ)
read_block (t ∷ n ∷ w) =
    let (bytes, rest) = split n w in
    some (record { block_type = type_of t; has_headers = false; bytes = bytes }, rest)
read_block _ = none

abbrev single : List ℕ → Outcome Failure ℕ
single (k ∷ []) = ok k
single _ = err library_failed

abbrev pub numbers : Crypto ℕ ℕ ℕ
numbers = record {
  generate_rsa = λ bits. ok bits;
  generate_ec = λ dsa. ok 256;
  marshal_rsa = λ k. k ∷ [];
  marshal_ec = λ k. ok (k ∷ []);
  parse_rsa = single;
  parse_ec = single;
  parse_certificate = single;
  raw = λ c. c ∷ [];
  encode = λ block. tag block.block_type ∷ length block.bytes ∷ block.bytes;
  decode = read_block;
  rsa_bits = λ k. k;
  ec_bits = λ k. k;
}

split-length : (bytes rest : List ℕ) → split (length bytes) (bytes ++ rest) ≡ (bytes, rest)
split-length [] rest = refl
split-length (b ∷ bytes) rest =
    ap (λ r. let (front, back) = r in (b ∷ front, back)) (split-length bytes rest)

one_of : (a b c : Bool) → (a || b || c) ≡ true → (a ≡ true) ⊎ ((b ≡ true) ⊎ (c ≡ true))
one_of a b c h = ground arith

type_of-tag : (t : String) → is_used t ≡ true → type_of (tag t) ≡ t
type_of-tag t used =
    let same = λ (name : String) (e : t ==ₛ name ≡ true) (p : type_of (tag name) ≡ name).
      subst (λ u. type_of (tag u) ≡ u) (sym ((==ₛ_iff t name).0 e)) p in
    elim (one_of (t ==ₛ rsa_block_type) (t ==ₛ ec_block_type) (t ==ₛ certificate_block_type) used) [
      | inl e ↦ same rsa_block_type e refl
      | inr (inl e) ↦ same ec_block_type e refl
      | inr (inr e) ↦ same certificate_block_type e refl
    ]

pub numbers-Inverse : Inverse numbers
numbers-Inverse = record {
  decode-encode = λ t bytes rest used. rw (split-length bytes rest, type_of-tag t used) refl;
  encode-nonempty = λ t bytes. omega arith;
  parse_rsa-marshal = λ bits k e. refl;
  parse_ec-marshal = λ dsa k curve e. (k ∷ [], refl, refl);
  parse_certificate-raw = λ c. refl;
}

gen_cert_private_key-Usable_example :
    Usable numbers (record { key_type = ec_block_type; key = ec_key 256 })
unfolding gen_cert_private_key
gen_cert_private_key-Usable_example =
    gen_cert_private_key-Usable numbers "P256" 2048
      (record { key_type = ec_block_type; key = ec_key 256 }) numbers-Inverse refl

parse_certificates-encode_example :
    parse_certificates numbers (encode_certificates numbers (7 ∷ 8 ∷ [])) ≡ (7 ∷ 8 ∷ [], none)
parse_certificates-encode_example = parse_certificates-encode numbers 7 (8 ∷ []) numbers-Inverse
