-- ===== src/Ctx/Service/Check.antt =====
-- context/context.go: when the certificate of the system is accepted.
use jopa.Common.{
  arith, ℕ, String, Bool, true, false, not, ◌||◌, ==ₛ_iff, List, [], ◌∷◌, Option, none, some, ◌≡◌,
  refl, ap, ◌∙◌, ◌↔◌,
}
use jopa.Common.Outcome.{Outcome, ok, panic, ◌>>=◌, >>=-eq-ok, ok_injective, fail_if}
use jopa.Utils.Cert.{Certificate}
use jopa.Pki.{Failure, parse_certificates}
use jopa.Ctx.Env.{key_baetyl}
use jopa.Ctx.Config.{SystemConfig}
use jopa.Ctx.Service.{
  Error, Context, Host, system_config, the_config, is_system_unit, check_certs, check_files,
  check_system_cert,
}

-- A call under a check succeeds just if neither fails.
fail_if-ok :
    {E : Type 0} (b : Bool) (e : E) (call : Outcome E (Unit {0}))
    → (fail_if b e >>= (λ _. call)) ≡ ok tt
    → (b ≡ false) × (call ≡ ok tt)
fail_if-ok false e call h = (refl, h)
fail_if-ok true e call h = cc

module _ {L R E C T : Type 0} (host : Host L R E C T) where
  -- The three files are there, and that of the certificate holds one, which is of the one unit of the system.
  abbrev pub Accepted : Certificate → Type 0
  Accepted cfg =
      (host.file_exists cfg.ca ≡ true)
      × (host.file_exists cfg.key ≡ true)
      × (host.file_exists cfg.cert ≡ true)
      × ((crt : List ℕ) × (cert : C) × (host.read_file cfg.cert ≡ ok crt)
          × (◌≡◌ {A = List C × Option Failure} (parse_certificates host.crypto crt)
              (cert ∷ [], none))
          × (host.organizational_unit cert ≡ key_baetyl ∷ []))

  is_system_unit-eq :
      (units : List String) → is_system_unit host units ≡ true → units ≡ key_baetyl ∷ []
  unfolding is_system_unit
  is_system_unit-eq [] h = cc
  is_system_unit-eq (unit ∷ []) h = ap (λ u. u ∷ []) ((==ₛ_iff unit key_baetyl).0 h)
  is_system_unit-eq (unit ∷ next ∷ units) h = cc

  fail_if-not : (b : Bool) (e : Error) → fail_if (not b) e ≡ ok tt → b ≡ true
  fail_if-not true e h = refl
  fail_if-not false e h = cc

  check_certs-ok :
      (r : List C × Option Failure)
      → check_certs host r ≡ ok tt
      → (cert : C) × (r ≡ (cert ∷ [], none)) × (host.organizational_unit cert ≡ key_baetyl ∷ [])
  unfolding check_certs
  check_certs-ok (certs, some e) h = cc
  check_certs-ok ([], none) h = cc
  check_certs-ok (cert ∷ [], none) h = (cert, refl, is_system_unit-eq _ (fail_if-not _ _ h))
  check_certs-ok (cert ∷ next ∷ certs, none) h = cc

  all_exist :
      (a b c : Bool) → (not a || not b || not c) ≡ false → (a ≡ true) × (b ≡ true) × (c ≡ true)
  all_exist a b c h = ground arith

  check_files-Accepted : (cfg : Certificate) → check_files host cfg ≡ ok tt → Accepted cfg
  unfolding check_files
  check_files-Accepted cfg h =
      let (exist, called) = fail_if-ok _ _ _ h in
      let (ca, key, cert) = all_exist _ _ _ exist in
      let (crt, read, checked) = >>=-eq-ok (host.read_file cfg.cert) _ called in
      let (one, parsed, unit) = check_certs-ok (parse_certificates host.crypto crt) checked in
      (ca, key, cert, (crt, one, read, parsed, unit))

  Accepted-check_files : (cfg : Certificate) → Accepted cfg → check_files host cfg ≡ ok tt
  unfolding check_files check_certs is_system_unit
  Accepted-check_files cfg (ca, key, cert, (crt, one, read, parsed, unit)) =
      rw (ca, key, cert, read, parsed, unit) refl

  some_of :
      (o : Option (SystemConfig L)) {sc : SystemConfig L}
      → ◌≡◌ {A = Outcome Error (SystemConfig L)} (elim o [ none ↦ panic | some it ↦ ok it ]) (ok sc)
      → o ≡ some sc
  some_of none e = cc
  some_of (some it) e = ap some (ok_injective e)

  the_config-ok :
      (c : Context L) (sc : SystemConfig L) → the_config c ≡ ok sc → system_config c ≡ ok (some sc)
  unfolding the_config
  the_config-ok c sc h =
      let (o, found, e) = >>=-eq-ok (system_config c) _ h in found ∙ ap ok (some_of o e)

  pub config-the :
      (c : Context L) (sc : SystemConfig L) → system_config c ≡ ok (some sc) → the_config c ≡ ok sc
  unfolding the_config
  config-the c sc h = rw h refl

  -- The check of the system certificate succeeds exactly if the context has a configuration, the three files that
  -- it names exist, and the certificate file can be read and holds one certificate, whose subject has the one unit
  -- BAETYL.
  pub check_system_cert_iff :
      (c : Context L)
      → (check_system_cert host c ≡ ok tt)
        ↔ ((sc : SystemConfig L) × (system_config c ≡ ok (some sc)) × Accepted sc.certificate)
  unfolding check_system_cert
  check_system_cert_iff c = (
    λ h.
        let (sc, found, checked) = >>=-eq-ok (the_config c) _ h in
        (sc, the_config-ok c sc found, check_files-Accepted sc.certificate checked),
    λ (sc, found, accepted).
        rw (config-the c sc found) (Accepted-check_files sc.certificate accepted),
  )
