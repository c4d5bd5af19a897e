-- ===== src/Ctx/Complete.antt =====
-- context/context.go: what is filled in of the sections of the configuration.
use jopa.Common.{
  String, Bool, true, false, ◌==ₛ◌, ne_of_test, if◌then◌else◌, Bool-cases, ◌≡◌, ◌≢◌, subst, refl,
  ap, sym, ◌∙◌, inl, inr, ◌++ₛ◌,
}
use Prim.Native.String.append
use jopa.Utils.Cert.{Certificate}
use jopa.Mqtt.Options.{ClientConfig as MqttConfig}
use jopa.Ctx.Env.{Env, get_function_address, get_core_address, get_broker_address}
use jopa.Ctx.Config.{
  SystemConfig, or_else, populate_cert, populate_http, populate_broker, link_service, populate,
}

-- All three files are named.
abbrev pub Named : Certificate → Type 0
Named c = (c.ca ≢ "") × (c.key ≢ "") × (c.cert ≢ "")

-- A field is what it was, if it was set.
abbrev pub Keeps : String → String → Type 0
Keeps old new = (old ==ₛ "" ≡ false) → new ≡ old

abbrev pub KeepsCert : Certificate → Certificate → Type 0
KeepsCert old new = Keeps old.ca new.ca × Keeps old.key new.key × Keeps old.cert new.cert

-- An address and the files are there, and those that were set are as they were.
abbrev pub Filled : String → Certificate → String → Certificate → Type 0
Filled old_address old address new =
    (address ≢ "") × Named new × Keeps old_address address × KeepsCert old new

or_else-ne : (field fallback : String) → fallback ≢ "" → or_else field fallback ≢ ""
or_else-ne field fallback h = elim (Bool-cases (field ==ₛ "")) [
  | inl t ↦ λ e. h (sym (ap (λ b. if b then fallback else field) t) ∙ e)
  | inr f ↦ λ e. ne_of_test field "" f (sym (ap (λ b. if b then fallback else field) f) ∙ e)
]

or_else-Keeps : (field fallback : String) → Keeps field (or_else field fallback)
or_else-Keeps field fallback set = ap (λ b. if b then fallback else field) set

populate-Filled :
    (address default : String) (system c : Certificate)
    → default ≢ ""
    → Named system
    → Filled address c (or_else address default) (populate_cert system c)
populate-Filled address default system c some_default (ca, key, cert) = (
  or_else-ne address default some_default,
  (
    or_else-ne c.ca system.ca ca,
    or_else-ne c.key system.key key,
    or_else-ne c.cert system.cert cert,
  ),
  or_else-Keeps address default,
  (or_else-Keeps c.ca system.ca, or_else-Keeps c.key system.key, or_else-Keeps c.cert system.cert),
)

is_empty : String → Bool
is_empty String.[] = true
is_empty (String.◌∷◌ c s) = false

append-ne : (s t : String) → is_empty s ≡ false → s ++ₛ t ≢ ""
unfolding is_empty
append-ne String.[] t h e = cc
append-ne (String.◌∷◌ c s) t h e =
    let q : false ≡ true = ap is_empty (sym (append.cons c s t) ∙ e) in cc

get_function_address-ne : (env : Env) → get_function_address env ≢ ""
unfolding get_function_address is_empty
get_function_address-ne env = append-ne "https" _ refl

get_core_address-ne : (env : Env) → get_core_address env ≢ ""
unfolding get_core_address is_empty
get_core_address-ne env = append-ne "https" _ refl

get_broker_address-ne : (env : Env) → get_broker_address env ≢ ""
unfolding get_broker_address is_empty
get_broker_address-ne env = append-ne "ssl" _ refl

link_service-address :
    (app service : String) (b : MqttConfig) → (link_service app service b).address ≡ b.address
unfolding link_service
link_service-address app service b = elim (Bool-cases (service ==ₛ "")) [
  | inl t ↦ rw t refl
  | inr f ↦ rw f refl
]

link_service-certificate :
    (app service : String) (b : MqttConfig)
    → (link_service app service b).certificate ≡ b.certificate
unfolding link_service
link_service-certificate app service b = elim (Bool-cases (service ==ₛ "")) [
  | inl t ↦ rw t refl
  | inr f ↦ rw f refl
]

-- If the configuration names the three files of the system certificate, then after populating it each of its three
-- sections has an address and all three files, and what was set in a section is as it was.
pub populate_complete :
    {L : Type 0} (env : Env) (app service : String) (sc : SystemConfig L)
    → Named sc.certificate
    → (let new = populate env app service sc in
        Filled sc.function.address sc.function.certificate new.function.address
          new.function.certificate
        × Filled sc.core.address sc.core.certificate new.core.address new.core.certificate
        × Filled sc.broker.address sc.broker.certificate new.broker.address new.broker.certificate)
unfolding populate populate_http populate_broker
populate_complete env app service sc named =
    let b = link_service app service sc.broker in
    let address = or_else b.address (get_broker_address env) in
    let cert = populate_cert sc.certificate b.certificate in
    (
      populate-Filled sc.function.address (get_function_address env) sc.certificate
          sc.function.certificate (get_function_address-ne env) named,
      populate-Filled sc.core.address (get_core_address env) sc.certificate sc.core.certificate
          (get_core_address-ne env) named,
      subst (λ a. Filled a sc.broker.certificate address cert)
          (link_service-address app service sc.broker)
          (subst (λ c. Filled b.address c address cert)
            (link_service-certificate app service sc.broker)
            (populate-Filled b.address (get_broker_address env) sc.certificate b.certificate
              (get_broker_address-ne env) named)),
    )
