-- ===== src/Native/Mapping/Laws.antt =====
-- Which ports the table of services gives out, and when it fails.
use jopa.Common.{
  ℕ, zero, suc, ◌+◌, ◌%◌, ◌<◌, String, Option, none, some, List, [], ◌∷◌, ◌≡◌, refl, subst, sym,
  ◌∙◌, ap, All, Bool-cases, inl, inr, arith, length, get_elem?, get_elem?-lt, ◌==ₛ◌, ==ₛ_iff,
  if◌then◌else◌,
}
use jopa.Common.Dict.{lookup, insert, lookup-insert_self, lookup-delete}
use jopa.Common.Outcome.{ok, err, panic}
use native.Mathlib.Nat.{mod-add-mod, mod-eq_of_lt, mod-lt}
use jopa.Native.Mapping.{
  Failure, PortsInfo, ServiceMapping, FileEvent, next, set_service_ports, delete_service_ports,
  get_service_next_port, on_file_event, get_from, delete_found, get_checked, next_of, next_port,
  store_next, get_nonempty, watch_file, written, other_event, watch_error,
}

-- The mapping after `n` calls of `GetServiceNextPort` for a service.
unfoldable pub after_calls : ℕ → String → ServiceMapping → ServiceMapping
after_calls zero name s = s
after_calls (suc n) name s = after_calls n name (get_service_next_port name s).0

-- The table has these ports for the service, and stands at the position.
abbrev At : String → ServiceMapping → List ℕ → ℕ → Type 0
At name s ports offset =
    (s.error ≡ none) × (lookup name s.services ≡ some (record { ports = ports; offset = offset }))

call-At :
    (name : String) (s : ServiceMapping) (q : ℕ) (qs : List ℕ) (offset port : ℕ)
    → At name s (q ∷ qs) offset
    → get_elem? (q ∷ qs) offset ≡ some port
    → (s' : ServiceMapping) × (get_service_next_port name s ≡ (s', ok port))
      × At name s' (q ∷ qs) ((offset + 1) % length (q ∷ qs))
unfolding get_service_next_port get_checked get_from get_nonempty next next_of next_port store_next
call-At name s q qs offset port (no_error, found) here =
    let info : PortsInfo = record { ports = q ∷ qs; offset = offset } in
    let info' : PortsInfo = record info { offset = (offset + 1) % length (q ∷ qs) } in
    (
      record s { services = insert name info' s.services },
      ap (get_checked name s) no_error
          ∙ ap (get_from name s) found
          ∙ ap (λ r. store_next name s (next_port info r)) here,
      (no_error, lookup-insert_self name info' s.services),
    )

calls-At :
    (n : ℕ) (name : String) (s : ServiceMapping) (q : ℕ) (qs : List ℕ) (offset : ℕ)
    → offset < length (q ∷ qs)
    → At name s (q ∷ qs) offset
    → At name (after_calls n name s) (q ∷ qs) ((offset + n) % length (q ∷ qs))
unfolding after_calls
calls-At zero name s q qs offset lt (no_error, found) =
    let e : offset ≡ (offset + 0) % length (q ∷ qs) =
      sym (ap (λ k. k % length (q ∷ qs)) (omega arith) ∙ mod-eq_of_lt lt) in
    (no_error, found ∙ ap (λ o. some (record { ports = q ∷ qs; offset = o })) e)
calls-At (suc n) name s q qs offset lt at =
    let (port, here) = get_elem?-lt (q ∷ qs) offset lt in
    let (s', e, at') = call-At name s q qs offset port at here in
    let l : ℕ = length (q ∷ qs) in
    let lt' : (offset + 1) % l < l = mod-lt (offset + 1) (omega arith) in
    let same : ((offset + 1) % l + n) % l ≡ (offset + suc n) % l =
      mod-add-mod (offset + 1) l n ∙ ap (λ k. k % l) (omega arith) in
    let (no_error, found) = calls-At n name s' q qs ((offset + 1) % l) lt' at' in
    (
      ap (λ r. (after_calls n name r.0).error) e ∙ no_error,
      ap (λ r. lookup name (after_calls n name r.0).services) e
          ∙ found
          ∙ ap (λ o. some (record { ports = q ∷ qs; offset = o })) same,
    )

-- After the ports of a service are set, while no load has failed, the calls for it return its ports in
-- turn: the call number `n`, counted from 0, returns the port at `n` modulo their number.
pub next_port-in_turn :
    (saved : Option Failure) (name : String) (q : ℕ) (qs : List ℕ) (s : ServiceMapping) (n port : ℕ)
    → s.error ≡ none
    → get_elem? (q ∷ qs) (n % length (q ∷ qs)) ≡ some port
    → (get_service_next_port name
        (after_calls n name (set_service_ports saved name (q ∷ qs) s).0)).1
      ≡ ok port
unfolding set_service_ports
next_port-in_turn saved name q qs s n port no_error here =
    let t = (set_service_ports saved name (q ∷ qs) s).0 in
    let at =
      calls-At n name t q qs 0 (omega arith) (no_error, lookup-insert_self name _ s.services) in
    let plus : 0 + n ≡ n = omega arith in
    let at' = subst (λ k. At name (after_calls n name t) (q ∷ qs) (k % length (q ∷ qs))) plus at in
    let (s', e, _) = call-At name (after_calls n name t) q qs (n % length (q ∷ qs)) port at' here in
    ap (λ r. r.1) e

-- A write of the file that is loaded, or an event that is no write.
abbrev pub IsGood : FileEvent → Type 0
IsGood (written (ok services)) = Unit
IsGood other_event = Unit
IsGood _ = ⊥

watch_file-error :
    (s : ServiceMapping) (events : List FileEvent) (e : Failure)
    → All IsGood events
    → s.error ≡ some e
    → (watch_file s events).error ≡ some e
unfolding watch_file on_file_event
watch_file-error s [] e h p = p
watch_file-error s (written (ok services) ∷ events) e (_, h) p =
    watch_file-error (record s { services = services }) events e h p
watch_file-error s (other_event ∷ events) e (_, h) p = watch_file-error s events e h p
watch_file-error s (written (err x) ∷ events) e (bad, _) p = absurd bad
watch_file-error s (written panic ∷ events) e (bad, _) p = absurd bad
watch_file-error s (watch_error ∷ events) e (bad, _) p = absurd bad

-- Once a load of the file has failed, every later call for a port fails with that error, however often
-- the file is loaded without an error after that.
pub load_error-stays :
    (s : ServiceMapping) (x : Failure) (events : List FileEvent) (name : String)
    → All IsGood events
    → get_service_next_port name (watch_file (on_file_event s (written (err x))) events)
      ≡ (watch_file (on_file_event s (written (err x))) events, err x)
unfolding get_service_next_port get_checked on_file_event
load_error-stays s x events name h =
    let t = on_file_event s (written (err x)) in
    ap (get_checked name (watch_file t events)) (watch_file-error t events x h refl)

delete_found-lookup :
    (saved : Option Failure) (name other : String) (s : ServiceMapping) (o : Option PortsInfo)
    → lookup name s.services ≡ o
    → lookup other (delete_found saved name s o).0.services
      ≡ (if name ==ₛ other then none else lookup other s.services)
unfolding delete_found
delete_found-lookup saved name other s none e = elim (Bool-cases (name ==ₛ other)) [
  | inl same ↦ rw same (ap (λ k. lookup k s.services) (sym ((==ₛ_iff name other).0 same)) ∙ e)
  | inr differ ↦ rw differ refl
]
delete_found-lookup saved name other s (some info) e = lookup-delete name other s.services

-- Deleting a service takes its ports away and leaves those of the others, also where the table cannot be
-- saved.
pub delete_service_ports-lookup :
    (saved : Option Failure) (name other : String) (s : ServiceMapping)
    → lookup other (delete_service_ports saved name s).0.services
      ≡ (if name ==ₛ other then none else lookup other s.services)
unfolding delete_service_ports
delete_service_ports-lookup saved name other s =
    delete_found-lookup saved name other s (lookup name s.services) refl
