-- ===== src/Dm/Request/Laws.antt =====
-- dmcontext/context.go: who waits for the properties of a device.
use jopa.Common.{
  ℕ, ◌≤◌, String, Bool, true, false, ◌==◌, ==_iff, ◌==ₛ◌, ==ₛ_iff, Bool-cases, if◌then◌else◌,
  Option, none, some, ◌≡◌, refl, ap, sym, ◌∙◌, subst, ◌↔◌, inl, inr,
}
use jopa.Common.Dict.{lookup, lookup-insert, lookup-delete}
use jopa.Common.Table.{Table, find, set, find-set}
use jopa.Common.Outcome.{Outcome}
use jopa.Dm.Request.{
  Failure, Shadow, Phase, requested, stored, waiting, expired, received, returned, Getter, Requests,
  move, store_channel, give_up,
}

-- A call has its channel in the table of responses in these phases.
abbrev pub is_holding : {V : Type 0} → Phase V → Bool
is_holding requested = false
is_holding stored = true
is_holding waiting = true
is_holding expired = true
is_holding (received shadow) = true
is_holding (returned result) = false

-- The device that a call has its channel at.
abbrev pub held : {V : Type 0} → Option (Getter V) → Option String
held none = none
held (some getter) = if is_holding getter.phase then some getter.device else none

some_injective : {A : Type 0} {a b : A} → ◌≡◌ {A = Option A} (some a) (some b) → a ≡ b
some_injective e = cc

-- One entry of both tables is set to each other, where neither had anything.
own-stored :
    (b1 b2 : Bool) (name device : String) (g0 g : ℕ) (at : Option ℕ) (by : Option String)
    → name ==ₛ device ≡ b1
    → g0 == g ≡ b2
    → (name ≡ device → at ≡ none)
    → (g0 ≡ g → by ≡ none)
    → ((at ≡ some g) ↔ (by ≡ some device))
    → ((if b1 then some g0 else at) ≡ some g) ↔ ((if b2 then some name else by) ≡ some device)
own-stored true true name device g0 g at by n e no_at no_by own =
    (λ _. ap some ((==ₛ_iff name device).0 n), λ _. ap some ((==_iff g0 g).0 e))
own-stored true false name device g0 g at by n e no_at no_by own = (
  λ h. let q : g0 == g ≡ true = (==_iff g0 g).1 (some_injective h) in cc,
  λ h. let a = no_at ((==ₛ_iff name device).0 n) in let b = own.1 h in cc,
)
own-stored false true name device g0 g at by n e no_at no_by own = (
  λ h. let a = no_by ((==_iff g0 g).0 e) in let b = own.0 h in cc,
  λ h. let q : name ==ₛ device ≡ true = (==ₛ_iff name device).1 (some_injective h) in cc,
)
own-stored false false name device g0 g at by n e no_at no_by own = own

-- One entry of both tables is taken away, where they had each other.
own-removed :
    (b1 b2 : Bool) (name device : String) (g0 g : ℕ) (at : Option ℕ) (by : Option String)
    → name ==ₛ device ≡ b1
    → g0 == g ≡ b2
    → (name ≡ device → at ≡ some g0)
    → (g0 ≡ g → by ≡ some name)
    → ((at ≡ some g) ↔ (by ≡ some device))
    → ((if b1 then none else at) ≡ some g) ↔ ((if b2 then none else by) ≡ some device)
own-removed true true name device g0 g at by n e was_at was_by own = (λ h. cc, λ h. cc)
own-removed true false name device g0 g at by n e was_at was_by own = (
  λ h. cc,
  λ h.
      let a = sym (was_at ((==ₛ_iff name device).0 n)) ∙ own.1 h in
      let q : g0 == g ≡ true = (==_iff g0 g).1 (some_injective a) in cc,
)
own-removed false true name device g0 g at by n e was_at was_by own = (
  λ h.
      let a = sym (was_by ((==_iff g0 g).0 e)) ∙ own.0 h in
      let q : name ==ₛ device ≡ true = (==ₛ_iff name device).1 (some_injective a) in cc,
  λ h. cc,
)
own-removed false false name device g0 g at by n e was_at was_by own = own

module _ {V : Type 0} where
  abbrev pub holder : Requests V → ℕ → Option String
  holder q g = held (find g q.getters)

  -- The table of responses has the channel of the one call for the device that is between storing and returning.
  abbrev pub OwnChannel : Requests V → Type 0
  OwnChannel q =
      (device : String) (g : ℕ) → (lookup device q.response ≡ some g) ↔ (holder q g ≡ some device)

  -- The numbers of later calls are not in use.
  abbrev pub Fresh : Requests V → Type 0
  Fresh q = (g : ℕ) → q.next_channel ≤ g → find g q.getters ≡ none

  pub held-set :
      (g0 g : ℕ) (getter : Getter V) (t : Table (Getter V))
      → held (find g (set g0 getter t)) ≡ (if g0 == g then held (some getter) else held (find g t))
  held-set g0 g getter t = ap held (find-set g0 g getter t) ∙ held-if (g0 == g) getter (find g t)
    where
      held-if :
          (b : Bool) (getter : Getter V) (o : Option (Getter V))
          → held (if b then some getter else o) ≡ (if b then held (some getter) else held o)
      held-if true getter o = refl
      held-if false getter o = refl

  -- A move between phases that both hold the channel, or both do not.
  pub move-holder :
      (g0 g : ℕ) (getter : Getter V) (next : Phase V) (q : Requests V)
      → find g0 q.getters ≡ some getter
      → is_holding next ≡ is_holding getter.phase
      → holder (move g0 getter next q) g ≡ holder q g
  unfolding move
  move-holder g0 g getter next q found same =
      held-set g0 g (record getter { phase = next }) q.getters ∙ (elim (Bool-cases (g0 == g)) [
        | inl t ↦
            rw t (
              rw same (sym (ap held found) ∙ ap (λ k. held (find k q.getters)) ((==_iff g0 g).0 t)))
        | inr f ↦ rw f refl
      ])

  -- Tables that agree on who holds what have the same owners.
  pub OwnChannel-same :
      (q : Requests V) (getters : Table (Getter V)) (next : ℕ)
      → ((g : ℕ) → held (find g getters) ≡ holder q g)
      → OwnChannel q
      → OwnChannel (record q { next_channel = next; getters = getters })
  OwnChannel-same q getters next same own device g =
      subst (λ o. (lookup device q.response ≡ some g) ↔ (o ≡ some device)) (sym (same g))
        (own device g)

  pub store-OwnChannel :
      (g0 : ℕ) (getter : Getter V) (q : Requests V)
      → find g0 q.getters ≡ some getter
      → getter.phase ≡ requested
      → lookup getter.device q.response ≡ none
      → OwnChannel q
      → OwnChannel (store_channel g0 getter none q)
  unfolding store_channel move
  store-OwnChannel g0 getter q found phase free own device g =
      rw
        (
          lookup-insert getter.device device g0 q.response,
          held-set g0 g (record getter { phase = stored }) q.getters,
        )
        (own-stored (getter.device ==ₛ device) (g0 == g) getter.device device g0 g
          (lookup device q.response) (holder q g) refl refl
          (λ same. subst (λ k. lookup k q.response ≡ none) same free)
          (λ same. subst (λ k. holder q k ≡ none) same (ap held found ∙ rw phase refl))
          (own device g))

  pub give_up-OwnChannel :
      (g0 : ℕ) (getter : Getter V) (result : Outcome Failure (Shadow V)) (q : Requests V)
      → find g0 q.getters ≡ some getter
      → is_holding getter.phase ≡ true
      → OwnChannel q
      → OwnChannel (give_up g0 getter result q)
  unfolding give_up move
  give_up-OwnChannel g0 getter result q found holding own device g =
      let has : holder q g0 ≡ some getter.device = ap held found ∙ rw holding refl in
      rw
        (
          lookup-delete getter.device device q.response,
          held-set g0 g (record getter { phase = returned result }) q.getters,
        )
        (own-removed (getter.device ==ₛ device) (g0 == g) getter.device device g0 g
          (lookup device q.response) (holder q g) refl refl
          (λ same. subst (λ k. lookup k q.response ≡ some g0) same ((own getter.device g0).1 has))
          (λ same. subst (λ k. holder q k ≡ some getter.device) same has) (own device g))
