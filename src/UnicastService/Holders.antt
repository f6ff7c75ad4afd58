-- ===== src/UnicastService/Holders.antt =====
-- Who has a contract for a message type, among the clients of an interval.

use lyp_lyl.Prelude.{
  ltb, ◌==◌, Bool-cases, ℕ, suc, ◌+◌, ◌≤◌, ◌≡◌, refl, sym, ap, subst, ◌∙◌, inl, inr, Bool, true,
  false, ◌&&◌, Option, none, some, List, [], ◌∷◌, arith,
}
use lyp_lyl.UnicastService.Contracts.{
  same_kind, wants, set_kind, is_idle, unicast_service_extend, after_client, renew, clear_stale,
  use_here, use_client, Kind, announces, syncs, Client, Request,
}

abbrev pub holds : Kind → ℕ → Client → Bool
holds k a c = c.addr == a && wants k c

abbrev pub add_if : Bool → ℕ → ℕ
add_if true n = suc n
add_if false n = n

-- The number of contracts of the address for the message type.
abbrev pub held : Kind → ℕ → List Client → ℕ
held k a [] = 0
held k a (c ∷ cs) = add_if (holds k a c) (held k a cs)

abbrev pub OnSome : {A : Type 0} → (A → Type 0) → Option A → Type 0
OnSome P none = Unit {0}
OnSome P (some x) = P x

pub holds-extend :
    (k : Kind) (a : ℕ) (now : Option ℕ) (duration : ℕ) (c : Client)
    → holds k a (unicast_service_extend now duration c) ≡ holds k a c
unfolding unicast_service_extend
holds-extend k a none duration c = refl
holds-extend announces a (some now) duration c =
    elim (Bool-cases (ltb c.grant_tmo (now + duration))) [ inl e ↦ rw e refl | inr e ↦ rw e refl ]
holds-extend syncs a (some now) duration c = elim (Bool-cases (ltb c.grant_tmo (now + duration))) [
  | inl e ↦ rw e refl
  | inr e ↦ rw e refl
]

-- Another message type, or another address.
abbrev pub Other : Kind → ℕ → Kind → ℕ → Type 0
Other k a j b = (same_kind k j && a == b) ≡ false

pub holds-set_kind-Other :
    (k : Kind) (a : ℕ) (j : Kind) (b : Bool) (c : Client)
    → Other k a j c.addr
    → holds k a (set_kind j b c) ≡ holds k a c
holds-set_kind-Other announces a announces b c o = ground arith
holds-set_kind-Other announces a syncs b c o = refl
holds-set_kind-Other syncs a announces b c o = refl
holds-set_kind-Other syncs a syncs b c o = ground arith

pub holds-set_kind : (k : Kind) (b : Bool) (c : Client) → holds k c.addr (set_kind k b c) ≡ b
holds-set_kind announces b c = let e : (c.addr == c.addr) ≡ true = ground arith in rw e refl
holds-set_kind syncs b c = let e : (c.addr == c.addr) ≡ true = ground arith in rw e refl

pub holds-unset : (k : Kind) (a : ℕ) (c : Client) → holds k a (set_kind k false c) ≡ false
holds-unset announces a c = ground arith
holds-unset syncs a c = ground arith

pub holds-is_idle : (k : Kind) (a : ℕ) (c : Client) → is_idle c ≡ true → holds k a c ≡ false
holds-is_idle announces a c h = ground arith
holds-is_idle syncs a c h = ground arith

module _ (now : Option ℕ) (kind : Kind) (r : Request) where
  renewed_after :
      (k : Kind) (a : ℕ) (c : Client) (cs : List Client) (o : Option (List Client))
      → OnSome (λ (cs' : List Client). held k a cs' ≡ held k a cs) o
      → OnSome (λ (cs' : List Client). held k a cs' ≡ held k a (c ∷ cs)) (after_client c o)
  renewed_after k a c cs none h = h
  renewed_after k a c cs (some cs') h = ap (add_if (holds k a c)) h

  -- A renewal changes no contract.
  pub renew-held :
      (k : Kind) (a : ℕ) (cs : List Client)
      → OnSome (λ (cs' : List Client). held k a cs' ≡ held k a cs) (renew now kind r cs)
  unfolding renew
  renew-held k a [] = tt
  renew-held k a (c ∷ cs) = elim (Bool-cases (c.addr == r.address && wants kind c)) [
    | inl e ↦ rw (e, holds-extend k a now r.duration c) refl
    | inr e ↦ rw e (renewed_after k a c cs (renew now kind r cs) (renew-held k a cs))
  ]

  abbrev pub Found : List Client → Option (List Client) → Type 0
  Found cs none = held kind r.address cs ≡ 0
  Found cs (some cs') = 1 ≤ held kind r.address cs

  Found-after :
      (c : Client) (cs : List Client) (o : Option (List Client))
      → holds kind r.address c ≡ false
      → Found cs o
      → Found (c ∷ cs) (after_client c o)
  Found-after c cs none e h = rw e h
  Found-after c cs (some cs') e h = rw e h

  held_here :
      (c : Client) (cs : List Client)
      → holds kind r.address c ≡ true
      → 1 ≤ held kind r.address (c ∷ cs)
  held_here c cs e = rw e (omega arith)

  -- There is a renewal exactly where there is a contract.
  pub renew-Found : (cs : List Client) → Found cs (renew now kind r cs)
  unfolding renew
  renew-Found [] = refl
  renew-Found (c ∷ cs) = elim (Bool-cases (c.addr == r.address && wants kind c)) [
    | inl e ↦ rw e (held_here c cs e)
    | inr e ↦ rw e (Found-after c cs (renew now kind r cs) e (renew-Found cs))
  ]

  pub clear_stale-held : (cs : List Client) → held kind r.address (clear_stale now kind r cs) ≡ 0
  unfolding clear_stale
  clear_stale-held [] = refl
  clear_stale-held (c ∷ cs) = elim (Bool-cases (c.addr == r.address)) [
    | inr away ↦ rw (away, away) (clear_stale-held cs)
    | inl here ↦ elim (Bool-cases (is_idle (set_kind kind false c))) [
      | inl idle ↦ rw (here, idle) (clear_stale-held cs)
      | inr busy ↦
          let none_left : holds kind r.address (set_kind kind false c) ≡ false =
            holds-unset kind r.address c in
          rw (here, busy, none_left) (clear_stale-held cs)
    ]
  ]

  pub clear_stale-Other :
      (k : Kind) (a : ℕ)
      → Other k a kind r.address
      → (cs : List Client) → held k a (clear_stale now kind r cs) ≡ held k a cs
  unfolding clear_stale
  clear_stale-Other k a o [] = refl
  clear_stale-Other k a o (c ∷ cs) = elim (Bool-cases (c.addr == r.address)) [
    | inr away ↦ rw away (ap (add_if (holds k a c)) (clear_stale-Other k a o cs))
    | inl here ↦
        let same : c.addr ≡ r.address = ground arith in
        let kept : holds k a (set_kind kind false c) ≡ holds k a c =
          holds-set_kind-Other k a kind false c (subst (Other k a kind) (sym same) o) in
        elim (Bool-cases (is_idle (set_kind kind false c))) [
          | inl idle ↦
              let nothing : holds k a c ≡ false =
                sym kept ∙ holds-is_idle k a (set_kind kind false c) idle in
              rw (here, idle, nothing) (clear_stale-Other k a o cs)
          | inr busy ↦
              rw (here, busy, kept) (ap (add_if (holds k a c)) (clear_stale-Other k a o cs))
        ]
  ]

  pub set_same :
      (c : Client)
      → (c.addr == r.address) ≡ true
      → holds kind r.address (unicast_service_extend now r.duration (set_kind kind true c)) ≡ true
  set_same c here =
      let same : c.addr ≡ r.address = ground arith in
      holds-extend kind r.address now r.duration (set_kind kind true c)
      ∙ subst (λ (a : ℕ). holds kind a (set_kind kind true c) ≡ true) same
          (holds-set_kind kind true c)

  pub set-Other :
      (k : Kind) (a : ℕ)
      → Other k a kind r.address
      → (c : Client) → (c.addr == r.address) ≡ true
      → holds k a (unicast_service_extend now r.duration (set_kind kind true c)) ≡ holds k a c
  set-Other k a o c here =
      let same : c.addr ≡ r.address = ground arith in
      holds-extend k a now r.duration (set_kind kind true c)
      ∙ holds-set_kind-Other k a kind true c (subst (Other k a kind) (sym same) o)

  use_here-Other :
      (k : Kind) (a : ℕ)
      → Other k a kind r.address
      → (c : Client) (cs : List Client) (o : Option (List Client))
      → OnSome (λ (cs' : List Client). held k a cs' ≡ held k a cs) o
      → OnSome
          (λ (cs' : List Client). held k a cs' ≡ held k a (c ∷ cs))
          (use_here now kind r c cs o)
  use_here-Other k a o c cs (some cs') h = ap (add_if (holds k a c)) h
  use_here-Other k a o c cs none h = elim (Bool-cases (c.addr == r.address)) [
    | inl here ↦ rw (here, set-Other k a o c here) refl
    | inr away ↦ rw away tt
  ]

  pub use_client-Other :
      (k : Kind) (a : ℕ)
      → Other k a kind r.address
      → (cs : List Client)
      → OnSome (λ (cs' : List Client). held k a cs' ≡ held k a cs) (use_client now kind r cs)
  unfolding use_client
  use_client-Other k a o [] = tt
  use_client-Other k a o (c ∷ cs) = use_here-Other k a o c cs _ (use_client-Other k a o cs)

  none_held :
      (c : Client) (cs : List Client)
      → held kind r.address (c ∷ cs) ≡ 0
      → (holds kind r.address c ≡ false) × (held kind r.address cs ≡ 0)
  none_held c cs n = elim (Bool-cases (holds kind r.address c)) [
    | inl e ↦ absurd (omega (arith, rw e at n))
    | inr e ↦ (e, rw e at n)
  ]

  use_here-held :
      (c : Client) (cs : List Client) (o : Option (List Client))
      → held kind r.address (c ∷ cs) ≡ 0
      → OnSome (λ (cs' : List Client). held kind r.address cs' ≡ 1) o
      → OnSome (λ (cs' : List Client). held kind r.address cs' ≡ 1) (use_here now kind r c cs o)
  use_here-held c cs (some cs') n h = rw (none_held c cs n).0 h
  use_here-held c cs none n h = elim (Bool-cases (c.addr == r.address)) [
    | inl here ↦ rw (here, set_same c here) (ap suc (none_held c cs n).1)
    | inr away ↦ rw away tt
  ]

  -- A client without a contract gets just one.
  pub use_client-held :
      (cs : List Client)
      → held kind r.address cs ≡ 0
      → OnSome (λ (cs' : List Client). held kind r.address cs' ≡ 1) (use_client now kind r cs)
  unfolding use_client
  use_client-held [] n = tt
  use_client-held (c ∷ cs) n = use_here-held c cs _ n (use_client-held cs (none_held c cs n).1)
