-- ===== src/UnicastService/Cancel.antt =====
-- A client cancels a contract.

use lyp_lyl.Prelude.{
  ◌==◌, Bool-cases, drop, ℕ, suc, ◌≡◌, refl, sym, ap, subst, ◌∙◌, inl, inr, true, false, ◌&&◌,
  Option, none, some, List, [], ◌∷◌, arith,
}
use lyp_lyl.UnicastService.Contracts.{
  wants, set_kind, is_idle, after_client, remove_client, removed_at, remove_contract, Kind, Client,
  Interval, Request,
}
use lyp_lyl.UnicastService.Holders.{
  holds, add_if, held, OnSome, Other, holds-set_kind-Other, holds-unset, holds-is_idle,
}
use lyp_lyl.UnicastService.Granting.{times, contracts}

module _ (now : Option ℕ) (kind : Kind) (r : Request) where
  abbrev Cancelled : List Client → Option (List Client) → Type 0
  Cancelled cs none = held kind r.address cs ≡ 0
  Cancelled cs (some cs') = held kind r.address cs ≡ suc (held kind r.address cs')

  Cancelled-after :
      (c : Client) (cs : List Client) (o : Option (List Client))
      → holds kind r.address c ≡ false
      → Cancelled cs o
      → Cancelled (c ∷ cs) (after_client c o)
  Cancelled-after c cs none e h = rw e h
  Cancelled-after c cs (some cs') e h = rw e h

  held_here :
      (c : Client) (cs : List Client)
      → holds kind r.address c ≡ true
      → held kind r.address (c ∷ cs) ≡ suc (held kind r.address cs)
  held_here c cs e = rw e refl

  remove_client-Cancelled : (cs : List Client) → Cancelled cs (remove_client now kind r cs)
  unfolding remove_client
  remove_client-Cancelled [] = refl
  remove_client-Cancelled (c ∷ cs) = elim (Bool-cases (c.addr == r.address && wants kind c)) [
    | inr e ↦
        rw e (Cancelled-after c cs (remove_client now kind r cs) e (remove_client-Cancelled cs))
    | inl e ↦ elim (Bool-cases (is_idle (set_kind kind false c))) [
      | inl idle ↦ rw (e, idle) (held_here c cs e)
      | inr busy ↦
          rw (e, busy) (held_here c cs e ∙ ap suc (sym (rw (holds-unset kind r.address c) refl)))
    ]
  ]

  removed_at-own :
      (i : Interval) (later rest : List Interval) (o : Option (List Client))
      → Cancelled i.clients o
      → contracts kind r.address rest ≡ drop 1 (contracts kind r.address later)
      → contracts kind r.address (removed_at now kind r i later o rest)
        ≡ drop 1 (contracts kind r.address (i ∷ later))
  removed_at-own i later rest none h e = rw h e
  removed_at-own i later rest (some cs) h e = rw h refl

  -- A cancellation takes away the first contract of the address for the message type, in the order of the intervals, where there is one.
  pub remove_contract-first :
      (is : List Interval)
      → contracts kind r.address (remove_contract now kind r is)
        ≡ drop 1 (contracts kind r.address is)
  unfolding remove_contract
  remove_contract-first [] = refl
  remove_contract-first (i ∷ later) =
      removed_at-own i later (remove_contract now kind r later) _
        (remove_client-Cancelled i.clients) (remove_contract-first later)

  module _ (k : Kind) (a : ℕ) (other : Other k a kind r.address) where
    unset-Other :
        (c : Client)
        → (c.addr == r.address && wants kind c) ≡ true
        → holds k a (set_kind kind false c) ≡ holds k a c
    unset-Other c e =
        let same : c.addr ≡ r.address = ground arith in
        holds-set_kind-Other k a kind false c (subst (Other k a kind) (sym same) other)

    after-Other :
        (c : Client) (cs : List Client) (o : Option (List Client))
        → OnSome (λ (cs' : List Client). held k a cs' ≡ held k a cs) o
        → OnSome (λ (cs' : List Client). held k a cs' ≡ held k a (c ∷ cs)) (after_client c o)
    after-Other c cs none h = h
    after-Other c cs (some cs') h = ap (add_if (holds k a c)) h

    remove_client-Other :
        (cs : List Client)
        → OnSome (λ (cs' : List Client). held k a cs' ≡ held k a cs) (remove_client now kind r cs)
    unfolding remove_client
    remove_client-Other [] = tt
    remove_client-Other (c ∷ cs) = elim (Bool-cases (c.addr == r.address && wants kind c)) [
      | inr e ↦ rw e (after-Other c cs (remove_client now kind r cs) (remove_client-Other cs))
      | inl e ↦ elim (Bool-cases (is_idle (set_kind kind false c))) [
        | inl idle ↦
            let nothing : holds k a c ≡ false =
              sym (unset-Other c e) ∙ holds-is_idle k a (set_kind kind false c) idle in
            rw (e, idle, nothing) refl
        | inr busy ↦ rw (e, busy, unset-Other c e) refl
      ]
    ]

    removed_at-Other :
        (i : Interval) (later rest : List Interval) (o : Option (List Client))
        → OnSome (λ (cs : List Client). held k a cs ≡ held k a i.clients) o
        → contracts k a rest ≡ contracts k a later
        → contracts k a (removed_at now kind r i later o rest) ≡ contracts k a (i ∷ later)
    removed_at-Other i later rest none h e = ap (times (held k a i.clients) i.log_period) e
    removed_at-Other i later rest (some cs) h e = rw h refl

    -- A cancellation changes no contract of another address or for another message type.
    pub remove_contract-Other :
        (is : List Interval) → contracts k a (remove_contract now kind r is) ≡ contracts k a is
    unfolding remove_contract
    remove_contract-Other [] = refl
    remove_contract-Other (i ∷ later) =
        removed_at-Other i later (remove_contract now kind r later) _
          (remove_client-Other i.clients) (remove_contract-Other later)
