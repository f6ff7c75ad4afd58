-- ===== src/UnicastService/Granting.antt =====
-- In which intervals an address has a contract for a message type, and how requests change it.

use lyp_lyl.Prelude.{
  ◌==◌, Bool-cases, ℕ, zero, suc, ◌≡◌, refl, ap, ◌∙◌, inl, inr, Bool, true, false, Option, none,
  some, List, [], ◌∷◌, arith,
}
use lyp_lyl.Prelude.Int.{eq_ℤ, ℤ}
use lyp_lyl.Tmv.{Timespec}
use lyp_lyl.Pqueue.{Pqueue}
use lyp_lyl.UnicastService.{ServiceInterval}
use lyp_lyl.UnicastService.Contracts.{
  renew, renew_at, scan, use_client, use_at, or_at, at_interval, blank_client, new_client,
  into_interval, settle, add_contract, Kind, announces, syncs, Client, Interval, UnicastService,
  Request,
}
use lyp_lyl.UnicastService.Holders.{
  holds, held, OnSome, Other, renew-held, clear_stale-Other, set-Other, use_client-Other,
}

abbrev pub times : ℕ → ℤ → List ℤ → List ℤ
times zero x rest = rest
times (suc n) x rest = x ∷ times n x rest

-- The periods of the contracts.
abbrev pub contracts : Kind → ℕ → List Interval → List ℤ
contracts k a [] = []
contracts k a (i ∷ later) = times (held k a i.clients) i.log_period (contracts k a later)

module _ (now : Option ℕ) (kind : Kind) (r : Request) where
  module _ (k : Kind) (a : ℕ) (other : Other k a kind r.address) where
    renew_at-Other :
        (i : Interval) (later : List Interval) (rest : List Interval × Bool)
        (o : Option (List Client))
        → OnSome (λ (cs : List Client). held k a cs ≡ held k a i.clients) o
        → contracts k a rest.0 ≡ contracts k a later
        → contracts k a (renew_at now kind r i o later rest).0 ≡ contracts k a (i ∷ later)
    renew_at-Other i later rest none h e = ap (times (held k a i.clients) i.log_period) e
    renew_at-Other i later rest (some cs) h e = rw h refl

    scan-Other : (is : List Interval) → contracts k a (scan now kind r is).0 ≡ contracts k a is
    unfolding scan
    scan-Other [] = refl
    scan-Other (i ∷ later) = elim (Bool-cases (eq_ℤ i.log_period r.log_period)) [
      | inl e ↦ rw e (
          renew_at-Other i later (scan now kind r later) (renew now kind r i.clients)
            (renew-held now kind r k a i.clients) (scan-Other later))
      | inr e ↦ rw (e, clear_stale-Other now kind r k a other i.clients, scan-Other later) refl
    ]

    module _ (change : List Client → Option (List Client))
        (keeps : (cs : List Client)
          → OnSome (λ (cs' : List Client). held k a cs' ≡ held k a cs) (change cs)) where
      use_at-Other :
          (i : Interval) (later : List Interval) (o : Option (List Client))
          → OnSome (λ (cs : List Client). held k a cs ≡ held k a i.clients) o
          → OnSome
              (λ (is : List Interval). contracts k a is ≡ contracts k a (i ∷ later))
              (use_at now kind r i later o)
      use_at-Other i later none h = tt
      use_at-Other i later (some cs) h = rw h refl

      or_at-Other :
          (i : Interval) (later : List Interval) (there here : Option (List Interval))
          → OnSome (λ (is : List Interval). contracts k a is ≡ contracts k a later) there
          → OnSome (λ (is : List Interval). contracts k a is ≡ contracts k a (i ∷ later)) here
          → OnSome
              (λ (is : List Interval). contracts k a is ≡ contracts k a (i ∷ later))
              (or_at now kind r i later there here)
      or_at-Other i later none here h g = g
      or_at-Other i later (some is) here h g = ap (times (held k a i.clients) i.log_period) h

      at_interval-Other :
          (is : List Interval)
          → OnSome
              (λ (is' : List Interval). contracts k a is' ≡ contracts k a is)
              (at_interval now kind r change is)
      unfolding at_interval
      at_interval-Other [] = tt
      at_interval-Other (i ∷ later) =
          or_at-Other i later (at_interval now kind r change later) _ (at_interval-Other later)
            (elim (Bool-cases (eq_ℤ i.log_period r.log_period)) [
              | inl e ↦ rw e (use_at-Other i later (change i.clients) (keeps i.clients))
              | inr e ↦ rw e tt
            ])

    blank_client-holds : (k : Kind) → holds k a (blank_client now kind r) ≡ false
    blank_client-holds announces = ground arith
    blank_client-holds syncs = ground arith

    new_client-Other : holds k a (new_client now kind r) ≡ false
    new_client-Other =
        let here : (r.address == r.address) ≡ true = ground arith in
        set-Other now kind r k a other (blank_client now kind r) here ∙ blank_client-holds k

    into_interval-Other :
        (room_interval : Bool) (queued : Pqueue ServiceInterval × Bool) (s : UnicastService)
        (o : Option (List Interval))
        → OnSome (λ (is : List Interval). contracts k a is ≡ contracts k a s.intervals) o
        → contracts k a (into_interval now kind r room_interval queued s o).0.intervals
          ≡ contracts k a s.intervals
    into_interval-Other room_interval queued s (some is) h = h
    into_interval-Other true (q, true) s none h = rw new_client-Other refl
    into_interval-Other true (q, false) s none h = refl
    into_interval-Other false queued s none h = refl

    settle-Other :
        (room_client room_interval grows : Bool) (start : Timespec) (s : UnicastService) (b : Bool)
        (o : Option (List Interval))
        → OnSome (λ (is : List Interval). contracts k a is ≡ contracts k a s.intervals) o
        → contracts k a (settle now kind r room_client room_interval grows start s b o).0.intervals
          ≡ contracts k a s.intervals
    settle-Other room_client room_interval grows start s true o h = refl
    settle-Other room_client room_interval grows start s false (some is) h = h
    settle-Other false room_interval grows start s false none h = refl
    settle-Other true room_interval grows start s false none h =
        into_interval-Other room_interval _ s _ (
          at_interval-Other (λ cs. some (new_client now kind r ∷ cs))
            (λ cs. rw new_client-Other refl) s.intervals)

    -- A request for a contract, whatever the answer, changes no contract of another address or for another message type.
    pub add_contract-Other :
        (room_client room_interval grows : Bool) (start : Timespec) (s : UnicastService)
        → contracts k a
            (add_contract now kind r room_client room_interval grows start s).0.intervals
          ≡ contracts k a s.intervals
    unfolding add_contract
    add_contract-Other room_client room_interval grows start s =
        let is = (scan now kind r s.intervals).0 in
        settle-Other room_client room_interval grows start (record s { intervals = is })
          (scan now kind r s.intervals).1 _
          (at_interval-Other (use_client now kind r) (use_client-Other now kind r k a other) is)
        ∙ scan-Other s.intervals
