-- ===== src/UnicastService/Single.antt =====
-- A request leaves an address with one contract for a message type at most.

use lyp_lyl.Prelude.{
  ◌==◌, if◌then◌else◌, Bool-cases, length, ℕ, zero, suc, ◌≤◌, ◌≡◌, refl, ap, inl, inr, Bool, true,
  false, ◌||◌, Option, none, some, List, [], ◌∷◌, arith,
}
use lyp_lyl.Prelude.Int.{ltb_ℤ, eq_ℤ, ℤ, pos, negsuc}
use lyp_lyl.Tmv.{Timespec}
use lyp_lyl.Pqueue.{Pqueue}
use lyp_lyl.UnicastService.{ServiceInterval}
use lyp_lyl.UnicastService.Contracts.{
  renew, clear_stale, renew_at, scan, use_client, use_at, or_at, at_interval, blank_client,
  new_client, into_interval, settle, add_contract, out_of_range, unicast_service_add, Kind,
  announces, syncs, Client, Interval, UnicastService, ServiceAnswer, granted, denied, Request,
}
use lyp_lyl.UnicastService.Holders.{
  holds, held, OnSome, renew-held, Found, renew-Found, clear_stale-held, set_same, use_client-held,
}
use lyp_lyl.UnicastService.Granting.{times, contracts}

eq_ℤ-eq : (x y : ℤ) → eq_ℤ x y ≡ true → x ≡ y
eq_ℤ-eq (pos m) (pos n) h = ap pos (ground arith)
eq_ℤ-eq (pos m) (negsuc n) h = absurd (ground arith)
eq_ℤ-eq (negsuc m) (pos n) h = absurd (ground arith)
eq_ℤ-eq (negsuc m) (negsuc n) h = ap negsuc (ground arith)

-- A single entry that stands in front.
times_single :
    (n : ℕ) (x : ℤ) (rest : List ℤ) → 1 ≤ n → length (times n x rest) ≤ 1 → times n x rest ≡ x ∷ []
times_single zero x rest h l = absurd (omega arith)
times_single (suc zero) x [] h l = refl
times_single (suc zero) x (y ∷ ys) h l = absurd (omega arith)
times_single (suc (suc n)) x rest h l = absurd (omega arith)

times_length : (n : ℕ) (x : ℤ) (rest : List ℤ) → length rest ≤ length (times n x rest)
times_length zero x rest = omega arith
times_length (suc n) x rest = omega (arith, times_length n x rest)

times_nil : (n : ℕ) (x : ℤ) (rest : List ℤ) → times n x rest ≡ [] → (n ≡ 0) × (rest ≡ [])
times_nil zero x rest h = (refl, h)
times_nil (suc n) x rest h = absurd (cc h)

module _ (now : Option ℕ) (kind : Kind) (r : Request) where
  -- The contracts of the address for the message type of the request itself.
  abbrev own : List Interval → List ℤ
  own is = contracts kind r.address is

  -- After the loop over the intervals, of which one has the contract at most.
  abbrev Scanned : List Interval → Bool → Type 0
  Scanned is true = own is ≡ r.log_period ∷ []
  Scanned is false = own is ≡ []

  Scanned-behind :
      (i : Interval) (is : List Interval) (b : Bool)
      → held kind r.address i.clients ≡ 0
      → Scanned is b
      → Scanned (i ∷ is) b
  Scanned-behind i is true h t = rw h t
  Scanned-behind i is false h t = rw h t

  renew_at-own :
      (i : Interval) (later : List Interval) (o : Option (List Client))
      → i.log_period ≡ r.log_period
      → length (own (i ∷ later)) ≤ 1
      → Found now kind r i.clients o
      → OnSome (λ (cs : List Client). held kind r.address cs ≡ held kind r.address i.clients) o
      → Scanned (scan now kind r later).0 (scan now kind r later).1
      → Scanned
          (renew_at now kind r i o later (scan now kind r later)).0
          (renew_at now kind r i o later (scan now kind r later)).1
  renew_at-own i later none e l f h t =
      Scanned-behind i (scan now kind r later).0 (scan now kind r later).1 f t
  renew_at-own i later (some cs) e l f h t =
      rw (h, times_single (held kind r.address i.clients) i.log_period (own later) f l, e) refl

  scan-own :
      (is : List Interval)
      → length (own is) ≤ 1
      → Scanned (scan now kind r is).0 (scan now kind r is).1
  unfolding scan
  scan-own [] l = refl
  scan-own (i ∷ later) l =
      let fewer = times_length (held kind r.address i.clients) i.log_period (own later) in
      let ih = scan-own later (omega arith) in
      elim (Bool-cases (eq_ℤ i.log_period r.log_period)) [
        | inl e ↦ rw e (
            renew_at-own i later (renew now kind r i.clients) (eq_ℤ-eq i.log_period r.log_period e)
              l (renew-Found now kind r i.clients) (renew-held now kind r kind r.address i.clients)
              ih)
        | inr e ↦ rw e (
            Scanned-behind (record i { clients = clear_stale now kind r i.clients })
              (scan now kind r later).0 (scan now kind r later).1
              (clear_stale-held now kind r i.clients) ih)
      ]

  abbrev Single : List Interval → Type 0
  Single is = own is ≡ r.log_period ∷ []

  module _ (change : List Client → Option (List Client))
      (gives : (cs : List Client)
        → held kind r.address cs ≡ 0
        → OnSome (λ (cs' : List Client). held kind r.address cs' ≡ 1) (change cs)) where
    use_at-own :
        (i : Interval) (later : List Interval) (o : Option (List Client))
        → i.log_period ≡ r.log_period
        → own later ≡ []
        → OnSome (λ (cs : List Client). held kind r.address cs ≡ 1) o
        → OnSome Single (use_at now kind r i later o)
    use_at-own i later none e l h = tt
    use_at-own i later (some cs) e l h = rw (h, l, e) refl

    or_at-own :
        (i : Interval) (later : List Interval) (there here : Option (List Interval))
        → held kind r.address i.clients ≡ 0
        → OnSome Single there
        → OnSome Single here
        → OnSome Single (or_at now kind r i later there here)
    or_at-own i later none here n h g = g
    or_at-own i later (some is) here n h g = rw n h

    at_interval-own :
        (is : List Interval) → own is ≡ [] → OnSome Single (at_interval now kind r change is)
    unfolding at_interval
    at_interval-own [] e = tt
    at_interval-own (i ∷ later) e =
        let parts = times_nil (held kind r.address i.clients) i.log_period (own later) e in
        or_at-own i later (at_interval now kind r change later) _ parts.0
          (at_interval-own later parts.1)
          (elim (Bool-cases (eq_ℤ i.log_period r.log_period)) [
            | inl e' ↦ rw e' (
                use_at-own i later (change i.clients) (eq_ℤ-eq i.log_period r.log_period e') parts.1
                  (gives i.clients parts.0))
            | inr e' ↦ rw e' tt
          ])

  -- What the answer says of the contracts.
  abbrev pub Answered : UnicastService × ServiceAnswer → Type 0
  Answered (s, granted) = Single s.intervals
  Answered (s, denied) = own s.intervals ≡ []

  new_client-own : holds kind r.address (new_client now kind r) ≡ true
  new_client-own =
      let here : (r.address == r.address) ≡ true = ground arith in
      set_same now kind r (blank_client now kind r) here

  into_interval-Answered :
      (room_interval : Bool) (queued : Pqueue ServiceInterval × Bool) (s : UnicastService)
      (o : Option (List Interval))
      → own s.intervals ≡ []
      → OnSome Single o
      → Answered (into_interval now kind r room_interval queued s o)
  into_interval-Answered room_interval queued s (some is) e h = h
  into_interval-Answered true (q, true) s none e h = rw (new_client-own, e) refl
  into_interval-Answered true (q, false) s none e h = e
  into_interval-Answered false queued s none e h = e

  settle-Answered :
      (room_client room_interval grows : Bool) (start : Timespec) (s : UnicastService) (b : Bool)
      (o : Option (List Interval))
      → Scanned s.intervals b
      → (own s.intervals ≡ [] → OnSome Single o)
      → Answered (settle now kind r room_client room_interval grows start s b o)
  settle-Answered room_client room_interval grows start s true o t h = t
  settle-Answered room_client room_interval grows start s false (some is) t h = h t
  settle-Answered false room_interval grows start s false none t h = t
  settle-Answered true room_interval grows start s false none t h =
      into_interval-Answered room_interval _ s _ t (
        at_interval-own (λ cs. some (new_client now kind r ∷ cs))
          (λ cs n. rw (new_client-own, n) refl) s.intervals t)

  add_contract-Answered :
      (room_client room_interval grows : Bool) (start : Timespec) (s : UnicastService)
      → length (contracts kind r.address s.intervals) ≤ 1
      → Answered (add_contract now kind r room_client room_interval grows start s)
  unfolding add_contract
  add_contract-Answered room_client room_interval grows start s l =
      settle-Answered room_client room_interval grows start
        (record s { intervals = (scan now kind r s.intervals).0 }) (scan now kind r s.intervals).1 _
        (scan-own s.intervals l)
        (at_interval-own (use_client now kind r) (use_client-held now kind r)
          (scan now kind r s.intervals).0)

-- The number of a message type for which contracts are kept.
abbrev pub wire_type : Kind → ℕ
wire_type announces = 0xb
wire_type syncs = 0x0

-- The log of a period that is out of the range from -30 to 30.
abbrev pub beyond : ℤ → Bool
beyond period = ltb_ℤ (pos 30) period || ltb_ℤ period (negsuc 29)

out_of_range-beyond : (period : ℤ) → out_of_range period ≡ beyond period
out_of_range-beyond (pos n) = ground arith
out_of_range-beyond (negsuc n) = ground arith

-- What a request does: the service is as it was where the period is out of range.
abbrev pub AnsweredTo :
    Option ℕ → Kind → Request → UnicastService → Bool → UnicastService × ServiceAnswer → Type 0
AnsweredTo now kind r s true a = a ≡ (s, denied)
AnsweredTo now kind r s false a = Answered now kind r a

module _ (room_client room_interval grows : Bool) (start : Timespec) (now : Option ℕ) (kind : Kind)
    (r : Request) (s : UnicastService) where
  by_kind : unicast_service_add room_client room_interval grows start now (wire_type kind) r s ≡ (
      if out_of_range r.log_period
      then (s, denied)
      else add_contract now kind r room_client room_interval grows start s)
  unfolding unicast_service_add
  by_kind =
      elim kind
        as (λ k. unicast_service_add room_client room_interval grows start now (wire_type k) r s ≡ (
          if out_of_range r.log_period
          then (s, denied)
          else add_contract now k r room_client room_interval grows start s)) [
            | announces ↦ refl
            | syncs ↦ refl
          ]

  -- Where an address has one contract at most for announce or for sync messages, a request of the address for that type whose period is not out of range, from -30 to 30, leaves it with just one where it is granted, in an interval of the period that it asks for, and with none where it is denied. A request whose period is out of range is denied and leaves the service as it was.
  pub unicast_service_add-AnsweredTo :
      length (contracts kind r.address s.intervals) ≤ 1
      → AnsweredTo now kind r s
          (beyond r.log_period)
          (unicast_service_add room_client room_interval grows start now (wire_type kind) r s)
  unicast_service_add-AnsweredTo l = elim (Bool-cases (beyond r.log_period)) [
    | inl e ↦ rw (e, by_kind, out_of_range-beyond r.log_period, e) refl
    | inr e ↦
        rw (e, by_kind, out_of_range-beyond r.log_period, e)
          (add_contract-Answered now kind r room_client room_interval grows start s l)
  ]
