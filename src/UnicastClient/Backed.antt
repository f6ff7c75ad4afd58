-- ===== src/UnicastClient/Backed.antt =====
-- What the grants of a master have to do with its state, for each operation on one master.

use lyp_lyl.Prelude.{
  ltb, ◌==◌, ==_iff, Bool-cases, if-both, ℕ, ◌+◌, ◌*◌, ◌/◌, ◌≡◌, refl, subst, inl, inr, Bool, true,
  ◌&&◌, ◌||◌, Option, none, some, List, [], ◌∷◌, arith,
}
use lyp_lyl.Prelude.Memory.{write}
use lyp_lyl.Fsm.Unicast.{
  unicast_fsm, UnicastState, wait, have_ann, need_sydy, have_sydy, UnicastEvent, grant_ann,
  selected, grant_sydy, unselected, cancel,
}
use lyp_lyl.UnicastService.Contracts.{out_of_range}
use lyp_lyl.UnicastClient.{
  sync, pdelay_resp, delay_resp, announce, unicast_client_set_renewal, on_table, call,
  MasterAddress, clock_set_sde, clock_sync_interval, ClientPort,
}
use lyp_lyl.UnicastClient.Grants.{is_p2p, holds_all, advance, on_grant, renew_peer, grant_to, Grant}

abbrev pub Backed : UnicastState → (ℕ → Bool) → List ℕ → Type 0
Backed wait bits mask = Unit
Backed have_ann bits mask = bits announce ≡ true
Backed need_sydy bits mask = bits announce ≡ true
Backed have_sydy bits mask = (bits announce ≡ true) × (holds_all bits mask ≡ true)

-- A master in a state other than the first has granted announce messages, and one in the last
-- state everything that its mask asks for.
abbrev pub IsBacked : MasterAddress → Type 0
IsBacked u = Backed u.state u.granted u.sydymsk

pub write-true : (bits : ℕ → Bool) (m b : ℕ) → bits b ≡ true → write bits m true b ≡ true
write-true bits m b h = ground arith

pub holds_all-write :
    (bits : ℕ → Bool) (m : ℕ) (mask : List ℕ)
    → holds_all bits mask ≡ true
    → holds_all (write bits m true) mask ≡ true
holds_all-write bits m [] h = refl
holds_all-write bits m (b ∷ mask) h = elim (Bool-cases (bits b)) [
  | inl e ↦ rw (write-true bits m b e) (holds_all-write bits m mask (rw e at h))
  | inr e ↦ absurd (ground (arith, e, h))
]

pub Backed-write :
    (s : UnicastState) (bits : ℕ → Bool) (m : ℕ) (mask : List ℕ)
    → Backed s bits mask
    → Backed s (write bits m true) mask
Backed-write wait bits m mask h = tt
Backed-write have_ann bits m mask h = write-true bits m announce h
Backed-write need_sydy bits m mask h = write-true bits m announce h
Backed-write have_sydy bits m mask h =
    (write-true bits m announce h.0, holds_all-write bits m mask h.1)

pub set_renewal-IsBacked :
    (now : Option ℕ) (u : MasterAddress) (duration : ℕ)
    → IsBacked u
    → IsBacked (unicast_client_set_renewal now u duration)
unfolding unicast_client_set_renewal
set_renewal-IsBacked none u duration h = h
set_renewal-IsBacked (some now) u duration h =
    elim (Bool-cases (u.renewal_tmo == 0 || ltb (now + 3 * duration / 4) u.renewal_tmo)) [
      | inl e ↦ rw e h
      | inr e ↦ rw e h
    ]

pub Backed-fsm :
    (s : UnicastState) (e : UnicastEvent) (bits : ℕ → Bool) (mask : List ℕ)
    → (e ≡ grant_ann → bits announce ≡ true)
    → (e ≡ grant_sydy → holds_all bits mask ≡ true)
    → Backed s bits mask
    → Backed (unicast_fsm s e) bits mask
unfolding unicast_fsm
Backed-fsm wait grant_ann bits mask ann all h = ann refl
Backed-fsm wait selected bits mask ann all h = tt
Backed-fsm wait grant_sydy bits mask ann all h = tt
Backed-fsm wait unselected bits mask ann all h = tt
Backed-fsm wait cancel bits mask ann all h = tt
Backed-fsm have_ann grant_ann bits mask ann all h = h
Backed-fsm have_ann selected bits mask ann all h = h
Backed-fsm have_ann grant_sydy bits mask ann all h = h
Backed-fsm have_ann unselected bits mask ann all h = h
Backed-fsm have_ann cancel bits mask ann all h = tt
Backed-fsm need_sydy grant_ann bits mask ann all h = h
Backed-fsm need_sydy selected bits mask ann all h = h
Backed-fsm need_sydy grant_sydy bits mask ann all h = (h, all refl)
Backed-fsm need_sydy unselected bits mask ann all h = h
Backed-fsm need_sydy cancel bits mask ann all h = tt
Backed-fsm have_sydy grant_ann bits mask ann all h = h
Backed-fsm have_sydy selected bits mask ann all h = h
Backed-fsm have_sydy grant_sydy bits mask ann all h = h
Backed-fsm have_sydy unselected bits mask ann all h = h.0
Backed-fsm have_sydy cancel bits mask ann all h = tt

pub Backed-cancel :
    (s : UnicastState) (bits : ℕ → Bool) (mask : List ℕ) → Backed (unicast_fsm s cancel) bits mask
unfolding unicast_fsm
Backed-cancel wait bits mask = tt
Backed-cancel have_ann bits mask = tt
Backed-cancel need_sydy bits mask = tt
Backed-cancel have_sydy bits mask = tt

pub advance-IsBacked : (u : MasterAddress) → IsBacked u → IsBacked (advance u)
advance-IsBacked u h = elim (Bool-cases (holds_all u.granted u.sydymsk)) [
  | inl e ↦ rw e (
      Backed-fsm u.state grant_sydy u.granted u.sydymsk (λ no. absurd (ground (arith, no))) (λ _. e)
        h)
  | inr e ↦ rw e h
]

module _ (now : Option ℕ) (g : Grant) where
  abbrev pub first_grant : MasterAddress → MasterAddress
  first_grant u =
      unicast_client_set_renewal now
        (record u { state = unicast_fsm u.state grant_ann; port_identity = g.source })
        g.duration_field

  -- The ways through the switch by the state.
  pub on_grant-ways {κ} :
      (P : ClientPort × MasterAddress → Type κ) (s : UnicastState) (p : ClientPort)
      (u : MasterAddress)
      → P (p, u)
      → ((g.message_type == announce) ≡ true → P (p, first_grant u))
      → P (p, unicast_client_set_renewal now u g.duration_field)
      → P (
        record p { log_min_delay_req_interval = g.log_inter_message_period },
        unicast_client_set_renewal now (advance u) g.duration_field,
      )
      → P (
        call (clock_sync_interval g.log_inter_message_period) p,
        unicast_client_set_renewal now (advance u) g.duration_field,
      )
      → P (on_grant now g s p u)
  on_grant-ways P wait p u same ann kept dly syn =
      if-both P (g.message_type == announce) ann (λ _. same)
  on_grant-ways P have_ann p u same ann kept dly syn =
      if-both P (g.message_type == announce) ann (λ _. same)
  on_grant-ways P need_sydy p u same ann kept dly syn =
      if-both P (g.message_type == delay_resp) (λ _. dly)
        (λ _. if-both P (g.message_type == sync) (λ _. syn) (λ _. same))
  on_grant-ways P have_sydy p u same ann kept dly syn =
      if-both P
        (g.message_type == announce || g.message_type == delay_resp || g.message_type == sync)
        (λ _. kept) (λ _. same)

  abbrev pub with_grant : MasterAddress → MasterAddress
  with_grant u = record u { granted = write u.granted g.message_type true }

  -- The ways through unicast_client_grant.
  pub grant_to-ways {κ} :
      (P : ClientPort × MasterAddress → Type κ) (p : ClientPort) (u : MasterAddress)
      → P (p, u)
      → P (call clock_set_sde p, record u { state = wait })
      → P (
        on_table
            (renew_peer now g)
            (record p { log_pdelay_req_interval = g.log_inter_message_period }),
        u,
      )
      → P (on_grant now g u.state p (with_grant u))
      → P (grant_to now g p u)
  unfolding grant_to
  grant_to-ways P p u same refused peer kept =
      if-both P (g.duration_field == 0)
        (λ _. if-both P (g.message_type == pdelay_resp) (λ _. same) (λ _. refused))
        (λ _.
          if-both P (out_of_range g.log_inter_message_period) (λ _. same)
            (λ _.
              if-both P (is_p2p p.delay_mechanism && g.message_type == delay_resp) (λ _. same)
                (λ _.
                  if-both P (is_p2p p.delay_mechanism && g.message_type == pdelay_resp) (λ _. peer)
                    (λ _. kept))))

  abbrev pub BackedAfter : ClientPort × MasterAddress → Type 0
  BackedAfter r = IsBacked r.1

  -- Announce messages that are granted.
  first_grant-IsBacked :
      (u : MasterAddress)
      → u.granted g.message_type ≡ true
      → (g.message_type == announce) ≡ true
      → IsBacked u
      → IsBacked (first_grant u)
  first_grant-IsBacked u known e h =
      let a : u.granted announce ≡ true =
        subst (λ m. u.granted m ≡ true) ((==_iff g.message_type announce).0 e) known in
      set_renewal-IsBacked now
        (record u { state = unicast_fsm u.state grant_ann; port_identity = g.source })
        g.duration_field
        (Backed-fsm u.state grant_ann u.granted u.sydymsk (λ _. a)
          (λ no. absurd (ground (arith, no))) h)

  on_grant-IsBacked :
      (s : UnicastState) (p : ClientPort) (u : MasterAddress)
      → u.granted g.message_type ≡ true
      → IsBacked u
      → BackedAfter (on_grant now g s p u)
  on_grant-IsBacked s p u known h =
      let advanced = set_renewal-IsBacked now (advance u) g.duration_field (advance-IsBacked u h) in
      on_grant-ways BackedAfter s p u h (λ e. first_grant-IsBacked u known e h)
        (set_renewal-IsBacked now u g.duration_field h) advanced advanced

  write_self : (bits : ℕ → Bool) (m : ℕ) → write bits m true m ≡ true
  write_self bits m = ground arith

  pub grant_to-IsBacked :
      (p : ClientPort) (u : MasterAddress) → IsBacked u → BackedAfter (grant_to now g p u)
  grant_to-IsBacked p u h = grant_to-ways BackedAfter p u h tt h (
      on_grant-IsBacked u.state p (with_grant u) (write_self u.granted g.message_type)
        (Backed-write u.state u.granted g.message_type u.sydymsk h))
