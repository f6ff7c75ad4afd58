-- ===== src/UnicastClient/Progress.antt =====
-- What becomes of a master that grants what it is asked for.

use lyp_lyl.Prelude.{
  ltb, ◌==◌, if◌then◌else◌, Bool-cases, ℕ, suc, ◌+◌, ◌*◌, ◌/◌, ◌≡◌, refl, inl, inr, Bool, true,
  false, ◌&&◌, ◌||◌, Option, none, some, List, [], ◌∷◌, ◌++◌, arith,
}
use lyp_lyl.Prelude.Memory.{write}
use lyp_lyl.Fsm.Unicast.{unicast_fsm, wait, have_ann, need_sydy, have_sydy, selected}
use lyp_lyl.UnicastService.Contracts.{out_of_range}
use lyp_lyl.UnicastClient.{
  sync, delay_resp, announce, measures_e2e, unicast_client_announce, unicast_client_sydy,
  unicast_client_set_renewal, DelayMechanism, auto, e2e, p2p, common_p2p, no_mechanism,
  MasterAddress, ClientPort, ClientTlv, request, Outgoing, Transmit,
}
use lyp_lyl.UnicastClient.Grants.{is_p2p, grant_to, state_changed, Grant}
use lyp_lyl.UnicastClient.Timer.{timer_master, sydy_mask}

-- The time of the renewal after a grant.
abbrev pub renewal : Option ℕ → ℕ → ℕ → ℕ
renewal none tmo duration = tmo
renewal (some now) tmo duration =
    let due = now + 3 * duration / 4 in if tmo == 0 || ltb due tmo then due else tmo

pub set_renewal-renewal :
    (now : Option ℕ) (u : MasterAddress) (duration : ℕ)
    → unicast_client_set_renewal now u duration
      ≡ record u { renewal_tmo = renewal now u.renewal_tmo duration }
unfolding unicast_client_set_renewal
set_renewal-renewal none u duration = refl
set_renewal-renewal (some now) u duration =
    elim (Bool-cases (u.renewal_tmo == 0 || ltb (now + 3 * duration / 4) u.renewal_tmo)) [
      | inl e ↦ rw e refl
      | inr e ↦ rw e refl
    ]

-- The master grants every request as it was asked, for `duration` seconds.
unfoldable pub answered :
    Option ℕ → ℕ → ℕ → ClientPort × MasterAddress → List ClientTlv → ClientPort × MasterAddress
answered now source duration r [] = r
answered now source duration r (request log_period mtype asked ∷ tlvs) =
    let g : Grant = record {
      from = r.1.address;
      source = source;
      message_type = mtype;
      log_inter_message_period = log_period;
      duration_field = duration;
    } in
    answered now source duration (grant_to now g r.0 r.1) tlvs
answered now source duration r (tlv ∷ tlvs) = answered now source duration r tlvs

abbrev pub all_tlvs : List Outgoing → List ClientTlv
all_tlvs [] = []
all_tlvs (m ∷ ms) = m.tlvs ++ all_tlvs ms

-- A timer event at which everything is sent and granted.
unfoldable pub round : Option ℕ → ℕ → ℕ → ClientPort × MasterAddress → ClientPort × MasterAddress
round now source duration r =
    let t : Transmit = record { constructs = true; attaches = λ x. true; sends = true } in
    let asked = timer_master t now r.0 r.1 in
    answered now source duration (r.0, asked.0) (all_tlvs asked.1.0)

pub same-number : (n : ℕ) → (n == n) ≡ true
same-number n = ground arith

positive : (d : ℕ) → (suc d == 0) ≡ false
positive d = ground arith

and_false : (b : Bool) → (b && false) ≡ false
and_false b = ground arith

module _ (now : Option ℕ) (source d : ℕ) (p : ClientPort) where
  -- The first timer event: announce messages are asked for and granted.
  pub first-round :
      (u : MasterAddress)
      → out_of_range p.log_announce_interval ≡ false
      → round now source (suc d) (p, record u { state = wait }) ≡ (
        p,
        record u {
          state = have_ann;
          granted = write u.granted announce true;
          port_identity = source;
          renewal_tmo = renewal now u.renewal_tmo (suc d);
        },
      )
  unfolding round answered grant_to timer_master unicast_client_announce unicast_fsm
  first-round u ha =
      rw (ha, positive d, and_false (is_p2p p.delay_mechanism), set_renewal-renewal) refl

  -- A timer event for a master that was selected, by the delay mechanism.
  abbrev pub SydyAfter : DelayMechanism → MasterAddress → Type 0
  SydyAfter m u =
      (round now source (suc d) (
        record p { delay_mechanism = m },
        record u {
          state = need_sydy;
          granted = write u.granted announce true;
          sydymsk = sydy_mask m;
        },
      )).1.state
      ≡ have_sydy

  -- Where sync and delay messages are both asked for, an old grant of delay messages lets the grant of sync messages suffice.
  both-granted :
      (m : DelayMechanism) (u : MasterAddress)
      → is_p2p m ≡ false
      → measures_e2e m ≡ true
      → sydy_mask m ≡ announce ∷ sync ∷ delay_resp ∷ []
      → out_of_range p.log_sync_interval ≡ false
      → out_of_range p.log_min_delay_req_interval ≡ false
      → SydyAfter m u
  unfolding round answered grant_to timer_master unicast_client_sydy unicast_fsm
  both-granted m u alone e2e_way mask hs hd = elim (Bool-cases (u.granted delay_resp)) [
    | inl e ↦
        rw
          (
            e2e_way,
            alone,
            mask,
            hs,
            hd,
            e,
            positive d,
            set_renewal-renewal,
            alone,
            set_renewal-renewal,
          )
          refl
    | inr e ↦
        rw
          (
            e2e_way,
            alone,
            mask,
            hs,
            hd,
            e,
            positive d,
            set_renewal-renewal,
            alone,
            set_renewal-renewal,
          )
          refl
  ]

  pub second-round :
      (m : DelayMechanism) (u : MasterAddress)
      → out_of_range p.log_sync_interval ≡ false
      → out_of_range p.log_min_delay_req_interval ≡ false
      → SydyAfter m u
  unfolding round answered grant_to timer_master unicast_client_sydy unicast_fsm
  second-round p2p u hs hd = rw (hs, positive d, set_renewal-renewal) refl
  second-round no_mechanism u hs hd = rw (hs, positive d, set_renewal-renewal) refl
  second-round e2e u hs hd = both-granted e2e u refl refl refl hs hd
  second-round auto u hs hd = both-granted auto u refl refl refl hs hd
  second-round common_p2p u hs hd = both-granted common_p2p u refl refl refl hs hd

-- The clock selects the master.
pub selected-state :
    (t : Transmit) (u : MasterAddress)
    → (state_changed t u.port_identity u).0 ≡ record u { state = unicast_fsm u.state selected }
unfolding state_changed
selected-state t u = rw (same-number u.port_identity) refl

-- A master that answers every request with a grant reaches the last state: one that was set up for the delay mechanism of the port and is in the first state grants the announce messages after one timer event, is then selected by the clock, and grants what the next timer event asks for. The intervals of the port are at most 30, as logarithms, and the duration is not zero; the clock may fail to tell the time.
pub round-have_sydy :
    (now later : Option ℕ) (source duration : ℕ) (t : Transmit) (p : ClientPort) (u : MasterAddress)
    → out_of_range p.log_announce_interval ≡ false
    → out_of_range p.log_sync_interval ≡ false
    → out_of_range p.log_min_delay_req_interval ≡ false
    → let blank = record u { state = wait; sydymsk = sydy_mask p.delay_mechanism } in
      let first = round now source (suc duration) (p, blank) in
      let chosen = (state_changed t source first.1).0 in
      (round later source (suc duration) (first.0, chosen)).1.state ≡ have_sydy
unfolding unicast_fsm
round-have_sydy now later source duration t p u ha hs hd =
    let blank : MasterAddress = record u { sydymsk = sydy_mask p.delay_mechanism } in
    let one = first-round now source duration p blank ha in
    let held : MasterAddress = record blank {
      state = have_ann;
      granted = write u.granted announce true;
      port_identity = source;
      renewal_tmo = renewal now u.renewal_tmo (suc duration);
    } in
    rw (one, selected-state t held)
      (second-round later source duration p p.delay_mechanism
        (record u {
          port_identity = source;
          renewal_tmo = renewal now u.renewal_tmo (suc duration);
        })
        hs hd)
