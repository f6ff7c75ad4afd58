-- ===== src/UnicastClient/Decisions.antt =====
-- What a decision of the clock and a timer event keep of a master that is backed by its grants.

use lyp_lyl.Prelude.{
  ltb, ◌==◌, ==_iff, Bool-cases, if-both, ℕ, ◌≡◌, refl, subst, ◌∙◌, inl, inr, Bool, true, false,
  not, ◌&&◌, Option, none, some, List, [], ◌∷◌, ◌++◌, arith,
}
use lyp_lyl.Prelude.Memory.{write}
use lyp_lyl.Fsm.Unicast.{
  unicast_fsm, UnicastState, wait, have_ann, need_sydy, have_sydy, UnicastEvent, grant_ann,
  selected, grant_sydy, unselected,
}
use lyp_lyl.UnicastClient.{
  sync, delay_resp, announce, Sent, has_sydy, unicast_client_renew, MasterAddress, ClientPort,
  ClientTlv, cancel_transmission, Transmit,
}
use lyp_lyl.UnicastClient.Grants.{
  holds_all, holds_any, cancel_each, unicast_client_tx_cancel, unicast_cancel_sydy, state_changed,
}
use lyp_lyl.UnicastClient.Timer.{timer_by, timer_master}
use lyp_lyl.UnicastClient.Backed.{Backed, IsBacked, Backed-fsm}

module _ (t : Transmit) (bitmask : List ℕ)
    (spared : holds_any (λ i. i == announce) bitmask ≡ false) where
  abbrev pub Announcing : UnicastState → MasterAddress × Sent → Type 0
  Announcing s r = (r.0.granted announce ≡ true) × (r.0.state ≡ s)

  cleared-announce :
      (bits : ℕ → Bool) (b : ℕ)
      → bits announce ≡ true
      → (bits b && holds_any (λ i. i == b) bitmask) ≡ true
      → write bits b false announce ≡ true
  cleared-announce bits b h e = elim (Bool-cases (b == announce)) [
    | inl same ↦
        let found : holds_any (λ i. i == announce) bitmask ≡ true =
          subst (λ m. holds_any (λ i. i == m) bitmask ≡ true) ((==_iff b announce).0 same)
            (ground (arith, e)) in
        absurd (ground (arith, found, spared))
    | inr other ↦ rw other h
  ]

  -- A cancellation that spares announce messages changes neither that grant nor the state.
  pub cancel_each-announce :
      (bs : List ℕ) (u : MasterAddress) (tlvs : List ClientTlv)
      → u.granted announce ≡ true
      → Announcing u.state (cancel_each t bitmask bs u tlvs)
  unfolding cancel_each
  cancel_each-announce [] u tlvs h = (h, refl)
  cancel_each-announce (b ∷ bs) u tlvs h =
      if-both (Announcing u.state) (u.granted b && holds_any (λ i. i == b) bitmask)
        (λ e.
          if-both (Announcing u.state) (t.attaches (cancel_transmission b))
            (λ _.
              cancel_each-announce bs (record u { granted = write u.granted b false })
                (tlvs ++ cancel_transmission b ∷ []) (cleared-announce u.granted b h e))
            (λ _. (h, refl)))
        (λ _. cancel_each-announce bs u tlvs h)

  pub tx_cancel-announce :
      (u : MasterAddress)
      → u.granted announce ≡ true
      → Announcing u.state (unicast_client_tx_cancel t u bitmask)
  unfolding unicast_client_tx_cancel
  tx_cancel-announce u h =
      if-both (Announcing u.state) (not (holds_any u.granted bitmask)) (λ _. (h, refl))
        (λ _.
          if-both (Announcing u.state) (not t.constructs) (λ _. (h, refl))
            (λ _. cancel_each-announce (announce ∷ sync ∷ delay_resp ∷ []) u [] h))

abbrev pub BackedFirst {ℓ} : {A : Type ℓ} → MasterAddress × A → Type 0
BackedFirst r = IsBacked r.0

-- Where the state asks for announce messages only.
Backed-have_ann : (u : MasterAddress) → u.granted announce ≡ true → u.state ≡ have_ann → IsBacked u
Backed-have_ann u h e = rw e h

sydy-announce :
    (s : UnicastState) (bits : ℕ → Bool) (mask : List ℕ)
    → has_sydy s ≡ true
    → Backed s bits mask
    → bits announce ≡ true
sydy-announce have_sydy bits mask e h = h.0
sydy-announce wait bits mask e h = absurd (ground (arith, e))
sydy-announce have_ann bits mask e h = h
sydy-announce need_sydy bits mask e h = h

sydy-unselected : (s : UnicastState) → has_sydy s ≡ true → unicast_fsm s unselected ≡ have_ann
unfolding unicast_fsm
sydy-unselected s e = ground (arith, e)

pub state_changed-IsBacked :
    (t : Transmit) (parent : ℕ) (u : MasterAddress)
    → IsBacked u
    → BackedFirst (state_changed t parent u)
unfolding state_changed
state_changed-IsBacked t parent u h =
    let no_grant =
      λ (e : UnicastEvent) (a : e ≡ grant_ann → u.granted announce ≡ true)
          (b : e ≡ grant_sydy → holds_all u.granted u.sydymsk ≡ true).
        Backed-fsm u.state e u.granted u.sydymsk a b h in
    let left_u = record u { state = unicast_fsm u.state unselected } in
    if-both BackedFirst (u.port_identity == parent)
      (λ _.
        no_grant selected (λ no. absurd (ground (arith, no))) (λ no. absurd (ground (arith, no))))
      (λ _.
        if-both BackedFirst (has_sydy u.state)
          (λ e.
            let a = sydy-announce u.state u.granted u.sydymsk e h in
            let kept = tx_cancel-announce t unicast_cancel_sydy refl left_u a in
            Backed-have_ann (unicast_client_tx_cancel t left_u unicast_cancel_sydy).0 kept.0
              (kept.1 ∙ sydy-unselected u.state e))
          (λ e.
            no_grant unselected (λ no. absurd (ground (arith, no)))
              (λ no. absurd (ground (arith, no)))))

pub unicast_client_renew-IsBacked :
    (t : Transmit) (now : Option ℕ) (p : ClientPort) (u : MasterAddress)
    → IsBacked u
    → BackedFirst (unicast_client_renew t now p u)
unfolding unicast_client_renew
unicast_client_renew-IsBacked t none p u h = h
unicast_client_renew-IsBacked t (some now) p u h =
    if-both BackedFirst (ltb now u.renewal_tmo) (λ _. h) (λ _. h)

timer_by-IsBacked :
    (s : UnicastState) (t : Transmit) (now : Option ℕ) (p : ClientPort) (u : MasterAddress)
    → IsBacked u
    → BackedFirst (timer_by s t now p u)
timer_by-IsBacked wait t now p u h = h
timer_by-IsBacked have_ann t now p u h = unicast_client_renew-IsBacked t now p u h
timer_by-IsBacked need_sydy t now p u h = h
timer_by-IsBacked have_sydy t now p u h = unicast_client_renew-IsBacked t now p u h

pub timer_master-IsBacked :
    (t : Transmit) (now : Option ℕ) (p : ClientPort) (u : MasterAddress)
    → IsBacked u
    → BackedFirst (timer_master t now p u)
unfolding timer_master
timer_master-IsBacked t now p u h = timer_by-IsBacked u.state t now p u h
