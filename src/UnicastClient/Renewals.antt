-- ===== src/UnicastClient/Renewals.antt =====
-- What is asked for, and when.

use lyp_lyl.Prelude.{
  ltb, leb, ◌==◌, if◌then◌else◌, Bool-cases, if-both, take, drop, All, ℕ, ◌+◌, ◌*◌, ◌/◌, ◌≤◌, ◌<◌,
  ◌≡◌, refl, sym, ap, subst, ◌∙◌, ◌⊎◌, inl, inr, Bool, true, false, not, some, List, [], ◌∷◌, ◌++◌,
  arith,
}
use lyp_lyl.Fsm.Unicast.{UnicastState, wait, have_ann, need_sydy, have_sydy}
use lyp_lyl.UnicastClient.{
  announce, all_attached, transmit, request_announce, request_sydy, unicast_client_announce,
  unicast_client_sydy, unicast_client_renew, unicast_client_set_renewal, DelayMechanism, auto, e2e,
  p2p, common_p2p, no_mechanism, MasterAddress, ClientPort, ClientTlv, request, Transmit,
}
use lyp_lyl.UnicastClient.Timer.{timer_by, timer_master, sydy_mask}
use lyp_lyl.UnicastClient.Progress.{renewal, set_renewal-renewal, all_tlvs}

-- A grant by its time and its duration, and the time at which it is to be renewed.
abbrev pub due : ℕ × ℕ → ℕ
due g = g.0 + 3 * g.1 / 4

-- The renewal time after grants, of which the last is the first in the list.
unfoldable pub renewed : MasterAddress → List (ℕ × ℕ) → MasterAddress
renewed u [] = u
renewed u (g ∷ gs) = unicast_client_set_renewal (some g.0) (renewed u gs) g.1

abbrev pub NoLater : ℕ → List (ℕ × ℕ) → Type 0
NoLater tmo gs = All (λ g. tmo ≤ due g) gs

abbrev pub Among : ℕ → List (ℕ × ℕ) → Type 0
Among tmo [] = ⊥
Among tmo (g ∷ gs) = (tmo ≡ due g) ⊎ Among tmo gs

NoLater-weaken : (a b : ℕ) (gs : List (ℕ × ℕ)) → a ≤ b → NoLater b gs → NoLater a gs
NoLater-weaken a b [] h hs = tt
NoLater-weaken a b (g ∷ gs) h hs = (omega (arith, h, hs.0), NoLater-weaken a b gs h hs.1)

Among-positive :
    (tmo : ℕ) (gs : List (ℕ × ℕ)) → All (λ g. 0 < g.0) gs → Among tmo gs → (tmo == 0) ≡ false
Among-positive tmo [] h a = absurd a
Among-positive tmo (g ∷ gs) h (inl e) =
    let p : 0 < g.0 = h.0 in let later : 0 < tmo = omega (arith, e, p) in ground (arith, later)
Among-positive tmo (g ∷ gs) h (inr a) = Among-positive tmo gs h.1 a

abbrev pub Earliest : ℕ → List (ℕ × ℕ) → Type 0
Earliest tmo gs = NoLater tmo gs × Among tmo gs

renewal-Earliest :
    (tmo : ℕ) (g : ℕ × ℕ) (gs : List (ℕ × ℕ))
    → All (λ g. 0 < g.0) gs
    → Earliest tmo gs
    → Earliest (renewal (some g.0) tmo g.1) (g ∷ gs)
renewal-Earliest tmo g gs h e =
    let same : renewal (some g.0) tmo g.1 ≡ (if ltb (due g) tmo then due g else tmo) =
      rw (Among-positive tmo gs h e.1) refl in
    subst (λ t. Earliest t (g ∷ gs)) (sym same)
      (if-both (λ t. Earliest t (g ∷ gs)) (ltb (due g) tmo)
        (λ l.
          let less : due g ≤ tmo = ground (arith, l) in
          ((omega arith, NoLater-weaken (due g) tmo gs less e.0), inl refl))
        (λ l. let less : tmo ≤ due g = ground (arith, l) in ((less, e.0), inr e.1)))

-- After one or more grants to a master without a renewal time, given when the clock is past zero, the renewal time is the earliest that a grant gives: three quarters of its duration after it.
pub renewed-Earliest :
    (u : MasterAddress) (g : ℕ × ℕ) (gs : List (ℕ × ℕ))
    → u.renewal_tmo ≡ 0
    → All (λ g. 0 < g.0) (g ∷ gs)
    → Earliest (renewed u (g ∷ gs)).renewal_tmo (g ∷ gs)
unfolding renewed
renewed-Earliest u g [] unset h = rw (set_renewal-renewal, unset) ((omega arith, tt), inl refl)
renewed-Earliest u g (g2 ∷ gs) unset h =
    let before = renewed u (g2 ∷ gs) in
    let same : (renewed u (g ∷ g2 ∷ gs)).renewal_tmo ≡ renewal (some g.0) before.renewal_tmo g.1 =
      ap (λ (v : MasterAddress). v.renewal_tmo) (set_renewal-renewal (some g.0) before g.1) in
    subst (λ t. Earliest t (g ∷ g2 ∷ gs)) (sym same)
      (renewal-Earliest before.renewal_tmo g (g2 ∷ gs) h.1 (renewed-Earliest u g2 gs unset h.1))

-- The message types of requests.
abbrev pub types : List ClientTlv → List ℕ
types [] = []
types (request log_period mtype asked ∷ tlvs) = mtype ∷ types tlvs
types (tlv ∷ tlvs) = types tlvs

-- What a state still needs, of a mask that begins with announce messages.
abbrev pub needed : UnicastState → Bool → List ℕ → List ℕ
needed wait is_due mask = take 1 mask
needed have_ann is_due mask = if is_due then take 1 mask else []
needed need_sydy is_due mask = drop 1 mask
needed have_sydy is_due mask = if is_due then mask else []

abbrev pub all_sent : Transmit
all_sent = record { constructs = true; attaches = λ x. true; sends = true }

due-test : (now tmo : ℕ) → leb tmo now ≡ not (ltb now tmo)
due-test now tmo = ground arith

sydy-types :
    (m : DelayMechanism) (p : ClientPort)
    → types (request_sydy (record p { delay_mechanism = m }) ++ []) ≡ drop 1 (sydy_mask m)
sydy-types auto p = refl
sydy-types e2e p = refl
sydy-types p2p p = refl
sydy-types common_p2p p = refl
sydy-types no_mechanism p = refl

mask-announce : (m : DelayMechanism) → sydy_mask m ≡ announce ∷ drop 1 (sydy_mask m)
mask-announce auto = refl
mask-announce e2e = refl
mask-announce p2p = refl
mask-announce common_p2p = refl
mask-announce no_mechanism = refl

take-mask : (m : DelayMechanism) → announce ∷ [] ≡ take 1 (sydy_mask m)
take-mask m = sym (ap (take 1) (mask-announce m))

attached-all : (tlvs : List ClientTlv) → all_attached all_sent tlvs ≡ true
attached-all [] = refl
attached-all (x ∷ xs) = attached-all xs

types-transmit :
    (dst : MasterAddress) (tlvs : List ClientTlv)
    → types (all_tlvs (transmit all_sent dst tlvs).0) ≡ types (tlvs ++ [])
types-transmit dst tlvs = rw (attached-all tlvs) refl

types-by :
    (s : UnicastState) (m : DelayMechanism) (now : ℕ) (p : ClientPort) (u : MasterAddress)
    → types (
        all_tlvs
          (timer_by s all_sent
            (some now)
            (record p { delay_mechanism = m })
            (record u { state = s })).1.0)
      ≡ needed s (leb u.renewal_tmo now) (sydy_mask m)
unfolding unicast_client_announce unicast_client_renew unicast_client_sydy
types-by wait m now p u = take-mask m
types-by have_ann m now p u = elim (Bool-cases (ltb now u.renewal_tmo)) [
  | inl e ↦ rw (due-test now u.renewal_tmo, e) refl
  | inr e ↦ rw (due-test now u.renewal_tmo, e) (take-mask m)
]
types-by need_sydy m now p u =
    types-transmit (record u { state = need_sydy })
      (request_sydy (record p { delay_mechanism = m }))
    ∙ sydy-types m p
types-by have_sydy m now p u =
    let q = record p { delay_mechanism = m } in
    elim (Bool-cases (ltb now u.renewal_tmo)) [
      | inl e ↦ rw (due-test now u.renewal_tmo, e) refl
      | inr e ↦
          rw (due-test now u.renewal_tmo, e)
            (types-transmit (record u { state = have_sydy }) (request_announce q ∷ request_sydy q)
              ∙ (ap (λ ms. announce ∷ ms) (sydy-types m p) ∙ sym (mask-announce m)))
    ]

-- A timer event at which everything can be sent asks a master for exactly what its state needs of the mask of the delay mechanism: announce messages first, then the others, and all of the grants again when their renewal is due.
pub timer_master-types :
    (now : ℕ) (p : ClientPort) (u : MasterAddress)
    → types (all_tlvs (timer_master all_sent (some now) p u).1.0)
      ≡ needed u.state (leb u.renewal_tmo now) (sydy_mask p.delay_mechanism)
unfolding timer_master unicast_client_announce unicast_client_renew unicast_client_sydy
timer_master-types now p u = types-by u.state p.delay_mechanism now p u
