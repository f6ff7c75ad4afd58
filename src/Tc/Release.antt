-- ===== src/Tc/Release.antt =====
-- The references to the messages that wait in a transparent clock.
use lyp_lyl.Prelude.{
  Bool-cases, All, ℕ, ◌+◌, ◌*◌, ◌≤◌, ◌≡◌, refl, sym, ap, ◌⊎◌, inl, inr, true, false, Option, some,
  List, [], ◌∷◌, ◌++◌, map, arith,
}
use lyp_lyl.Tmv.{Tmv, Timespec}
use lyp_lyl.Tc.{
  tc_match_syfup, or_else, first_match, tc_flush, tc_current, prune_list, tc_prune, try_send,
  send_fup, tc_complete_syfup, Frame, Txd, TcPort, TcMatch, mismatch, sync_fup, fup_sync,
  delay_reqresp, Action, release, Medium,
}
use mathlib.Core.List.{Memᴰ}
use mathlib.Core.List.Memᴰ.{head, tail}

found_at :
    (j : TcMatch) (x : Txd) (r : Option (TcMatch × Txd)) (k : TcMatch) (t : Txd)
    → or_else j x r ≡ some (k, t)
    → (x ≡ t) ⊎ (r ≡ some (k, t))
found_at mismatch x r k t e = inr e
found_at sync_fup x r k t e = inl (cc e)
found_at fup_sync x r k t e = inl (cc e)
found_at delay_reqresp x r k t e = inl (cc e)

first_match-Mem :
    (match_of : Txd → TcMatch) (ts : List Txd) (k : TcMatch) (t : Txd)
    → first_match match_of ts ≡ some (k, t)
    → Memᴰ (release t.msg) (map (λ (x : Txd). release x.msg) ts)
unfolding first_match
first_match-Mem match_of [] k t e = absurd (cc e)
first_match-Mem match_of (x ∷ ts) k t e = elim (found_at (match_of x) x _ k t e) [
  | inl same ↦ head (ap (λ (y : Txd). release y.msg) (sym same))
  | inr later ↦ tail (first_match-Mem match_of ts k t later)
]

-- Where a waiting message gets its counterpart, the Follow_Up message cannot be sent and the fault flushes the port, the waiting message is given back with all the others of the port, and then once more.
pub tc_complete_syfup-flushed :
    (medium : Medium) (q p : TcPort) (m : Frame) (residence : Tmv) (t : Txd)
    → first_match (tc_match_syfup q.portnum m) p.tc_transmitted ≡ some (sync_fup, t)
    → ((f : Frame) → medium.transport_send p.portnum f ≡ false)
    → medium.fault_detected p ≡ tc_flush p
    → ((tc_complete_syfup medium q p m residence).1 ≡ (tc_flush p).1 ++ (release t.msg ∷ []))
      × Memᴰ (release t.msg) (tc_flush p).1
unfolding tc_complete_syfup send_fup try_send tc_flush
tc_complete_syfup-flushed medium q p m residence t found stuck flush = (
  rw (found, stuck, flush) refl,
  first_match-Mem (tc_match_syfup q.portnum m) p.tc_transmitted sync_fup t found,
)

-- The messages of the list came in the order of the list.
abbrev pub host_time : Txd → ℕ
host_time t = t.msg.host.tv_sec * 1000000000 + t.msg.host.tv_nsec

abbrev pub InOrder : List Txd → Type 0
InOrder [] = Unit {0}
InOrder (t ∷ ts) = All (λ (x : Txd). host_time t ≤ host_time x) ts × InOrder ts

All-current :
    (now : Timespec) (t : Txd) (ts : List Txd)
    → tc_current t.msg now ≡ true
    → All (λ (x : Txd). host_time t ≤ host_time x) ts
    → All (λ (x : Txd). tc_current x.msg now ≡ true) ts
unfolding tc_current
All-current now t [] c h = tt
All-current now t (x ∷ ts) c h = (ground arith, All-current now t ts c h.1)

-- What is dropped from the front of the list.
pub record Pruned (now : Timespec) (ts rest : List Txd) (actions : List Action) : Type 0 where
  pub dropped : List Txd
  pub parts : ts ≡ dropped ++ rest
  pub old : All (λ (t : Txd). tc_current t.msg now ≡ false) dropped
  pub current : All (λ (t : Txd). tc_current t.msg now ≡ true) rest
  pub released : actions ≡ map (λ (t : Txd). release t.msg) dropped

prune_list-Pruned :
    (now : Timespec) (ts : List Txd)
    → InOrder ts
    → Pruned now ts (prune_list now ts).0 (prune_list now ts).1
unfolding prune_list
prune_list-Pruned now [] h = record {
  dropped = [];
  parts = refl;
  old = tt;
  current = tt;
  released = refl;
}
prune_list-Pruned now (t ∷ ts) h = elim (Bool-cases (tc_current t.msg now)) [
  | inl c ↦ rw c (record {
    dropped = [];
    parts = refl;
    old = tt;
    current = (c, All-current now t ts c h.0);
    released = refl;
  })
  | inr o ↦
      let ih = prune_list-Pruned now ts h.1 in
      rw o (record {
        dropped = t ∷ ih.dropped;
        parts = ap (λ l. t ∷ l) ih.parts;
        old = (o, ih.old);
        current = ih.current;
        released = ap (λ l. release t.msg ∷ l) ih.released;
      })
]

-- Where the messages of a port wait in the order in which they came, pruning drops exactly those that are a second old or older, and gives each of them back once.
pub tc_prune-Pruned :
    (now : Timespec) (q : TcPort)
    → InOrder q.tc_transmitted
    → Pruned now q.tc_transmitted (tc_prune now q).0.tc_transmitted (tc_prune now q).1
unfolding tc_prune
tc_prune-Pruned now q h = prune_list-Pruned now q.tc_transmitted h
