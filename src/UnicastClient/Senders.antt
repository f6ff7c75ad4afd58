-- ===== src/UnicastClient/Senders.antt =====
-- Whose messages change what.

use lyp_lyl.Prelude.{
  ◌==◌, ==_iff, Bool-cases, if-both, ℕ, ◌≡◌, refl, ap, ◌∙◌, inl, inr, true, false, Option, none,
  some, List, [], ◌∷◌,
}
use lyp_lyl.Fsm.Unicast.{unicast_fsm, grant_ann}
use lyp_lyl.UnicastClient.{
  unicast_client_set_renewal, first_at, replace_at, ok_in, unicast_client_ok, in_table,
  unicast_client_msg_is_from_master_table_entry, MasterAddress, MasterTable, ClientPort, Transmit,
}
use lyp_lyl.UnicastClient.Grants.{
  holds_all, advance, renew_peer, grant_to, granted_by, unicast_client_grant,
  unicast_client_tx_cancel, Grant,
}
use lyp_lyl.UnicastClient.Timer.{port_unicast_message_valid}
use lyp_lyl.UnicastClient.Backed.{on_grant-ways, with_grant, grant_to-ways}
use lyp_lyl.UnicastClient.Reach.{WhereFound}
use lyp_lyl.UnicastClient.Progress.{set_renewal-renewal}

module _ (from address : ℕ) (apart : (from == address) ≡ false) where
  not_here : (a : ℕ) → (a == from) ≡ true → (a == address) ≡ false
  not_here a e = rw ((==_iff a from).0 e) apart

  first_at-replace_at :
      (u : MasterAddress) (us : List MasterAddress)
      → (u.address == address) ≡ false
      → first_at address (replace_at from u us) ≡ first_at address us
  first_at-replace_at u [] h = refl
  first_at-replace_at u (v ∷ us) h = elim (Bool-cases (v.address == from)) [
    | inl e ↦ rw (e, h, not_here v.address e) refl
    | inr e ↦ rw (e, first_at-replace_at u us h) refl
  ]

  ok_in-replace_at :
      (u : MasterAddress) (o : Option MasterTable)
      → (u.address == address) ≡ false
      → ok_in address (in_table (λ table. record table { addrs = replace_at from u table.addrs }) o)
        ≡ ok_in address o
  ok_in-replace_at u none h = refl
  ok_in-replace_at u (some table) h = first_at-replace_at u table.addrs h

first_at-found :
    (a : ℕ) (us : List MasterAddress) → WhereFound (λ u. (u.address == a) ≡ true) (first_at a us)
first_at-found a [] = tt
first_at-found a (u ∷ us) =
    if-both (WhereFound (λ u. (u.address == a) ≡ true)) (u.address == a) (λ e. e)
      (λ _. first_at-found a us)

ok_in-found :
    (a : ℕ) (o : Option MasterTable) → WhereFound (λ u. (u.address == a) ≡ true) (ok_in a o)
ok_in-found a none = tt
ok_in-found a (some table) = first_at-found a table.addrs

ok_in-peer :
    (change : MasterTable → MasterTable) (a : ℕ) (o : Option MasterTable)
    → ((x : MasterTable) → (change x).addrs ≡ x.addrs)
    → ok_in a (in_table change o) ≡ ok_in a o
ok_in-peer change a none same = refl
ok_in-peer change a (some x) same = ap (first_at a) (same x)

module _ (now : Option ℕ) (g : Grant) where
  -- What a grant keeps of the entry and of the table.
  abbrev Kept : ℕ → ClientPort → MasterAddress → ClientPort × MasterAddress → Type 0
  Kept a p u r =
      (r.1.address ≡ u.address)
      × (ok_in a r.0.unicast_master_table ≡ ok_in a p.unicast_master_table)

  set_renewal-address :
      (u : MasterAddress) (d : ℕ) → (unicast_client_set_renewal now u d).address ≡ u.address
  set_renewal-address u d = rw set_renewal-renewal refl

  advance-address : (u : MasterAddress) → (advance u).address ≡ u.address
  advance-address u =
      if-both (λ (v : MasterAddress). v.address ≡ u.address) (holds_all u.granted u.sydymsk)
        (λ _. refl) (λ _. refl)

  grant_to-Kept : (a : ℕ) (p : ClientPort) (u : MasterAddress) → Kept a p u (grant_to now g p u)
  grant_to-Kept a p u =
      let v = with_grant now g u in
      let kept = set_renewal-address v g.duration_field in
      let moved = set_renewal-address (advance v) g.duration_field ∙ advance-address v in
      grant_to-ways now g (Kept a p u) p u (refl, refl) (refl, refl)
        (refl, ok_in-peer (renew_peer now g) a p.unicast_master_table (λ x. refl))
        (on_grant-ways now g (Kept a p u) u.state p v (refl, refl)
          (λ _. (
            set_renewal-address
                (record v { state = unicast_fsm v.state grant_ann; port_identity = g.source })
                g.duration_field,
            refl,
          ))
          (kept, refl) (moved, refl) (moved, refl))

  granted_by-elsewhere :
      (p : ClientPort) (address : ℕ) (o : Option MasterAddress)
      → (g.from == address) ≡ false
      → WhereFound (λ u. (u.address == g.from) ≡ true) o
      → ok_in address (granted_by now g p o).unicast_master_table
        ≡ ok_in address p.unicast_master_table
  granted_by-elsewhere p address none h found = refl
  granted_by-elsewhere p address (some u) h found =
      let done = grant_to now g p u in
      let kept = grant_to-Kept address p u in
      let here : (done.1.address == address) ≡ false =
        rw kept.0 (not_here g.from address h u.address found) in
      ok_in-replace_at g.from address h done.1 done.0.unicast_master_table here ∙ kept.1

-- A grant from one address leaves the entries that other addresses have.
pub unicast_client_grant-elsewhere :
    (now : Option ℕ) (g : Grant) (p : ClientPort) (address : ℕ)
    → (g.from == address) ≡ false
    → unicast_client_ok (unicast_client_grant now g p) address ≡ unicast_client_ok p address
unfolding unicast_client_grant unicast_client_ok
unicast_client_grant-elsewhere now g p address h =
    granted_by-elsewhere now g p address (unicast_client_ok p g.from) h
      (ok_in-found g.from p.unicast_master_table)

-- A message from a sender that is in no entry of the table is refused, and nothing is sent to that sender, whatever could be sent.
pub port_unicast_message_valid-silent :
    (t : Transmit) (p : ClientPort) (from source msg_type : ℕ)
    → unicast_client_msg_is_from_master_table_entry p from ≡ false
    → port_unicast_message_valid t p from source msg_type ≡ (false, [])
unfolding port_unicast_message_valid unicast_client_tx_cancel
port_unicast_message_valid-silent t p from source msg_type h = rw h refl
