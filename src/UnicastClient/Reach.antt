-- ===== src/UnicastClient/Reach.antt =====
-- The histories of a unicast client: grants, cancellations, decisions of the clock and the timer,
-- in any order, from the tables of the configuration.

use lyp_lyl.Prelude.{
  ◌==◌, if-both, All, ℕ, ◌/◌, ◌%◌, ◌≡◌, sym, subst, Bool, true, false, not, ◌&&◌, ◌||◌, Option,
  none, some, List, [], ◌∷◌,
}
use lyp_lyl.Prelude.Memory.{write}
use lyp_lyl.Fsm.Unicast.{unicast_fsm, wait, cancel}
use lyp_lyl.UnicastClient.{
  sync, delay_resp, announce, Sent, first_at, replace_at, ok_in, unicast_client_ok, in_table,
  put_back, call, DelayMechanism, MasterAddress, MasterTable, clock_set_sde, ClientPort, Transmit,
}
use lyp_lyl.UnicastClient.Grants.{
  renew_peer, grant_to, granted_by, unicast_client_grant, cancelled, unicast_client_cancel,
  changed_all, changed_in, unicast_client_state_changed, Grant,
}
use lyp_lyl.UnicastClient.Timer.{
  timer_master, timer_peer, timer_loop, timed, unicast_client_timer, sydy_mask, with_masks,
  find_table, is_none, set_up, unicast_client_initialize,
}
use lyp_lyl.UnicastClient.Backed.{
  Backed, IsBacked, Backed-cancel, on_grant-ways, with_grant, grant_to-ways, grant_to-IsBacked,
}
use lyp_lyl.UnicastClient.Decisions.{state_changed-IsBacked, timer_master-IsBacked}

-- One event at the client of a port.
pub data Step : ClientPort → ClientPort → Type 0 where
  on_grant_tlv :
      {p : ClientPort} (now : Option ℕ) (g : Grant) → Step p (unicast_client_grant now g p)
  on_cancel_tlv :
      {p : ClientPort} (t : Transmit) (from flags : ℕ)
      → Step p (unicast_client_cancel t p from flags).0
  on_decision :
      {p : ClientPort} (t : ℕ → Transmit) (parent : ℕ)
      → Step p (unicast_client_state_changed t parent p).0
  on_timer :
      {p : ClientPort} (t : ℕ → Transmit) (now : Option ℕ) → Step p (unicast_client_timer t now p).0

pub data Reached (start : ClientPort) : ClientPort → Type 0 where
  at_start : Reached start start
  after : {p q : ClientPort} → Reached start p → Step p q → Reached start q

abbrev pub InTable : (MasterAddress → Type 0) → Option MasterTable → Type 0
InTable P none = Unit
InTable P (some table) = All P table.addrs

-- Every master of the port is backed by its grants.
abbrev pub AllBacked : ClientPort → Type 0
AllBacked p = InTable IsBacked p.unicast_master_table

abbrev pub WhereFound : (MasterAddress → Type 0) → Option MasterAddress → Type 0
WhereFound P none = Unit
WhereFound P (some u) = P u

module _ (P : MasterAddress → Type 0) where
  pub first_at-All : (a : ℕ) (us : List MasterAddress) → All P us → WhereFound P (first_at a us)
  first_at-All a [] h = tt
  first_at-All a (u ∷ us) h =
      if-both (WhereFound P) (u.address == a) (λ _. h.0) (λ _. first_at-All a us h.1)

  pub ok_in-All : (a : ℕ) (o : Option MasterTable) → InTable P o → WhereFound P (ok_in a o)
  ok_in-All a none h = tt
  ok_in-All a (some table) h = first_at-All a table.addrs h

  pub replace_at-All :
      (a : ℕ) (u : MasterAddress) (us : List MasterAddress)
      → P u
      → All P us
      → All P (replace_at a u us)
  replace_at-All a u [] hu h = tt
  replace_at-All a u (v ∷ us) hu h =
      if-both (All P) (v.address == a) (λ _. (hu, h.1)) (λ _. (h.0, replace_at-All a u us hu h.1))

  pub in_table-All :
      (change : MasterTable → MasterTable) (o : Option MasterTable)
      → ((x : MasterTable) → All P x.addrs → All P (change x).addrs)
      → InTable P o
      → InTable P (in_table change o)
  in_table-All change none keeps h = tt
  in_table-All change (some x) keeps h = keeps x h

  pub put_back-All :
      (a : ℕ) (p : ClientPort) (u : MasterAddress)
      → P u
      → InTable P p.unicast_master_table
      → InTable P (put_back a (p, u)).unicast_master_table
  put_back-All a p u hu h =
      in_table-All (λ table. record table { addrs = replace_at a u table.addrs })
        p.unicast_master_table (λ x hx. replace_at-All a u x.addrs hu hx) h

-- The table that a grant leaves, before the entry is put back.
abbrev pub BackedTable : ClientPort × MasterAddress → Type 0
BackedTable r = AllBacked r.0

module _ (now : Option ℕ) (g : Grant) where
  grant_to-table :
      (p : ClientPort) (u : MasterAddress) → AllBacked p → BackedTable (grant_to now g p u)
  grant_to-table p u h =
      grant_to-ways now g BackedTable p u h h
        (in_table-All IsBacked (renew_peer now g) p.unicast_master_table (λ x hx. hx) h)
        (on_grant-ways now g BackedTable u.state p (with_grant now g u) h (λ _. h) h h h)

  granted_by-AllBacked :
      (p : ClientPort) (o : Option MasterAddress)
      → WhereFound IsBacked o
      → AllBacked p
      → AllBacked (granted_by now g p o)
  granted_by-AllBacked p none ho h = h
  granted_by-AllBacked p (some u) ho h =
      let done = grant_to now g p u in
      put_back-All IsBacked g.from done.0 done.1 (grant_to-IsBacked now g p u ho)
        (grant_to-table p u h)

cancelled-AllBacked :
    (t : Transmit) (p : ClientPort) (from flags : ℕ) (o : Option MasterAddress)
    → AllBacked p
    → AllBacked (cancelled t p from flags o).0
cancelled-AllBacked t p from flags none h = h
cancelled-AllBacked t p from flags (some u) h =
    let mtype = flags / 16 in
    let u' = record u {
      state = unicast_fsm u.state cancel;
      granted = write u.granted mtype false;
    } in
    if-both (λ (r : ClientPort × Sent). AllBacked r.0)
      (not (mtype == announce || mtype == sync || mtype == delay_resp) || flags / 2 % 2 == 1)
      (λ _. h)
      (λ _.
        put_back-All IsBacked from (call clock_set_sde p) u'
          (Backed-cancel u.state (write u.granted mtype false) u.sydymsk) h)

changed_all-All :
    (t : ℕ → Transmit) (parent : ℕ) (us : List MasterAddress)
    → All IsBacked us
    → All IsBacked (changed_all t parent us).0
unfolding changed_all
changed_all-All t parent [] h = tt
changed_all-All t parent (u ∷ us) h =
    (state_changed-IsBacked (t u.address) parent u h.0, changed_all-All t parent us h.1)

changed_in-AllBacked :
    (t : ℕ → Transmit) (parent : ℕ) (p : ClientPort) (o : Option MasterTable)
    → AllBacked p
    → InTable IsBacked o
    → AllBacked (changed_in t parent p o).0
changed_in-AllBacked t parent p none hp h = hp
changed_in-AllBacked t parent p (some table) hp h = changed_all-All t parent table.addrs h

timer_loop-All :
    (t : ℕ → Transmit) (now : Option ℕ) (p : ClientPort) (table : MasterTable) (err : Bool)
    (us : List MasterAddress)
    → All IsBacked us
    → All IsBacked (timer_loop t now p table err us).0.1
unfolding timer_loop
timer_loop-All t now p table err [] h = tt
timer_loop-All t now p table err (u ∷ us) h =
    let here = timer_master (t u.address) now p u in
    if-both (λ (r : (MasterTable × List MasterAddress) × Sent). All IsBacked r.0.1)
      (u.transport == p.transport_type)
      (λ _. (
        timer_master-IsBacked (t u.address) now p u h.0,
        timer_loop-All t now p (timer_peer t now p table).0 here.1.1 us h.1,
      ))
      (λ _. (h.0, timer_loop-All t now p table err us h.1))

timed-AllBacked :
    (t : ℕ → Transmit) (now : Option ℕ) (p : ClientPort) (o : Option MasterTable)
    → AllBacked p
    → InTable IsBacked o
    → AllBacked (timed t now p o).0
timed-AllBacked t now p none hp h = hp
timed-AllBacked t now p (some table) hp h = timer_loop-All t now p table true table.addrs h

-- Each event keeps every master backed by its grants.
pub Step-AllBacked : {p q : ClientPort} → Step p q → AllBacked p → AllBacked q
unfolding unicast_client_grant unicast_client_cancel unicast_client_state_changed
    unicast_client_timer unicast_client_ok
Step-AllBacked {p = p} (on_grant_tlv now g) h =
    granted_by-AllBacked now g p (unicast_client_ok p g.from)
      (ok_in-All IsBacked g.from p.unicast_master_table h) h
Step-AllBacked {p = p} (on_cancel_tlv t from flags) h =
    cancelled-AllBacked t p from flags (unicast_client_ok p from) h
Step-AllBacked {p = p} (on_decision t parent) h =
    changed_in-AllBacked t parent p p.unicast_master_table h h
Step-AllBacked {p = p} (on_timer t now) h = timed-AllBacked t now p p.unicast_master_table h h

Reached-keeps : {start p : ClientPort} → AllBacked start → Reached start p → AllBacked p
Reached-keeps h at_start = h
Reached-keeps h (after r s) = Step-AllBacked s (Reached-keeps h r)

-- What no message has reached.
abbrev pub IsFresh : MasterTable → Type 0
IsFresh table = All (λ u. u.state ≡ wait) table.addrs

with_masks-All :
    (m : DelayMechanism) (us : List MasterAddress)
    → All (λ u. u.state ≡ wait) us
    → All IsBacked (with_masks m us)
with_masks-All m [] h = tt
with_masks-All m (u ∷ us) h =
    (subst (λ s. Backed s u.granted (sydy_mask m)) (sym h.0) tt, with_masks-All m us h.1)

set_up-AllBacked :
    (p : ClientPort) (duration : ℕ) (copied : Bool) (peer : Option ℕ) (o : Option MasterTable)
    → AllBacked p
    → InTable (λ u. u.state ≡ wait) o
    → AllBacked (set_up p duration copied peer o).0
set_up-AllBacked p duration copied peer none hp h = hp
set_up-AllBacked p duration false peer (some table) hp h = hp
set_up-AllBacked p duration true peer (some table) hp h =
    if-both (λ (r : ClientPort × Bool). AllBacked r.0) (table.has_peer && is_none peer) (λ _. hp)
      (λ _. with_masks-All p.delay_mechanism table.addrs h)

find_table-fresh :
    (id : ℕ) (tables : List MasterTable)
    → All IsFresh tables
    → InTable (λ u. u.state ≡ wait) (find_table id tables)
find_table-fresh id [] h = tt
find_table-fresh id (x ∷ xs) h =
    if-both (InTable (λ u. u.state ≡ wait)) (x.table_index == id) (λ _. h.0)
      (λ _. find_table-fresh id xs h.1)

module _ (tables : List MasterTable) (table_id duration : ℕ) (copied : Bool) (peer : Option ℕ) where
  initialize-AllBacked :
      (p : ClientPort)
      → All IsFresh tables
      → AllBacked p
      → AllBacked (unicast_client_initialize tables table_id duration copied peer p).0
  unfolding unicast_client_initialize
  initialize-AllBacked p h hp =
      if-both (λ (r : ClientPort × Bool). AllBacked r.0) (table_id == 0) (λ _. hp)
        (λ _.
          set_up-AllBacked p duration copied peer (find_table table_id tables) hp
            (find_table-fresh table_id tables h))

  -- Whatever grants, cancellations, decisions of the clock and timer events come, in any order, at a port without masters that unicast_client_initialize has given a table of the configuration, with its masters in the first state: a master that is not in the first state has granted announce messages, and one in the last state every message type of its mask, and neither has been taken back.
  pub Reached-AllBacked :
      (p q : ClientPort)
      → All IsFresh tables
      → p.unicast_master_table ≡ none
      → Reached (unicast_client_initialize tables table_id duration copied peer p).0 q
      → AllBacked q
  Reached-AllBacked p q fresh blank r =
      let hp : AllBacked p = subst (InTable IsBacked) (sym blank) tt in
      Reached-keeps (initialize-AllBacked p fresh hp) r
