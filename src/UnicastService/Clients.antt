-- ===== src/UnicastService/Clients.antt =====
-- unicast_service.c: what the clients of an interval are sent when it is due.

use lyp_lyl.Prelude.{
  ltb, if◌then◌else◌, Bool-cases, ℕ, ◌+◌, ◌%◌, ◌^◌, ◌≡◌, refl, sym, ap, ap₂, ◌∙◌, inl, inr, Bool,
  true, false, ◌&&◌, Option, none, some, List, [], ◌∷◌, ◌++◌, map,
}
use lyp_lyl.UnicastService.Contracts.{Kind, announces, syncs, Client}

-- A message to one client, with its sequence number.
pub record Transmission : Type 0 where
  pub to : ℕ
  pub kind : Kind
  pub seqnum : ℕ

-- `sends` is whether port_tx_announce or port_tx_sync succeeds. The answer is false for -1.
module _ (sends : Transmission → Bool) where
  abbrev pub announcing : Client → Client × (List Transmission × Bool)
  announcing c =
      let m : Transmission = record { to = c.addr; kind = announces; seqnum = c.announce_seqnum } in
      if c.announce
      then (
        record c { announce_seqnum = (c.announce_seqnum + 1) % 2 ^ 16 },
        ((if sends m then m ∷ [] else []), sends m),
      )
      else (c, ([], true))

  abbrev pub syncing : Client → Client × (List Transmission × Bool)
  syncing c =
      let m : Transmission = record { to = c.addr; kind = syncs; seqnum = c.sync_seqnum } in
      if c.sync
      then (
        record c { sync_seqnum = (c.sync_seqnum + 1) % 2 ^ 16 },
        ((if sends m then m ∷ [] else []), sends m),
      )
      else (c, ([], true))

  unfoldable pub clients_loop : ℕ → Bool → List Client → List Client × (List Transmission × Bool)
  clients_loop now err [] = ([], ([], err))
  clients_loop now err (c ∷ cs) =
      let expired = clients_loop now err cs in
      let a = announcing c in
      let b = syncing a.0 in
      let rest = clients_loop now (err && a.1.1 && b.1.1) cs in
      if ltb c.grant_tmo now
      then expired
      else (b.0 ∷ rest.0, (a.1.0 ++ (b.1.0 ++ rest.1.0), rest.1.1))

  -- `now` is none where clock_gettime fails.
  unfoldable pub unicast_service_clients :
      Option ℕ → List Client → List Client × (List Transmission × Bool)
  unicast_service_clients none cs = (cs, ([], false))
  unicast_service_clients (some now) cs = clients_loop now true cs

-- The clients whose grant has not run out.
abbrev pub current : ℕ → List Client → List Client
current now [] = []
current now (c ∷ cs) = let rest = current now cs in if ltb c.grant_tmo now then rest else c ∷ rest

-- What a client has a contract for, by kind.
abbrev pub message_of : Kind → Client → List Transmission
message_of announces c =
    if c.announce
    then (record { to = c.addr; kind = announces; seqnum = c.announce_seqnum }) ∷ []
    else []
message_of syncs c =
    if c.sync then (record { to = c.addr; kind = syncs; seqnum = c.sync_seqnum }) ∷ [] else []

abbrev pub messages_of : List Client → List Transmission
messages_of [] = []
messages_of (c ∷ cs) = message_of announces c ++ (message_of syncs c ++ messages_of cs)

abbrev pub numbered : Client → Client
numbered c = record c {
  announce_seqnum = if c.announce then (c.announce_seqnum + 1) % 2 ^ 16 else c.announce_seqnum;
  sync_seqnum = if c.sync then (c.sync_seqnum + 1) % 2 ^ 16 else c.sync_seqnum;
}

abbrev pub all_pass : Transmission → Bool
all_pass m = true

-- What a client is sent, and how its numbers go on, by its two contracts.
abbrev turn : Client → Client × List Transmission
turn c = let a = announcing all_pass c in let b = syncing all_pass a.0 in (b.0, a.1.0 ++ b.1.0)

turn-numbered :
    (announce sync : Bool) (c : Client)
    → let d = record c { announce = announce; sync = sync } in
      turn d ≡ (numbered d, message_of announces d ++ message_of syncs d)
turn-numbered true true c = refl
turn-numbered true false c = refl
turn-numbered false true c = refl
turn-numbered false false c = refl

append_assoc : (xs ys zs : List Transmission) → xs ++ (ys ++ zs) ≡ (xs ++ ys) ++ zs
append_assoc [] ys zs = refl
append_assoc (x ∷ xs) ys zs = ap (λ t. x ∷ t) (append_assoc xs ys zs)

clients_loop-current :
    (now : ℕ) (err : Bool) (cs : List Client)
    → ((clients_loop all_pass now err cs).0 ≡ map numbered (current now cs))
      × ((clients_loop all_pass now err cs).1.0 ≡ messages_of (current now cs))
unfolding clients_loop
clients_loop-current now err [] = (refl, refl)
clients_loop-current now err (c ∷ cs) =
    let a = announcing all_pass c in
    let b = syncing all_pass a.0 in
    let own = turn-numbered c.announce c.sync c in
    let rest = clients_loop-current now (err && a.1.1 && b.1.1) cs in
    elim (Bool-cases (ltb c.grant_tmo now)) [
      | inl e ↦ rw e (clients_loop-current now err cs)
      | inr e ↦ rw e (
        ap₂ (λ (x : Client) (xs : List Client). x ∷ xs)
            (ap (λ (t : Client × List Transmission). t.0) own) rest.0,
        append_assoc a.1.0 b.1.0 _
            ∙ (ap₂ (λ (xs ys : List Transmission). xs ++ ys)
                  (ap (λ (t : Client × List Transmission). t.1) own) rest.1
                ∙ sym (append_assoc (message_of announces c) (message_of syncs c) _)),
      )
    ]

-- Where the clock tells the time and everything can be sent: a client whose grant has run out is taken off the list, and each other one is sent exactly the messages that it has a contract for, announce messages first, under its own sequence numbers, of which the next ones are kept for it.
pub unicast_service_clients-current :
    (now : ℕ) (cs : List Client)
    → ((unicast_service_clients all_pass (some now) cs).0 ≡ map numbered (current now cs))
      × ((unicast_service_clients all_pass (some now) cs).1.0 ≡ messages_of (current now cs))
unfolding unicast_service_clients
unicast_service_clients-current now cs = clients_loop-current now true cs
