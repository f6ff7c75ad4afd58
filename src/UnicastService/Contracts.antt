-- ===== src/UnicastService/Contracts.antt =====
-- unicast_service.c: the contracts of the clients. Of the bits of message_types only those for
-- announce and sync messages are ever set, which are Bools here. An interval is in a list, with
-- its clients, and in the queue, with its times; its times change only while it is in neither the
-- queue nor a comparison. Addresses and identities are numbers.
-- The message types that have a contract.

use lyp_lyl.Prelude.{
  ltb, ◌==◌, if◌then◌else◌, ℕ, ◌+◌, Bool, true, false, not, ◌&&◌, ◌||◌, Option, none, some, List,
  [], ◌∷◌,
}
use lyp_lyl.Prelude.Int.{eq_ℤ, ℤ, pos, negsuc}
use lyp_lyl.Tmv.{Timespec}
use lyp_lyl.Pqueue.{pqueue_insert, Pqueue}
use lyp_lyl.UnicastService.{compare_timeout, initialize_interval, ServiceInterval}

pub data Kind : Type 0 where
  announces syncs : Kind

abbrev pub same_kind : Kind → Kind → Bool
same_kind announces announces = true
same_kind syncs syncs = true
same_kind j k = false

-- struct unicast_client_address
pub record Client : Type 0 where
  pub port_identity : ℕ
  pub announce_seqnum : ℕ
  pub sync_seqnum : ℕ
  pub announce : Bool
  pub sync : Bool
  pub addr : ℕ
  pub grant_tmo : ℕ

pub record Interval : Type 0 where
  pub log_period : ℤ
  pub clients : List Client

pub record UnicastService : Type 0 where
  pub intervals : List Interval
  pub queue : Pqueue ServiceInterval

pub data ServiceAnswer : Type 0 where
  granted denied : ServiceAnswer

-- What a request asks for, besides the message type.
pub record Request : Type 0 where
  pub address : ℕ
  pub identity : ℕ
  pub log_period : ℤ
  pub duration : ℕ

abbrev pub wants : Kind → Client → Bool
wants announces c = c.announce
wants syncs c = c.sync

abbrev pub set_kind : Kind → Bool → Client → Client
set_kind announces b c = record c { announce = b }
set_kind syncs b c = record c { sync = b }

abbrev pub is_idle : Client → Bool
is_idle c = not (c.announce || c.sync)

-- `now` is none where clock_gettime fails.
unfoldable pub unicast_service_extend : Option ℕ → ℕ → Client → Client
unicast_service_extend none duration c = c
unicast_service_extend (some now) duration c =
    let tmo = now + duration in if ltb c.grant_tmo tmo then record c { grant_tmo = tmo } else c

abbrev pub after_client : Client → Option (List Client) → Option (List Client)
after_client c none = none
after_client c (some cs) = some (c ∷ cs)

module _ (now : Option ℕ) (kind : Kind) (r : Request) where
  -- The inner loop at the interval of interest; `none` where no contract is there.
  unfoldable pub renew : List Client → Option (List Client)
  renew [] = none
  renew (c ∷ cs) =
      let rest = after_client c (renew cs) in
      if c.addr == r.address && wants kind c
      then some (unicast_service_extend now r.duration c ∷ cs)
      else rest

  -- The inner loop at another interval.
  unfoldable pub clear_stale : List Client → List Client
  clear_stale [] = []
  clear_stale (c ∷ cs) =
      let rest = clear_stale cs in
      let c' = set_kind kind false c in
      if c.addr == r.address then if is_idle c' then rest else c' ∷ rest else c ∷ rest

  -- The outer loop. The answer is true where it returns at once.
  abbrev pub renew_at :
      Interval → Option (List Client) → List Interval → List Interval × Bool → List Interval × Bool
  renew_at i none later rest = (i ∷ rest.0, rest.1)
  renew_at i (some cs) later rest = (record i { clients = cs } ∷ later, true)

  unfoldable pub scan : List Interval → List Interval × Bool
  scan [] = ([], false)
  scan (i ∷ later) =
      let rest = scan later in
      if eq_ℤ i.log_period r.log_period
      then renew_at i (renew i.clients) later rest
      else (record i { clients = clear_stale i.clients } ∷ rest.0, rest.1)

  abbrev pub use_here : Client → List Client → Option (List Client) → Option (List Client)
  use_here c cs (some cs') = some (c ∷ cs')
  use_here c cs none =
      if c.addr == r.address
      then some (unicast_service_extend now r.duration (set_kind kind true c) ∷ cs)
      else none

  -- The record of the client in the interval of interest: the last one that the loop has seen.
  unfoldable pub use_client : List Client → Option (List Client)
  use_client [] = none
  use_client (c ∷ cs) = use_here c cs (use_client cs)

  abbrev pub use_at : Interval → List Interval → Option (List Client) → Option (List Interval)
  use_at i later none = none
  use_at i later (some cs) = some (record i { clients = cs } ∷ later)

  abbrev pub or_at :
      Interval
      → List Interval
      → Option (List Interval)
      → Option (List Interval)
      → Option (List Interval)
  or_at i later (some later') here = some (i ∷ later')
  or_at i later none here = here

  -- What `change` makes of the last interval of interest.
  unfoldable pub at_interval :
      (List Client → Option (List Client)) → List Interval → Option (List Interval)
  at_interval change [] = none
  at_interval change (i ∷ later) =
      or_at i later (at_interval change later)
        (if eq_ℤ i.log_period r.log_period then use_at i later (change i.clients) else none)

  -- What calloc gives, with the identity and the address.
  abbrev pub blank_client : Client
  blank_client = record {
    port_identity = r.identity;
    announce_seqnum = 0;
    sync_seqnum = 0;
    announce = false;
    sync = false;
    addr = r.address;
    grant_tmo = 0;
  }

  abbrev pub new_client : Client
  new_client = unicast_service_extend now r.duration (set_kind kind true blank_client)

  -- A new interval with the new client, and what inserting it into the queue answered.
  abbrev pub enqueue :
      Bool → Pqueue ServiceInterval × Bool → UnicastService → UnicastService × ServiceAnswer
  enqueue false queued s = (s, denied)
  enqueue true (q, true) s = (
    record {
      intervals = (record { log_period = r.log_period; clients = new_client ∷ [] }) ∷ s.intervals;
      queue = q;
    },
    granted,
  )
  enqueue true (q, false) s = (record s { queue = q }, denied)

  abbrev pub into_interval :
      Bool
      → Pqueue ServiceInterval × Bool
      → UnicastService
      → Option (List Interval)
      → UnicastService × ServiceAnswer
  into_interval room_interval queued s (some is) = (record s { intervals = is }, granted)
  into_interval room_interval queued s none = enqueue room_interval queued s

  -- The answers of malloc and realloc, and the time at which a new interval begins.
  abbrev pub add_client :
      Bool → Bool → Bool → Timespec → UnicastService → UnicastService × ServiceAnswer
  add_client false room_interval grows start s = (s, denied)
  add_client true room_interval grows start s =
      into_interval room_interval
        (pqueue_insert compare_timeout grows s.queue (initialize_interval start r.log_period)) s
        (at_interval (λ cs. some (new_client ∷ cs)) s.intervals)

  -- After the loop over the intervals, with its early return, and the client's record if any.
  abbrev pub settle :
      Bool
      → Bool
      → Bool
      → Timespec
      → UnicastService
      → Bool
      → Option (List Interval)
      → UnicastService × ServiceAnswer
  settle room_client room_interval grows start s true used = (s, granted)
  settle room_client room_interval grows start s false (some is) =
      (record s { intervals = is }, granted)
  settle room_client room_interval grows start s false none =
      add_client room_client room_interval grows start s

  unfoldable pub add_contract :
      Bool → Bool → Bool → Timespec → UnicastService → UnicastService × ServiceAnswer
  add_contract room_client room_interval grows start s =
      let scanned = scan s.intervals in
      settle room_client room_interval grows start (record s { intervals = scanned.0 }) scanned.1
        (at_interval use_client scanned.0)

  -- The loops of unicast_service_remove, which return at the first contract.
  unfoldable pub remove_client : List Client → Option (List Client)
  remove_client [] = none
  remove_client (c ∷ cs) =
      let rest = after_client c (remove_client cs) in
      let c' = set_kind kind false c in
      if c.addr == r.address && wants kind c
      then some (if is_idle c' then cs else c' ∷ cs)
      else rest

  abbrev pub removed_at :
      Interval → List Interval → Option (List Client) → List Interval → List Interval
  removed_at i later none rest = i ∷ rest
  removed_at i later (some cs) rest = record i { clients = cs } ∷ later

  unfoldable pub remove_contract : List Interval → List Interval
  remove_contract [] = []
  remove_contract (i ∷ later) = removed_at i later (remove_client i.clients) (remove_contract later)

abbrev pub out_of_range : ℤ → Bool
out_of_range (pos n) = ltb 30 n
out_of_range (negsuc n) = ltb 30 (n + 1)

-- The switch by the message type, in which the types of responses need no contract.
unfoldable pub unicast_service_add :
    Bool
    → Bool
    → Bool
    → Timespec
    → Option ℕ
    → ℕ
    → Request
    → UnicastService
    → UnicastService × ServiceAnswer
unicast_service_add room_client room_interval grows start now mtype r s =
    let add = λ (kind : Kind).
      if out_of_range r.log_period
      then (s, denied)
      else add_contract now kind r room_client room_interval grows start s in
    if mtype == 0xb
    then add announces
    else if mtype == 0x0
    then add syncs
    else if mtype == 0x9 || mtype == 0x3
    then (s, granted)
    else (s, denied)

-- `maintain` is the flag CANCEL_UNICAST_MAINTAIN_REQUEST.
unfoldable pub unicast_service_remove : Bool → ℕ → Request → UnicastService → UnicastService
unicast_service_remove maintain mtype r s =
    let without =
      λ (kind : Kind). record s { intervals = remove_contract none kind r s.intervals } in
    if maintain
    then s
    else if mtype == 0xb
    then without announces
    else if mtype == 0x0
    then without syncs
    else s
