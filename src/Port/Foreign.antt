-- ===== src/Port/Foreign.antt =====
-- port.c: the foreign masters of a port, from process_announce to port_compute_best. Each has the
-- queue of its announce messages; the list here begins with the oldest message, the tail of the
-- C queue. The references to the messages, which go with the queue, and what update_current_master
-- hands to the clock are left out.
pub mod Invariant
pub mod Best
pub mod Kept
use lyp_lyl.Prelude.{
  ltb, leb, ◌==◌, if◌then◌else◌, ℕ, ◌+◌, ◌-◌, ◌*◌, ◌/◌, ◌^◌, Bool, false, not, ◌&&◌, ◌||◌, Option,
  none, some, List, [], ◌∷◌, ◌++◌,
}
use lyp_lyl.Prelude.Int.{ltb_ℤ, ℤ, pos, negsuc}
use lyp_lyl.Fsm.{PortState, initializing, faulty, disabled, passive, uncalibrated, slave}
use lyp_lyl.Tmv.{Timespec}

-- What port.c reads of an announce message. Identities are numbers.
pub record Announce : Type 0 where
  pub source : ℕ
  pub host : Timespec
  pub log_message_interval : ℤ
  pub priority1 : ℕ
  pub clock_class : ℕ
  pub clock_accuracy : ℕ
  pub variance : ℕ
  pub priority2 : ℕ
  pub grandmaster : ℕ
  pub steps_removed : ℕ

-- struct dataset
pub record ClockDataset : Type 0 where
  pub priority1 : ℕ
  pub identity : ℕ
  pub clock_class : ℕ
  pub clock_accuracy : ℕ
  pub variance : ℕ
  pub priority2 : ℕ
  pub local_priority : ℕ
  pub steps_removed : ℕ
  pub sender : ℕ
  pub receiver : ℕ

-- struct foreign_clock
pub record ForeignClock : Type 0 where
  pub sender : ℕ
  pub messages : List Announce
  pub n_messages : ℕ
  pub dataset : Option ClockDataset

abbrev pub foreign_master_threshold : ℕ
foreign_master_threshold = 2

-- True where the messages differ: the bytes that memcmp compares hold these fields.
unfoldable pub announce_compare : Announce → Announce → Bool
announce_compare a b = not (
    a.priority1 == b.priority1
    && a.clock_class == b.clock_class
    && a.clock_accuracy == b.clock_accuracy
    && a.variance == b.variance
    && a.priority2 == b.priority2
    && a.grandmaster == b.grandmaster
    && a.steps_removed == b.steps_removed)

unfoldable pub announce_to_dataset : Announce → ℕ → ℕ → ClockDataset
announce_to_dataset m local_priority port_identity = record {
  priority1 = m.priority1;
  identity = m.grandmaster;
  clock_class = m.clock_class;
  clock_accuracy = m.clock_accuracy;
  variance = m.variance;
  priority2 = m.priority2;
  local_priority = local_priority;
  steps_removed = m.steps_removed;
  sender = m.source;
  receiver = port_identity;
}

abbrev pub host_ns : Timespec → ℕ
host_ns t = t.tv_sec * 1000000000 + t.tv_nsec

-- Four intervals, in nanoseconds.
unfoldable pub announce_timeout : ℤ → ℕ
announce_timeout (pos n) = if leb 31 n then 2 ^ 63 - 1 else 4 * 2 ^ n * 1000000000
announce_timeout (negsuc n) = if leb 30 n then 0 else 4 * 1000000000 / 2 ^ (n + 1)

-- The times are not negative, and the difference of two does not overflow.
unfoldable pub msg_current : Announce → Timespec → Bool
msg_current m now = ltb (host_ns now) (host_ns m.host + announce_timeout m.log_message_interval)

unfoldable pub fc_clear : ForeignClock → ForeignClock
fc_clear fc = record fc { messages = []; n_messages = 0 }

-- The two loops of fc_prune.
unfoldable pub trim : List Announce → ℕ → List Announce × ℕ
trim [] n = ([], n)
trim (m ∷ ms) n =
    let rest = trim ms (n - 1) in if ltb foreign_master_threshold n then rest else (m ∷ ms, n)

unfoldable pub drop_old : Timespec → List Announce → ℕ → List Announce × ℕ
drop_old now [] n = ([], n)
drop_old now (m ∷ ms) n =
    let rest = drop_old now ms (n - 1) in if msg_current m now then (m ∷ ms, n) else rest

unfoldable pub fc_prune : Timespec → ForeignClock → ForeignClock
fc_prune now fc =
    let trimmed = trim fc.messages fc.n_messages in
    let kept = drop_old now trimmed.0 trimmed.1 in
    record fc { messages = kept.0; n_messages = kept.1 }

-- The head of the C queue.
unfoldable pub newest : List Announce → Option Announce
newest [] = none
newest (m ∷ []) = some m
newest (m ∷ m' ∷ ms) = newest (m' ∷ ms)

-- Whether the message differs from the one before it.
abbrev pub differs : Announce → Option Announce → Bool
differs m none = false
differs m (some last) = announce_compare m last

abbrev pub hear : ForeignClock → Announce → ForeignClock
hear fc m = record fc { messages = fc.messages ++ (m ∷ []); n_messages = fc.n_messages + 1 }

abbrev pub changed : ForeignClock → Announce → Bool
changed fc m = if ltb 1 (fc.n_messages + 1) then differs m (newest fc.messages) else false

-- The part of add_foreign_master for a known sender.
unfoldable pub hear_again : Timespec → ForeignClock → Announce → ForeignClock × Bool
hear_again now fc m =
    let pruned = fc_prune now fc in
    (hear pruned m, pruned.n_messages == foreign_master_threshold - 1 || changed pruned m)

-- The part of update_current_master for the best master.
unfoldable pub hear_best : Timespec → ForeignClock → Announce → ForeignClock × Bool
hear_best now fc m = let pruned = fc_prune now fc in (hear pruned m, changed pruned m)

abbrev pub after_head :
    ForeignClock → Option (List ForeignClock × Bool) → Option (List ForeignClock × Bool)
after_head fc none = none
after_head fc (some (fcs, b)) = some (fc ∷ fcs, b)

-- The list with what `f` makes of the first clock of the sender.
unfoldable pub on_sender :
    ℕ → (ForeignClock → ForeignClock × Bool) → List ForeignClock → Option (List ForeignClock × Bool)
on_sender source f [] = none
on_sender source f (fc ∷ fcs) =
    let others = after_head fc (on_sender source f fcs) in
    let heard = f fc in if source == fc.sender then some (heard.0 ∷ fcs, heard.1) else others

abbrev pub new_clock : ℕ → ForeignClock
new_clock source = record { sender = source; messages = []; n_messages = 0; dataset = none }

-- What becomes of the list where the sender is not in it. `welcome` is false where a new sender is
-- refused: it is not in the table of unicast masters, or malloc fails.
abbrev pub or_new :
    Bool → ℕ → List ForeignClock → Option (List ForeignClock × Bool) → List ForeignClock × Bool
or_new welcome source fcs (some answer) = answer
or_new welcome source fcs none = (if welcome then new_clock source ∷ fcs else fcs, false)

unfoldable pub add_foreign_master :
    Bool → Timespec → List ForeignClock → Announce → List ForeignClock × Bool
add_foreign_master welcome now fcs m =
    or_new welcome m.source fcs (on_sender m.source (λ fc. hear_again now fc m) fcs)

-- `best` is the sender of the best master, which is in the list.
unfoldable pub update_current_master :
    Bool → Timespec → Option ℕ → List ForeignClock → Announce → List ForeignClock × Bool
update_current_master welcome now none fcs m = add_foreign_master welcome now fcs m
update_current_master welcome now (some best) fcs m =
    if m.source == best
    then or_new false m.source fcs (on_sender best (λ fc. hear_best now fc m) fcs)
    else add_foreign_master welcome now fcs m

-- What process_announce asks of the clock.
pub record Limits : Type 0 where
  pub max_steps_removed : ℕ
  pub clock_class_threshold : ℕ

abbrev pub by_state :
    PortState → Bool → Timespec → Option ℕ → List ForeignClock → Announce → List ForeignClock × Bool
by_state initializing welcome now best fcs m = (fcs, false)
by_state faulty welcome now best fcs m = (fcs, false)
by_state disabled welcome now best fcs m = (fcs, false)
by_state passive welcome now best fcs m = update_current_master welcome now best fcs m
by_state uncalibrated welcome now best fcs m = update_current_master welcome now best fcs m
by_state slave welcome now best fcs m = update_current_master welcome now best fcs m
by_state s welcome now best fcs m = add_foreign_master welcome now fcs m

unfoldable pub process_announce :
    Limits
    → PortState
    → Bool
    → Timespec
    → Option ℕ
    → List ForeignClock
    → Announce
    → List ForeignClock × Bool
process_announce limits state welcome now best fcs m =
    if leb limits.max_steps_removed m.steps_removed
    then (fcs, false)
    else if ltb limits.clock_class_threshold m.clock_class
    then (fcs, false)
    else by_state state welcome now best fcs m

-- port_compute_best. The comparison is positive where the first data set is better.
module _ (dscmp : ClockDataset → ClockDataset → ℤ) (local_priority port_identity : ℕ)
    (now : Timespec) where
  -- The clock with the data set of its newest message, and pruned.
  abbrev pub appraise : ForeignClock → Announce → ForeignClock
  appraise fc m =
      fc_prune now
        (record fc { dataset = some (announce_to_dataset m local_priority port_identity) })

  abbrev pub better : Option ClockDataset → Option ClockDataset → Bool
  better none e = false
  better (some d) none = false
  better (some d) (some e) = ltb_ℤ (pos 0) (dscmp d e)

  -- The clock and the best one after it was looked at.
  abbrev pub compete : ForeignClock → Option ForeignClock → ForeignClock × Option ForeignClock
  compete fc none = (fc, some fc)
  compete fc (some best) =
      if better fc.dataset best.dataset then (fc, some fc) else (fc_clear fc, some best)

  abbrev pub consider :
      ForeignClock → Option Announce → Option ForeignClock → ForeignClock × Option ForeignClock
  consider fc none best = (fc, best)
  consider fc (some m) best =
      let fc' = appraise fc m in
      if ltb fc'.n_messages foreign_master_threshold then (fc', best) else compete fc' best

  unfoldable pub best_loop :
      List ForeignClock → Option ForeignClock → List ForeignClock × Option ForeignClock
  best_loop [] best = ([], best)
  best_loop (fc ∷ fcs) best =
      let looked = consider fc (newest fc.messages) best in
      let rest = best_loop fcs looked.1 in (looked.0 ∷ rest.0, rest.1)

  unfoldable pub port_compute_best :
      Bool → List ForeignClock → List ForeignClock × Option ForeignClock
  port_compute_best master_only fcs = if master_only then (fcs, none) else best_loop fcs none
