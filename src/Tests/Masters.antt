-- ===== src/Tests/Masters.antt =====
-- port.c: foreign masters that a port hears.

use lyp_lyl.Prelude.{
  ltb, ℕ, ◌≡◌, refl, sym, ◌∙◌, true, false, Option, none, some, List, [], ◌∷◌, arith,
}
use lyp_lyl.Prelude.Int.{sub_ℕ, ltb_ℤ, ℤ, pos}
use lyp_lyl.Tmv.{Timespec}
use lyp_lyl.Fsm.{slave}
use lyp_lyl.Port.Foreign.{
  announce_compare, announce_to_dataset, announce_timeout, msg_current, trim, drop_old, fc_prune,
  newest, hear_best, on_sender, update_current_master, process_announce, best_loop,
  port_compute_best, Announce, ClockDataset, ForeignClock, Limits,
}
use lyp_lyl.Port.Foreign.Invariant.{process_announce-IsValid, Tidy, IsValid}
use lyp_lyl.Port.Foreign.Best.{contenders, IsBest, port_compute_best-IsBest, IsStrict}
use lyp_lyl.Port.Foreign.Kept.{port_compute_best-IsValid}

abbrev second : ℕ → Timespec
second n = record { tv_sec = n; tv_nsec = 0 }

-- The announce message number `n` of a clock, one each second.
abbrev announced : ℕ → ℕ → ℕ → Announce
announced source priority1 n = record {
  source = source;
  host = second n;
  log_message_interval = pos 0;
  priority1 = priority1;
  clock_class = 6;
  clock_accuracy = 33;
  variance = 20061;
  priority2 = 128;
  grandmaster = source;
  steps_removed = 0;
}

abbrev heard_twice : ℕ → ℕ → ForeignClock
heard_twice source priority1 = record {
  sender = source;
  messages = announced source priority1 11 ∷ announced source priority1 12 ∷ [];
  n_messages = 2;
  dataset = none;
}

abbrev two_masters : List ForeignClock
two_masters = heard_twice 7 128 ∷ heard_twice 9 100 ∷ []

heard_twice-Tidy : (source priority1 : ℕ) → Tidy (heard_twice source priority1)
heard_twice-Tidy source priority1 = record {
  counted = refl;
  few = omega arith;
  own = (refl, (refl, tt));
}

two_masters-IsValid : IsValid two_masters
two_masters-IsValid = record {
  tidy = (heard_twice-Tidy 7 128, (heard_twice-Tidy 9 100, tt));
  distinct = ((omega arith, tt), (tt, tt));
}

abbrev by_priority1 : ClockDataset → ClockDataset → ℤ
by_priority1 d e = sub_ℕ e.priority1 d.priority1

difference_sign : (a b : ℕ) → ltb_ℤ (pos 0) (sub_ℕ a b) ≡ ltb b a
difference_sign a b = ground arith

by_priority1-IsStrict : IsStrict by_priority1
by_priority1-IsStrict = record {
  irreflexive = λ d. rw (difference_sign d.priority1 d.priority1) (ground arith);
  transitive = λ d e f h k.
      let h' : ltb d.priority1 e.priority1 ≡ true =
        sym (difference_sign e.priority1 d.priority1) ∙ h in
      let k' : ltb e.priority1 f.priority1 ≡ true =
        sym (difference_sign f.priority1 e.priority1) ∙ k in
      rw (difference_sign f.priority1 d.priority1) (ground arith);
}

abbrev limits : Limits
limits = record { max_steps_removed = 255; clock_class_threshold = 248 }

process_announce-IsValid_example :
    IsValid
      (process_announce limits slave true (second 14) (some 7) two_masters (announced 7 90 14)).0
process_announce-IsValid_example =
    process_announce-IsValid limits slave true (second 14) (some 7) two_masters (announced 7 90 14)
      two_masters-IsValid

port_compute_best-IsValid_test :
    IsValid (port_compute_best by_priority1 1 5 (second 13) false two_masters).0
port_compute_best-IsValid_test =
    port_compute_best-IsValid by_priority1 1 5 (second 13) false two_masters two_masters-IsValid

port_compute_best-IsBest_example :
    IsBest by_priority1 1 5
      (second 13)
      (contenders by_priority1 1 5 (second 13) two_masters)
      (port_compute_best by_priority1 1 5 (second 13) false two_masters).1
port_compute_best-IsBest_example =
    port_compute_best-IsBest by_priority1 1 5 (second 13) by_priority1-IsStrict two_masters
      (refl, (refl, tt))

-- The second master is the better one.
abbrev sender_of : Option ForeignClock → Option ℕ
sender_of none = none
sender_of (some fc) = some fc.sender

second_is_best :
    sender_of (port_compute_best by_priority1 1 5 (second 13) false two_masters).1 ≡ some 9
unfolding port_compute_best best_loop newest fc_prune trim drop_old msg_current announce_timeout
    announce_to_dataset
second_is_best = refl

-- The first master's priority is new.
news_of_the_best :
    (process_announce limits slave true (second 14) (some 7) two_masters (announced 7 90 14)).1
    ≡ true
unfolding process_announce update_current_master on_sender hear_best newest fc_prune trim drop_old
    msg_current announce_timeout announce_compare
news_of_the_best = refl
