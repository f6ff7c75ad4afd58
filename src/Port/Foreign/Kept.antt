-- ===== src/Port/Foreign/Kept.antt =====
-- The choice of the best foreign master keeps the list of foreign masters in order.

use lyp_lyl.Prelude.{
  ltb, Bool-cases, All, ℕ, ◌≡◌, refl, sym, subst, inl, inr, Bool, true, false, Option, none, some,
  List, [], ◌∷◌, arith,
}
use lyp_lyl.Prelude.Int.{ℤ}
use lyp_lyl.Tmv.{Timespec}
use lyp_lyl.Port.Foreign.{
  foreign_master_threshold, announce_to_dataset, fc_clear, newest, appraise, better, compete,
  consider, best_loop, port_compute_best, Announce, ClockDataset, ForeignClock,
}
use lyp_lyl.Port.Foreign.Invariant.{senders, Distinct, fc_prune-Tidy, sender_kept, Tidy, IsValid}

module _ (dscmp : ClockDataset → ClockDataset → ℤ) (local_priority port_identity : ℕ)
    (now : Timespec) where
  -- The clock is in order, and is still that of the sender.
  abbrev OfSender : ℕ → ForeignClock → Type 0
  OfSender sender fc = Tidy fc × (fc.sender ≡ sender)

  fc_clear-OfSender :
      (sender : ℕ) (fc : ForeignClock) → OfSender sender fc → OfSender sender (fc_clear fc)
  unfolding fc_clear
  fc_clear-OfSender sender fc h = (record { counted = refl; few = omega arith; own = tt }, h.1)

  compete-OfSender :
      (sender : ℕ) (fc : ForeignClock) (best : Option ForeignClock)
      → OfSender sender fc
      → OfSender sender (compete dscmp local_priority port_identity now fc best).0
  compete-OfSender sender fc none h = h
  compete-OfSender sender fc (some best) h =
      elim (Bool-cases (better dscmp local_priority port_identity now fc.dataset best.dataset)) [
        | inl e ↦ rw e h
        | inr e ↦ rw e (fc_clear-OfSender sender fc h)
      ]

  consider-OfSender :
      (fc : ForeignClock) (o : Option Announce) (best : Option ForeignClock)
      → Tidy fc
      → OfSender fc.sender (consider dscmp local_priority port_identity now fc o best).0
  consider-OfSender fc none best t = (t, refl)
  consider-OfSender fc (some m) best t =
      let fc' = appraise dscmp local_priority port_identity now fc m in
      let h : OfSender fc.sender fc' =
        let dated = record fc {
          dataset = some (announce_to_dataset m local_priority port_identity);
        } in
        (
          (fc_prune-Tidy now dated (record { counted = t.counted; few = t.few; own = t.own })).0,
          sender_kept now m dated,
        ) in
      elim (Bool-cases (ltb fc'.n_messages foreign_master_threshold)) [
        | inl e ↦ rw e h
        | inr e ↦ rw e (compete-OfSender fc.sender fc' best h)
      ]

  loop_kept :
      (fcs : List ForeignClock) (best : Option ForeignClock)
      → All Tidy fcs
      → All Tidy (best_loop dscmp local_priority port_identity now fcs best).0
        × (senders (best_loop dscmp local_priority port_identity now fcs best).0 ≡ senders fcs)
  unfolding best_loop
  loop_kept [] best h = (tt, refl)
  loop_kept (fc ∷ fcs) best h =
      let looked = consider dscmp local_priority port_identity now fc (newest fc.messages) best in
      let one = consider-OfSender fc (newest fc.messages) best h.0 in
      let rest = loop_kept fcs looked.1 h.1 in ((one.0, rest.0), cc (one.1, rest.1))

  -- The choice of the best foreign master, whatever it is, leaves the clocks of the list distinct, each with the exact count of its messages, at most three, all of them from it.
  pub port_compute_best-IsValid :
      (master_only : Bool) (fcs : List ForeignClock)
      → IsValid fcs
      → IsValid (port_compute_best dscmp local_priority port_identity now master_only fcs).0
  unfolding port_compute_best
  port_compute_best-IsValid true fcs v = v
  port_compute_best-IsValid false fcs v =
      let kept = loop_kept fcs none v.tidy in
      record { tidy = kept.0; distinct = subst Distinct (sym kept.1) v.distinct }
