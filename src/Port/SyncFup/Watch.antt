-- ===== src/Port/SyncFup/Watch.antt =====
-- The watch of process_sync over the gaps between Sync messages.
use lyp_lyl.Prelude.{
  leb, if◌then◌else◌, Bool-cases, length, ℕ, zero, suc, ◌+◌, ◌-◌, ◌≡◌, refl, ap, ◌∙◌, inl, inr,
  true, false, List, [], ◌∷◌, arith,
}
use lyp_lyl.Tmv.{Tmv, tmv_is_zero}
use lyp_lyl.Port.SyncFup.{long_gap, watch_interval, Message, ClockCalls, Syncing}
use Prim.Native.Nat.{min}

-- Each message has a time stamp, and comes more than 500 ms after the one before.
abbrev pub Late : Tmv → List Message → Type 0
Late last [] = Unit
Late last (m ∷ ms) = (tmv_is_zero m.hwts ≡ false) × (long_gap last m.hwts ≡ true) × Late m.hwts ms

abbrev pub iterate : {A : Type 0} → (A → A) → ℕ → A → A
iterate f zero x = x
iterate f (suc n) x = iterate f n (f x)

module _ {C : Type 0} (k : ClockCalls C) where
  unfoldable pub watch_all : Syncing C → List Message → Syncing C
  watch_all p [] = p
  watch_all p (m ∷ ms) = watch_all (watch_interval k p m) ms

  late-step :
      (p : Syncing C) (m : Message)
      → tmv_is_zero p.last_sync_recv_time ≡ false
      → tmv_is_zero m.hwts ≡ false
      → long_gap p.last_sync_recv_time m.hwts ≡ true
      → watch_interval k p m ≡ record p {
        clock =
            if leb 5 (p.sync_interval_exceed_count + 1)
            then k.clock_request_servo_reset p.clock
            else p.clock;
        sync_interval_exceed_count = p.sync_interval_exceed_count + 1;
        last_sync_recv_time = m.hwts;
      }
  unfolding watch_interval
  late-step p m z z' g = rw z' (rw z (rw g refl))

  -- After Sync messages that all come late, from a port that has counted some late ones, the count
  -- has grown by their number, and the clock has been asked to reset its servo by each message
  -- that was at least the fifth late one in a row, and by no other.
  pub watch_all-Late :
      (p : Syncing C) (ms : List Message)
      → tmv_is_zero p.last_sync_recv_time ≡ false
      → Late p.last_sync_recv_time ms
      → ((watch_all p ms).sync_interval_exceed_count ≡ p.sync_interval_exceed_count + length ms)
        × ((watch_all p ms).clock
            ≡ iterate k.clock_request_servo_reset
                (min (length ms) (p.sync_interval_exceed_count + length ms - 4))
                p.clock)
  unfolding watch_all
  watch_all-Late p [] z h = (
    omega arith,
    let none_left : 0 ≡ min 0 (p.sync_interval_exceed_count + 0 - 4) = omega arith in
        ap (λ n. iterate k.clock_request_servo_reset n p.clock) none_left,
  )
  watch_all-Late p (m ∷ ms) z h =
      let c = p.sync_interval_exceed_count in
      let n = length ms in
      let q = record p {
        clock = if leb 5 (c + 1) then k.clock_request_servo_reset p.clock else p.clock;
        sync_interval_exceed_count = c + 1;
        last_sync_recv_time = m.hwts;
      } in
      let step : watch_interval k p m ≡ q = late-step p m z h.0 h.1 in
      let ih = watch_all-Late q ms h.0 h.2 in
      let ask = k.clock_request_servo_reset in
      let asked = λ (j : ℕ). iterate ask j p.clock in
      let counted : iterate ask (min n (c + 1 + n - 4)) q.clock
          ≡ asked (min (suc n) (c + suc n - 4)) =
        elim (Bool-cases (leb 5 (c + 1))) [
          | inl e ↦
              let all : min n (c + 1 + n - 4) ≡ n = ground arith in
              let more : suc n ≡ min (suc n) (c + suc n - 4) = ground arith in
              rw e (ap (λ j. iterate ask j (ask p.clock)) all ∙ ap asked more)
          | inr e ↦
              let same : min n (c + 1 + n - 4) ≡ min (suc n) (c + suc n - 4) = ground arith in
              rw e (ap asked same)
        ] in
      (
        ap (λ r. (watch_all r ms).sync_interval_exceed_count) step ∙ (ih.0 ∙ omega arith),
        ap (λ r. (watch_all r ms).clock) step ∙ (ih.1 ∙ counted),
      )
