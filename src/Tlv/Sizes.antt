-- ===== src/Tlv/Sizes.antt =====
-- The fields of timing data of the slave hold whole records.
use lyp_lyl.Prelude.{
  length, ℕ, ◌-◌, ◌%◌, ◌^◌, ◌≤◌, ◌<◌, ◌≡◌, refl, ap, ◌↔◌, ◌⊎◌, inl, inr, true, false, not, List,
  arith,
}
use lyp_lyl.Tlv.{
  tlv_array_invalid, slave_delay_timing_data_post_revc, slave_rx_sync_timing_data_post_revc,
}

-- A field shorter than its base wraps the count around; the record's size does not divide what
-- comes out, so such a field is refused.
array_iff :
    (v : List ℕ) (item : ℕ)
    → length v < 2 ^ 16
    → (item ≡ 30) ⊎ (item ≡ 34)
    → (tlv_array_invalid v 10 item ≡ false) ↔ ((10 ≤ length v) × ((length v - 10) % item ≡ 0))
unfolding tlv_array_invalid
array_iff v item h (inl e) = rw e (ground arith, ground arith)
array_iff v item h (inr e) = rw e (ground arith, ground arith)

-- A field of records of the slave's timing data is accepted exactly when a whole number of records
-- follows the port identity of 10 bytes. The length is an unsigned number of 16 bits.
pub slave_arrays_iff :
    (v : List ℕ)
    → length v < 2 ^ 16
    → ((slave_delay_timing_data_post_revc v ≡ true)
        ↔ ((10 ≤ length v) × ((length v - 10) % 30 ≡ 0)))
      × ((slave_rx_sync_timing_data_post_revc v ≡ true)
          ↔ ((10 ≤ length v) × ((length v - 10) % 34 ≡ 0)))
unfolding slave_delay_timing_data_post_revc slave_rx_sync_timing_data_post_revc
slave_arrays_iff v h =
    let delay = array_iff v 30 h (inl refl) in
    let sync = array_iff v 34 h (inr refl) in
    (
      (λ e. delay.0 (ground (arith, e)), λ e. ap not (delay.1 e)),
      (λ e. sync.0 (ground (arith, e)), λ e. ap not (sync.1 e)),
    )
