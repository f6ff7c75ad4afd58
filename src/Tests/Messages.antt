-- ===== src/Tests/Messages.antt =====
-- A Follow_Up message with a field, as bytes and as a message.

use lyp_lyl.Prelude.{
  ◌==◌, if◌then◌else◌, ==_iff, Bool-cases, length, replicate, ℕ, ◌+◌, ◌-◌, ◌*◌, ◌/◌, ◌%◌, ◌^◌, ◌≤◌,
  ◌<◌, ◌≡◌, refl, sym, subst, ◌↔◌, inl, inr, true, some, List, [], ◌∷◌, ◌++◌, arith,
}
use lyp_lyl.Wire.{to_bytes, of_bytes, Layout, size_of, read_fields, write_fields}
use lyp_lyl.Tlv.{
  org_post_recv, slave_delay_timing_data_post_revc, slave_rx_sync_timing_data_post_revc, Tlv,
}
use lyp_lyl.Tlv.Sizes.{slave_arrays_iff}
use lyp_lyl.Tlv.Management.{tlv_post_recv}
use lyp_lyl.Msg.{
  body_layout, suffix_len, suffix_post_recv, read_packet, suffix_pre_send, msg_pre_send, ByteOrder,
  turn_timestamp, msg_post_recv, PtpMessage, ok,
}
use lyp_lyl.Msg.Suffix.{Attachable}
use lyp_lyl.Msg.RoundTrip.{Sendable}
use lyp_lyl.Msg.Accepted.{Accepted}
use lyp_lyl.Msg.Order.{
  there, msg_post_recv-msg_pre_send, msg_post_recv-Accepted, IsByteOrder, Arrives,
}

-- An organization extension of six bytes, of no organization that is known.
abbrev extension : Tlv
extension = record { type = 3; value = 1 ∷ 2 ∷ 3 ∷ 0 ∷ 0 ∷ 7 ∷ [] }

abbrev follow_up : PtpMessage
follow_up = record {
  header = record {
    tsmt = 0x18;
    ver = 0x12;
    message_length = 54;
    domain_number = 0;
    reserved1 = 0;
    flags_0 = 0;
    flags_1 = 8;
    correction = 0x30000;
    reserved2 = 0;
    clock_identity = 0x0102030405060708;
    port_number = 1;
    sequence_id = 513;
    control = 2;
    log_message_interval = 0xfd;
  };
  body = 0 ∷ 1700000000 ∷ 999 ∷ [];
  tlvs = extension ∷ [];
}

abbrev follow_up_layout : Layout
follow_up_layout = 2 ∷ 4 ∷ 4 ∷ []

abbrev follow_up_bytes : List ℕ
follow_up_bytes =
    0x18 ∷ 0x12 ∷ 0 ∷ 54 ∷ 0 ∷ 0 ∷ 0 ∷ 8 ∷ 0 ∷ 0 ∷ 0 ∷ 0 ∷ 0 ∷ 3 ∷ 0 ∷ 0 ∷ 0 ∷ 0 ∷ 0 ∷ 0 ∷ 1 ∷ 2 ∷ 3
    ∷ 4 ∷ 5 ∷ 6 ∷ 7 ∷ 8 ∷ 0 ∷ 1 ∷ 2 ∷ 1 ∷ 2 ∷ 0xfd ∷ 0 ∷ 0 ∷ 0x65 ∷ 0x53 ∷ 0xf1 ∷ 0 ∷ 0 ∷ 0 ∷ 3
    ∷ 0xe7 ∷ 0 ∷ 3 ∷ 0 ∷ 6 ∷ 1 ∷ 2 ∷ 3 ∷ 0 ∷ 0 ∷ 7 ∷ []

follow_up_sent : msg_pre_send follow_up ≡ some follow_up_bytes
unfolding msg_pre_send body_layout write_fields to_bytes suffix_pre_send
follow_up_sent = refl

-- A little-endian host.
abbrev turn_2 : ℕ → ℕ
turn_2 x = x % 256 * 256 + x / 256

abbrev turn_4 : ℕ → ℕ
turn_4 x = ((x % 256 * 256 + x / 256 % 256) * 256 + x / 65536 % 256) * 256 + x / 16777216

abbrev little : ByteOrder
little w x = if w == 2 then turn_2 x else if w == 4 then turn_4 x else x

turn_2-bound : (x : ℕ) → x < 65536 → turn_2 x < 65536
turn_2-bound x h = omega arith

turn_2_twice : (x : ℕ) → x < 65536 → turn_2 (turn_2 x) ≡ x
turn_2_twice x h = omega arith

turn_4-bound : (x : ℕ) → x < 4294967296 → turn_4 x < 4294967296
turn_4-bound x h = omega arith

turn_4_within : (x y : ℕ) → x < 4294967296 → y ≡ turn_4 x → turn_4 y ≡ x
turn_4_within x y h e = omega arith

little-fits : (w x : ℕ) → x < 256 ^ w → little w x < 256 ^ w
little-fits w x h = elim (Bool-cases (w == 2)) [
  | inl e ↦
      let two = (==_iff w 2).0 e in
      rw e (
        subst (λ n. turn_2 x < 256 ^ n) (sym two) (turn_2-bound x (subst (λ n. x < 256 ^ n) two h)))
  | inr e ↦ elim (Bool-cases (w == 4)) [
    | inl e' ↦
        let four = (==_iff w 4).0 e' in
        rw (e, e')
          (subst (λ n. turn_4 x < 256 ^ n) (sym four)
            (turn_4-bound x (subst (λ n. x < 256 ^ n) four h)))
    | inr e' ↦ rw (e, e') h
  ]
]

little-twice : (w x : ℕ) → x < 256 ^ w → little w (little w x) ≡ x
little-twice w x h = elim (Bool-cases (w == 2)) [
  | inl e ↦ rw e (turn_2_twice x (subst (λ n. x < 256 ^ n) ((==_iff w 2).0 e) h))
  | inr e ↦ elim (Bool-cases (w == 4)) [
    | inl e' ↦
        rw (e, e')
          (turn_4_within x (turn_4 x) (subst (λ n. x < 256 ^ n) ((==_iff w 4).0 e') h) refl)
    | inr e' ↦ rw (e, e') refl
  ]
]

little-IsByteOrder : IsByteOrder little
little-IsByteOrder = record { fits = little-fits; twice = little-twice }

-- The Follow_Up message as it arrives there.
abbrev follow_up_there : PtpMessage
follow_up_there = record follow_up { body = 0 ∷ 0x00f15365 ∷ 0xe7030000 ∷ [] }

follow_up_received : msg_post_recv little follow_up_bytes ≡ ok follow_up_there
unfolding msg_post_recv turn_timestamp read_packet body_layout read_fields of_bytes suffix_post_recv
    suffix_len size_of tlv_post_recv org_post_recv
follow_up_received = refl

extension-Attachable : Attachable extension
unfolding tlv_post_recv org_post_recv
extension-Attachable = record {
  type = omega arith;
  short = omega arith;
  even = refl;
  bytes = omega arith;
  accepted = refl;
}

follow_up-Sendable : Sendable follow_up follow_up_layout
unfolding body_layout size_of suffix_len
follow_up-Sendable = record {
  header = omega arith;
  version = refl;
  known = refl;
  body = omega arith;
  tlvs = (extension-Attachable, tt);
  size = refl;
}

msg_post_recv-msg_pre_send_example :
    (bs : List ℕ) × ((msg_pre_send follow_up ≡ some bs)
      × ((length bs ≡ 54)
          × ((m' : PtpMessage) × ((msg_post_recv little (bs ++ (0 ∷ 0 ∷ [])) ≡ ok m')
                × Arrives little follow_up m'))))
msg_post_recv-msg_pre_send_example =
    msg_post_recv-msg_pre_send little little-IsByteOrder follow_up follow_up_layout (0 ∷ 0 ∷ [])
      follow_up-Sendable (omega arith)

msg_post_recv-Accepted_example :
    (layout : Layout) × Accepted follow_up_bytes
      (there little little-IsByteOrder follow_up_there)
      layout
msg_post_recv-Accepted_example =
    msg_post_recv-Accepted little little-IsByteOrder follow_up_bytes follow_up_there (omega arith)
      follow_up_received

abbrev zeros : List ℕ
zeros = replicate 40 0

slave_arrays_iff_test :
    ((slave_delay_timing_data_post_revc (zeros) ≡ true)
      ↔ ((10 ≤ length (zeros)) × ((length (zeros) - 10) % 30 ≡ 0)))
    × ((slave_rx_sync_timing_data_post_revc (zeros) ≡ true)
        ↔ ((10 ≤ length (zeros)) × ((length (zeros) - 10) % 34 ≡ 0)))
slave_arrays_iff_test = slave_arrays_iff (zeros) (omega arith)
