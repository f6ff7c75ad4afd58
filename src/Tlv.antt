-- ===== src/Tlv.antt =====
-- tlv.c: which type-length-value fields a receiver accepts. The byte swaps within a value are
-- left out; a multi-byte field is read as the number that its bytes spell. Sizes of structs are
-- written as numbers.
pub mod Sizes
pub mod Management
use lyp_lyl.Prelude.{
  ltb, ◌==◌, if◌then◌else◌, length, get_or, take, drop, ℕ, ◌+◌, ◌-◌, ◌*◌, ◌/◌, ◌%◌, ◌^◌, Bool, true,
  false, not, ◌&&◌, ◌||◌, List,
}
use lyp_lyl.Wire.{of_bytes}

pub record Tlv : Type 0 where
  pub type : ℕ
  pub value : List ℕ

-- The bytes at an offset of a value. What lies behind the value is not the field's, and is 0 here.
abbrev pub u8 : List ℕ → ℕ → ℕ
u8 v off = get_or v off 0

abbrev pub u16 : List ℕ → ℕ → ℕ
u16 v off = of_bytes (take 2 (drop off v))

-- TLV_LENGTH_INVALID, by the size of the struct.
abbrev pub tlv_length_invalid : List ℕ → ℕ → Bool
tlv_length_invalid v size = ltb (length v) (size - 4)

-- size_t has 64 bits, and the subtraction wraps around.
unfoldable pub tlv_array_count : List ℕ → ℕ → ℕ → ℕ
tlv_array_count v base_size item_size = (length v + 2 ^ 64 - base_size) % 2 ^ 64 / item_size

unfoldable pub tlv_array_invalid : List ℕ → ℕ → ℕ → Bool
unfolding tlv_array_count
tlv_array_invalid v base_size item_size =
    let n_items = tlv_array_count v base_size item_size in
    not (length v == (base_size + n_items * item_size) % 2 ^ 64)

-- The answers are true for 0 and false for -EBADMSG.
unfoldable pub alttime_offset_post_recv : List ℕ → Bool
alttime_offset_post_recv v = not (ltb (length v) (20 + u8 v 15 - 4))

unfoldable pub nsm_resp_post_recv : List ℕ → Bool
nsm_resp_post_recv v =
    let expected = λ (n : ℕ). u16 v 4 == n && length v == 10 + 64 + u16 v 4 - 4 in
    if ltb (length v) (10 + 64 - 4)
    then false
    else if u16 v 2 == 1
    then expected 4
    else if u16 v 2 == 2
    then expected 16
    else if u16 v 2 == 3
    then expected 6
    else false

abbrev pub has_id : List ℕ → ℕ → ℕ → ℕ → Bool
has_id v a b c = u8 v 0 == a && u8 v 1 == b && u8 v 2 == c

-- ieee8021_id, itu_t_id and ieeec37_238_id differ, so at most one of the tests holds.
unfoldable pub org_post_recv : List ℕ → Bool
org_post_recv v =
    let size = length v + 4 in
    let plain = u8 v 3 == 0 && u8 v 4 == 0 in
    let kind = u8 v 5 in
    if has_id v 0x00 0x80 0xc2 && plain
    then if kind == 1 then size == 32 else if kind == 2 then size == 16 else true
    else if has_id v 0x00 0x19 0xa7 && plain
    then if kind == 2 then size == 22 else true
    else if has_id v 0x1c 0x12 0x9d && plain
    then if kind == 1 || kind == 2 then size == 22 else true
    else true

unfoldable pub slave_delay_timing_data_post_revc : List ℕ → Bool
slave_delay_timing_data_post_revc v = not (tlv_array_invalid v 10 30)

unfoldable pub slave_rx_sync_timing_data_post_revc : List ℕ → Bool
slave_rx_sync_timing_data_post_revc v = not (tlv_array_invalid v 10 34)

unfoldable pub auth_post_recv : List ℕ → Bool
auth_post_recv v = not (ltb (length v) 10)

unfoldable pub unicast_message_type_valid : ℕ → Bool
unicast_message_type_valid message_type =
    let kind = message_type / 16 in kind == 0xb || kind == 0x0 || kind == 0x9 || kind == 0x3

-- By the size of the struct that the TLV's type names.
abbrev pub negotiation : List ℕ → ℕ → Bool
negotiation v size =
    if tlv_length_invalid v size then false else unicast_message_type_valid (u8 v 0)

unfoldable pub unicast_negotiation_post_recv : ℕ → List ℕ → Bool
unicast_negotiation_post_recv type v =
    if type == 4
    then negotiation v 10
    else if type == 5
    then negotiation v 12
    else if type == 6 || type == 7
    then negotiation v 6
    else true
