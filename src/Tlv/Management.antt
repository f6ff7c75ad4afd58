-- ===== src/Tlv/Management.antt =====
-- tlv.c: mgt_post_recv, by the layouts of the management data, and tlv_post_recv.
use lyp_lyl.Prelude.{
  ltb, leb, ◌==◌, if◌then◌else◌, length, drop, ℕ, zero, suc, ◌+◌, ◌-◌, ◌%◌, Bool, true, false, not,
  ◌&&◌, ◌||◌, Option, none, some, List,
}
use mathlib.Core.Option
use lyp_lyl.Tlv.{
  u8, u16, tlv_length_invalid, tlv_array_invalid, alttime_offset_post_recv, nsm_resp_post_recv,
  org_post_recv, slave_delay_timing_data_post_revc, slave_rx_sync_timing_data_post_revc,
  auth_post_recv, unicast_negotiation_post_recv, Tlv,
}

infixl 5 ◌>>=◌
abbrev ◌>>=◌ : {A B : Type 0} → Option A → (A → Option B) → Option B
none >>= f = none
some a >>= f = f a

-- The cursor over the data is the list of the bytes that are left; `none` is bad_length.
abbrev pub skip : ℕ → List ℕ → Option (List ℕ)
skip n bs = if ltb (length bs) n then none else some (drop n bs)

unfoldable pub ptp_text : List ℕ → Option (List ℕ)
ptp_text bs = do rest ← skip 1 bs; skip (u8 bs 0) rest

abbrev pub transport_addr_len : ℕ
transport_addr_len = 16

-- An address behind a head of `head` bytes, which ends with its length.
unfoldable pub sized_address : ℕ → List ℕ → Option (List ℕ)
sized_address head bs = do
  rest ← skip head bs
  if ltb transport_addr_len (u16 bs (head - 2)) then none else skip (u16 bs (head - 2)) rest

unfoldable pub clock_description : List ℕ → Option (List ℕ)
clock_description bs = do
  protocol ← skip 2 bs
  physical ← ptp_text protocol
  address ← sized_address 2 physical
  manufacturer ← sized_address 4 address
  product ← skip 4 manufacturer
  revision ← ptp_text product
  user ← ptp_text revision
  profile ← ptp_text user
  skip 6 profile

-- The loop over the table of unicast masters.
unfoldable pub unicast_masters : ℕ → List ℕ → Option (List ℕ)
unicast_masters zero bs = some bs
unicast_masters (suc n) bs = do
  address ← skip 22 bs
  next ← skip (u16 bs 20) address
  unicast_masters n next

abbrev pub unicast_master_table : List ℕ → Option ℕ
unicast_master_table bs = do
  table ← skip 2 bs
  Option.map (λ rest. 0) (unicast_masters (u16 bs 0) table)

abbrev pub exactly : ℕ → List ℕ → Option ℕ
exactly size bs = if length bs == size then some 0 else none

abbrev pub at_least : ℕ → ℕ → List ℕ → Option ℕ
at_least size extra bs = if ltb (length bs) size then none else some extra

-- The second half of the switch: the identifiers of this implementation and the commands.
unfoldable pub mgt_extra_len_np : ℕ → List ℕ → Option ℕ
mgt_extra_len_np id bs =
    if id == 0xc000
    then exactly 50 bs
    else if id == 0xc001
    then exactly 8 bs
    else if id == 0xc002
    then exactly 8 bs
    else if id == 0xc003
    then exactly 66 bs
    else if id == 0xc004
    then at_least 13 (13 + u8 bs 12) bs
    else if id == 0xc005
    then at_least 266 266 bs
    else if id == 0xc007
    then at_least 90 90 bs
    else if id == 0xc008
    then unicast_master_table bs
    else if id == 0xc009
    then at_least 16 16 bs
    else if id == 0xc00a || id == 0xc00b
    then at_least 16 0 bs
    else if id == 0x0003
        || id == 0x0004
        || id == 0x0005
        || id == 0x0007
        || id == 0x200d
        || id == 0x200e
    then exactly 0 bs
    else some 0

-- The switch of mgt_post_recv, by the management id; the answer is `extra_len`.
unfoldable pub mgt_extra_len : ℕ → List ℕ → Option ℕ
mgt_extra_len id bs =
    if id == 0x0001
    then Option.map (λ rest. length bs - length rest) (clock_description bs)
    else if id == 0x0002
    then at_least 1 (1 + u8 bs 0) bs
    else if id == 0x2000
    then exactly 20 bs
    else if id == 0x2001
    then exactly 18 bs
    else if id == 0x2002
    then exactly 32 bs
    else if id == 0x2003
    then exactly 4 bs
    else if id == 0x2004
    then exactly 26 bs
    else if id == 0x201f
    then at_least 2 (2 + u8 bs 1) bs
    else if id == 0x2021
    then exactly 16 bs
    else mgt_extra_len_np id bs

abbrev pub even_up : ℕ → ℕ
even_up n = n + n % 2

-- The value begins with the management id.
unfoldable pub mgt_post_recv : List ℕ → Bool
mgt_post_recv v = elim (mgt_extra_len (u16 v 0) (drop 2 v)) [
  | none ↦ false
  | some extra ↦ extra == 0 || even_up extra + 2 == length v
]

unfoldable pub tlv_post_recv : Tlv → Bool
tlv_post_recv t =
    let v = t.value in
    if t.type == 0x0001
    then if tlv_length_invalid v 6
      then false
      else if ltb 2 (length v)
      then mgt_post_recv v
      else true
    else if t.type == 0x0002
    then not (tlv_length_invalid v 12)
    else if t.type == 0x0003
    then if tlv_length_invalid v 10 then false else org_post_recv v
    else if leb 4 t.type && leb t.type 7
    then unicast_negotiation_post_recv t.type v
    else if t.type == 0x0008
    then not (tlv_array_invalid v 0 8)
    else if t.type == 0x0009
    then alttime_offset_post_recv v
    else if t.type == 0x21ff
    then nsm_resp_post_recv v
    else if t.type == 0x8004
    then slave_rx_sync_timing_data_post_revc v
    else if t.type == 0x7f00
    then slave_delay_timing_data_post_revc v
    else if t.type == 0x8009
    then auth_post_recv v
    else true
