-- ===== src/Msg.antt =====
-- msg.c: how a received packet becomes a message, and a message a packet. A field of a message is a
-- number of the host; a field that msg.c converts neither way is the number that its bytes spell.
-- The time stamps of some types are converted on the way out only. Descriptors of TLVs can always
-- be allocated.
pub mod Suffix
pub mod Accepted
pub mod RoundTrip
pub mod Order
use lyp_lyl.Prelude.{
  ltb, ◌==◌, if◌then◌else◌, length, get_or, take, drop, ℕ, zero, suc, ◌+◌, ◌*◌, ◌%◌, ◌^◌, Bool,
  ◌||◌, Option, none, some, List, [], ◌∷◌, ◌++◌,
}
use lyp_lyl.Wire.{to_bytes, Layout, size_of, read_fields, write_fields}
use lyp_lyl.Tlv.{u16, Tlv}
use lyp_lyl.Tlv.Management.{tlv_post_recv}

-- struct ptp_header. A clock identity is the number that its bytes spell.
pub record Header : Type 0 where
  pub tsmt : ℕ
  pub ver : ℕ
  pub message_length : ℕ
  pub domain_number : ℕ
  pub reserved1 : ℕ
  pub flags_0 : ℕ
  pub flags_1 : ℕ
  pub correction : ℕ
  pub reserved2 : ℕ
  pub clock_identity : ℕ
  pub port_number : ℕ
  pub sequence_id : ℕ
  pub control : ℕ
  pub log_message_interval : ℕ

abbrev pub header_layout : Layout
header_layout = 1 ∷ 1 ∷ 2 ∷ 1 ∷ 1 ∷ 1 ∷ 1 ∷ 8 ∷ 4 ∷ 8 ∷ 2 ∷ 2 ∷ 1 ∷ 1 ∷ []

abbrev pub header_fields : Header → List ℕ
header_fields h =
    h.tsmt ∷ h.ver ∷ h.message_length ∷ h.domain_number ∷ h.reserved1 ∷ h.flags_0 ∷ h.flags_1
    ∷ h.correction ∷ h.reserved2 ∷ h.clock_identity ∷ h.port_number ∷ h.sequence_id ∷ h.control
    ∷ h.log_message_interval ∷ []

abbrev pub header_of : List ℕ → Header
header_of fs = record {
  tsmt = get_or fs 0 0;
  ver = get_or fs 1 0;
  message_length = get_or fs 2 0;
  domain_number = get_or fs 3 0;
  reserved1 = get_or fs 4 0;
  flags_0 = get_or fs 5 0;
  flags_1 = get_or fs 6 0;
  correction = get_or fs 7 0;
  reserved2 = get_or fs 8 0;
  clock_identity = get_or fs 9 0;
  port_number = get_or fs 10 0;
  sequence_id = get_or fs 11 0;
  control = get_or fs 12 0;
  log_message_interval = get_or fs 13 0;
}

abbrev pub msg_type : Header → ℕ
msg_type h = h.tsmt % 16

-- The structs of msg.h behind the header, by the message type: time stamps are 2, 4 and 4 bytes,
-- port identities 8 and 2.
unfoldable pub body_layout : ℕ → Option Layout
body_layout type =
    if type == 0x0 || type == 0x1 || type == 0x8
    then some (2 ∷ 4 ∷ 4 ∷ [])
    else if type == 0x2 || type == 0x3 || type == 0x9 || type == 0xa
    then some (2 ∷ 4 ∷ 4 ∷ 8 ∷ 2 ∷ [])
    else if type == 0xb
    then some (2 ∷ 4 ∷ 4 ∷ 2 ∷ 1 ∷ 1 ∷ 1 ∷ 1 ∷ 2 ∷ 1 ∷ 8 ∷ 2 ∷ 1 ∷ [])
    else if type == 0xc
    then some (8 ∷ 2 ∷ [])
    else if type == 0xd
    then some (8 ∷ 2 ∷ 1 ∷ 1 ∷ 1 ∷ 1 ∷ [])
    else none

-- The fields of the body stand in the order of its struct.
pub record PtpMessage : Type 0 where
  pub header : Header
  pub body : List ℕ
  pub tlvs : List Tlv

pub data Error : Type 0 where
  bad_message protocol : Error

pub data Result {ℓ} (A : Type ℓ) : Type ℓ where
  ok : A → Result A
  err : Error → Result A

-- The bytes that a list of fields takes.
unfoldable pub suffix_len : List Tlv → ℕ
suffix_len [] = 0
suffix_len (t ∷ ts) = 4 + length t.value + suffix_len ts

abbrev pub attach : Tlv → Result (List Tlv) → Result (List Tlv)
attach t (ok ts) = ok (t ∷ ts)
attach t (err e) = err e

-- Each round of the loop takes four bytes at least, so as many rounds as bytes are enough.
unfoldable pub suffix_post_recv : ℕ → List ℕ → Result (List Tlv)
suffix_post_recv zero bs = ok []
suffix_post_recv (suc rounds) bs =
    let size = u16 bs 2 in
    let rest = drop 4 bs in
    let t : Tlv = record { type = u16 bs 0; value = take size rest } in
    let others = attach t (suffix_post_recv rounds (drop size rest)) in
    if ltb (length bs) 4
    then ok []
    else if size % 2 == 1
    then err bad_message
    else if ltb (length rest) size
    then err bad_message
    else if tlv_post_recv t
    then others
    else err bad_message

-- The length is tested when the whole suffix has been read.
abbrev pub complete : Header → List ℕ → ℕ → Result (List Tlv) → Result PtpMessage
complete h body pdulen (err e) = err e
complete h body pdulen (ok ts) =
    if pdulen + suffix_len ts == h.message_length
    then ok (record { header = h; body = body; tlvs = ts })
    else err bad_message

abbrev pub receive_body : Header → List ℕ → Option Layout → Result PtpMessage
receive_body h bs none = err bad_message
receive_body h bs (some layout) =
    let pdulen = 34 + size_of layout in
    if ltb (length bs) pdulen
    then err bad_message
    else complete h (read_fields layout (drop 34 bs)) pdulen
        (suffix_post_recv (length bs) (drop pdulen bs))

-- msg_post_recv with every field as the number that its bytes spell. The packet is the `cnt` bytes
-- that were received.
unfoldable pub read_packet : List ℕ → Result PtpMessage
read_packet bs =
    let h = header_of (read_fields header_layout bs) in
    if ltb (length bs) 34
    then err bad_message
    else if h.ver % 16 == 2
    then receive_body h bs (body_layout (msg_type h))
    else err protocol

unfoldable pub suffix_pre_send : List Tlv → List ℕ
suffix_pre_send [] = []
suffix_pre_send (t ∷ ts) =
    to_bytes 2 t.type ++ (to_bytes 2 (length t.value) ++ (t.value ++ suffix_pre_send ts))

-- The packet, or `none` for -1.
unfoldable pub msg_pre_send : PtpMessage → Option (List ℕ)
msg_pre_send m = elim (body_layout (msg_type m.header)) [
  | none ↦ none
  | some layout ↦ some (
      write_fields header_layout (header_fields m.header)
      ++ (write_fields layout m.body ++ suffix_pre_send m.tlvs))
]

-- htons and htonl of the C library, by the number of bytes; ntohs and ntohl are the same functions.
abbrev pub ByteOrder : Type 0
ByteOrder = ℕ → ℕ → ℕ

-- The types for which msg_pre_send calls timestamp_pre_send, but msg_post_recv leaves the struct.
abbrev pub converts_timestamp : ℕ → Bool
converts_timestamp type = type == 0x3 || type == 0x8 || type == 0x9 || type == 0xa

-- The time stamp of such a message in the other byte order.
unfoldable pub turn_timestamp : ByteOrder → ℕ → List ℕ → List ℕ
turn_timestamp hton type [] = []
turn_timestamp hton type (msb ∷ []) = msb ∷ []
turn_timestamp hton type (msb ∷ lsb ∷ []) = msb ∷ lsb ∷ []
turn_timestamp hton type (msb ∷ lsb ∷ nsec ∷ rest) =
    if converts_timestamp type
    then hton 2 msb ∷ hton 4 lsb ∷ hton 4 nsec ∷ rest
    else msb ∷ lsb ∷ nsec ∷ rest

abbrev pub in_memory : ByteOrder → Result PtpMessage → Result PtpMessage
in_memory hton (ok m) = ok (record m { body = turn_timestamp hton (msg_type m.header) m.body })
in_memory hton (err e) = err e

unfoldable pub msg_post_recv : ByteOrder → List ℕ → Result PtpMessage
msg_post_recv hton bs = in_memory hton (read_packet bs)

-- The time stamp `pdu` of a received message, the seconds and the nanoseconds: the message types
-- for which msg_post_recv calls timestamp_post_recv have it in the first three fields of the body.
unfoldable pub timestamp_post_recv : ByteOrder → PtpMessage → Option (ℕ × ℕ)
timestamp_post_recv hton m =
    let type = msg_type m.header in
    let body = turn_timestamp hton type m.body in
    if type == 0x0 || type == 0x3 || type == 0x8 || type == 0x9 || type == 0xa || type == 0xb
    then some (get_or body 0 0 * 2 ^ 32 + get_or body 1 0, get_or body 2 0)
    else none
