-- ===== src/Msg/RoundTrip.antt =====
-- What the bytes of a sent packet spell.

use lyp_lyl.Prelude.{
  ltb, ◌==◌, length, drop, length-append, All, drop-append, drop-drop, ℕ, ◌+◌, ◌%◌, ◌≤◌, ◌<◌, ◌≡◌,
  refl, sym, ap, subst, ◌∙◌, true, false, some, List, [], ◌∷◌, ◌++◌, arith,
}
use lyp_lyl.Wire.{Layout, size_of, read_fields, write_fields}
use lyp_lyl.Wire.Laws.{Fit, length-write_fields, read_fields-write_fields}
use lyp_lyl.Tlv.{Tlv}
use lyp_lyl.Msg.{
  header_layout, header_fields, msg_type, body_layout, suffix_len, suffix_post_recv, receive_body,
  read_packet, suffix_pre_send, msg_pre_send, PtpMessage, ok,
}
use lyp_lyl.Msg.Suffix.{suffix_post_recv-suffix_pre_send, length-suffix_pre_send, Attachable}
use mathlib.Core.List.{append_assoc}

-- A message that msg_pre_send turns into a packet without loss: each field fits, the version is
-- PTP's, and the message length is that of the parts. `layout` is the body's.
pub record Sendable (m : PtpMessage) (layout : Layout) : Type 0 where
  pub header : Fit header_layout (header_fields m.header)
  pub version : m.header.ver % 16 ≡ 2
  pub known : body_layout (msg_type m.header) ≡ some layout
  pub body : Fit layout m.body
  pub tlvs : All Attachable m.tlvs
  pub size : m.header.message_length ≡ 34 + size_of layout + suffix_len m.tlvs

abbrev pub packet : PtpMessage → Layout → List ℕ
packet m layout =
    write_fields header_layout (header_fields m.header)
    ++ (write_fields layout m.body ++ suffix_pre_send m.tlvs)

module _ (m : PtpMessage) (layout : Layout) (s : Sendable m layout) (pad : List ℕ) where
  abbrev head : List ℕ
  head = write_fields header_layout (header_fields m.header)

  abbrev tail : List ℕ
  tail = write_fields layout m.body ++ (suffix_pre_send m.tlvs ++ pad)

  length-head : length head ≡ 34
  length-head =
      length-write_fields header_layout (header_fields m.header) s.header ∙ unfold size_of in refl

  packet_parts : packet m layout ++ pad ≡ head ++ tail
  packet_parts = simp append_assoc

  drop-head : drop 34 (head ++ tail) ≡ tail
  drop-head = subst (λ n. drop n (head ++ tail) ≡ tail) length-head (drop-append head tail)

  length-body : length (write_fields layout m.body) ≡ size_of layout
  length-body = length-write_fields layout m.body s.body

  drop-tail : drop (34 + size_of layout) (head ++ tail) ≡ suffix_pre_send m.tlvs ++ pad
  drop-tail =
      sym (drop-drop 34 (size_of layout) (head ++ tail))
      ∙ (ap (drop (size_of layout)) drop-head
          ∙ subst (λ n. drop n tail ≡ suffix_pre_send m.tlvs ++ pad) length-body
              (drop-append (write_fields layout m.body) (suffix_pre_send m.tlvs ++ pad)))

  length-parts : length (head ++ tail) ≡ m.header.message_length + length pad
  length-parts =
      length-append head tail
      ∙ omega (
        arith,
        length-head,
        length-body,
        s.size,
        length-append (write_fields layout m.body) (suffix_pre_send m.tlvs ++ pad),
        length-append (suffix_pre_send m.tlvs) pad,
        length-suffix_pre_send m.tlvs,
      )

  length-tlvs : (ts : List Tlv) → length ts ≤ suffix_len ts
  unfolding suffix_len
  length-tlvs [] = omega arith
  length-tlvs (t ∷ ts) = omega (arith, length-tlvs ts)

  body_received : length pad < 4 → receive_body m.header (head ++ tail) (some layout) ≡ ok m
  body_received p =
      let long : ltb (length (head ++ tail)) (34 + size_of layout) ≡ false =
        ground (arith, length-parts, s.size) in
      let body : read_fields layout (drop 34 (head ++ tail)) ≡ m.body =
        ap (read_fields layout) drop-head
        ∙ read_fields-write_fields layout m.body (suffix_pre_send m.tlvs ++ pad) s.body in
      let fields : suffix_post_recv (length (head ++ tail))
            (drop (34 + size_of layout) (head ++ tail))
          ≡ ok m.tlvs =
        ap (suffix_post_recv (length (head ++ tail))) drop-tail
        ∙ suffix_post_recv-suffix_pre_send m.tlvs (length (head ++ tail)) pad s.tlvs
            (omega (arith, length-parts, s.size, length-tlvs m.tlvs)) p in
      let whole : (34 + size_of layout + suffix_len m.tlvs == m.header.message_length) ≡ true =
        ground (arith, s.size) in
      rw long (rw fields (rw whole (rw body refl)))

  received : length pad < 4 → read_packet (head ++ tail) ≡ ok m
  unfolding read_packet
  received p =
      let fields : read_fields header_layout (head ++ tail) ≡ header_fields m.header =
        read_fields-write_fields header_layout (header_fields m.header) tail s.header in
      let long : ltb (length (head ++ tail)) 34 ≡ false = ground (arith, length-parts, s.size) in
      let ours : (m.header.ver % 16 == 2) ≡ true = ground (arith, s.version) in
      rw long (rw fields (rw ours (rw s.known (body_received p))))

-- The packet of a message whose fields fit has as many bytes as its message length says, and its
-- fields spell the numbers of the message, also with up to three bytes behind it.
pub read_packet-msg_pre_send :
    (m : PtpMessage) (layout : Layout) (pad : List ℕ)
    → Sendable m layout
    → length pad < 4
    → (bs : List ℕ) × ((msg_pre_send m ≡ some bs)
        × ((length bs ≡ m.header.message_length) × (read_packet (bs ++ pad) ≡ ok m)))
unfolding msg_pre_send
read_packet-msg_pre_send m layout pad s p =
    let bs = packet m layout in
    (
      bs,
      (
        rw (s.known, msg_pre_send) refl,
        (
          omega (
            arith,
            length-append bs pad,
            ap length (packet_parts m layout s pad),
            length-parts m layout s pad,
          ),
          ap read_packet (packet_parts m layout s pad) ∙ received m layout s pad p,
        ),
      ),
    )
