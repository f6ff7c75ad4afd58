-- ===== src/Msg/Accepted.antt =====
-- Which packets read_packet accepts.

use lyp_lyl.Prelude.{
  ltb, ◌==◌, Bool-cases, length, take, drop, All, length-drop, take_add, All-drop, ℕ, ◌+◌, ◌%◌, ◌≤◌,
  ◌<◌, ◌≡◌, refl, sym, ap, ap₂, subst, ◌∙◌, inl, inr, Option, none, some, List, ◌++◌, arith,
}
use lyp_lyl.Wire.{Layout, size_of, read_fields, write_fields}
use lyp_lyl.Wire.Laws.{IsByte, Fit, write_fields-read_fields, read_fields-Fit}
use lyp_lyl.Tlv.{Tlv}
use lyp_lyl.Msg.{
  header_layout, header_fields, header_of, msg_type, body_layout, suffix_len, suffix_post_recv,
  complete, receive_body, read_packet, msg_pre_send, Header, PtpMessage, Result, ok, err,
}
use lyp_lyl.Msg.Suffix.{suffix_post_recv-Suffix, Suffix}
use lyp_lyl.Msg.RoundTrip.{packet, Sendable}
use mathlib.Core.List.{append_assoc}

complete_cases :
    (h : Header) (body : List ℕ) (pdulen : ℕ) (r : Result (List Tlv)) (m : PtpMessage)
    → complete h body pdulen r ≡ ok m
    → (ts : List Tlv) × ((r ≡ ok ts)
        × ((pdulen + suffix_len ts ≡ h.message_length)
            × (m ≡ record { header = h; body = body; tlvs = ts })))
complete_cases h body pdulen (err x) m e = cc
complete_cases h body pdulen (ok ts) m e =
    elim (Bool-cases (pdulen + suffix_len ts == h.message_length)) [
      | inl whole ↦ (ts, (refl, (ground arith, cc (rw whole at e))))
      | inr other ↦ cc (rw other at e)
    ]

receive_cases :
    (h : Header) (bs : List ℕ) (layout : Option Layout) (m : PtpMessage)
    → receive_body h bs layout ≡ ok m
    → (ws : Layout) × ((layout ≡ some ws)
        × ((34 + size_of ws ≤ length bs)
            × ((ts : List Tlv) × ((suffix_post_recv (length bs) (drop (34 + size_of ws) bs) ≡ ok ts)
                  × ((34 + size_of ws + suffix_len ts ≡ h.message_length)
                      × (m ≡ record {
                        header = h;
                        body = read_fields ws (drop 34 bs);
                        tlvs = ts;
                      }))))))
receive_cases h bs none m e = cc
receive_cases h bs (some ws) m e = elim (Bool-cases (ltb (length bs) (34 + size_of ws))) [
  | inl short ↦ cc (rw short at e)
  | inr long ↦ (
    ws,
    (
      refl,
      (
        ground arith,
        complete_cases h (read_fields ws (drop 34 bs)) (34 + size_of ws) _ m (rw long at e),
      ),
    ),
  )
]

module _ (bs : List ℕ) (bytes : All IsByte bs) (layout : Layout) (ts : List Tlv) where
  abbrev head_of : Header
  head_of = header_of (read_fields header_layout bs)

  abbrev message : PtpMessage
  message = record { header = head_of; body = read_fields layout (drop 34 bs); tlvs = ts }

  head_fields : header_fields head_of ≡ read_fields header_layout bs
  unfolding read_fields
  head_fields = refl

  head_size : size_of header_layout ≡ 34
  unfolding size_of
  head_size = refl

  module _ (long : 34 + size_of layout ≤ length bs)
      (s : Suffix (drop (34 + size_of layout) bs) ts) where
    message-Sendable :
        head_of.ver % 16 ≡ 2
        → body_layout (msg_type head_of) ≡ some layout
        → 34 + size_of layout + suffix_len ts ≡ head_of.message_length
        → Sendable message layout
    message-Sendable ours known size = record {
      header =
          subst (Fit header_layout) (sym head_fields)
            (read_fields-Fit header_layout bs bytes (omega (arith, head_size)));
      version = ours;
      known = known;
      body =
          read_fields-Fit layout (drop 34 bs) (All-drop IsByte 34 bs bytes)
            (omega (arith, length-drop 34 bs));
      tlvs = s.attachable;
      size = sym size;
    }

    message-packet : packet message layout ≡ take (34 + size_of layout + suffix_len ts) bs
    message-packet =
        let front : write_fields header_layout (header_fields head_of) ≡ take 34 bs =
          ap (write_fields header_layout) head_fields
          ∙ (write_fields-read_fields header_layout bs bytes (omega (arith, head_size))
              ∙ ap (λ n. take n bs) head_size) in
        let middle : write_fields layout (read_fields layout (drop 34 bs))
            ≡ take (size_of layout) (drop 34 bs) =
          write_fields-read_fields layout (drop 34 bs) (All-drop IsByte 34 bs bytes)
            (omega (arith, length-drop 34 bs)) in
        let join : take (34 + size_of layout) bs
              ++ take (suffix_len ts) (drop (34 + size_of layout) bs)
            ≡ take (34 + size_of layout + suffix_len ts) bs =
          sym (take_add (34 + size_of layout) (suffix_len ts) bs) in
        ap₂ (λ x y. x ++ y) front (ap₂ (λ x y. x ++ y) middle (sym s.packet))
        ∙ (sym (append_assoc (take 34 bs) (take (size_of layout) (drop 34 bs)) _)
            ∙ (ap (λ x. x ++ take (suffix_len ts) (drop (34 + size_of layout) bs))
                  (sym (take_add 34 (size_of layout) bs))
                ∙ join))

-- What is known of an accepted packet.
pub record Accepted (bs : List ℕ) (m : PtpMessage) (layout : Layout) : Type 0 where
  pub sendable : Sendable m layout
  pub inside : m.header.message_length ≤ length bs
  pub rest : length bs < m.header.message_length + 4
  pub sent : msg_pre_send m ≡ some (take m.header.message_length bs)

message-Accepted :
    (bs : List ℕ) (bytes : All IsByte bs) (layout : Layout) (ts : List Tlv)
    → (head_of bs bytes layout ts).ver % 16 ≡ 2
    → body_layout (msg_type (head_of bs bytes layout ts)) ≡ some layout
    → 34 + size_of layout ≤ length bs
    → suffix_post_recv (length bs) (drop (34 + size_of layout) bs) ≡ ok ts
    → 34 + size_of layout + suffix_len ts ≡ (head_of bs bytes layout ts).message_length
    → Accepted bs (message bs bytes layout ts) layout
unfolding msg_pre_send
message-Accepted bs bytes layout ts ours known long taken size =
    let after = drop (34 + size_of layout) bs in
    let left = length-drop (34 + size_of layout) bs in
    let s =
      suffix_post_recv-Suffix (length bs) after ts (All-drop IsByte (34 + size_of layout) bs bytes)
        (omega (arith, left)) taken in
    record {
      sendable = message-Sendable bs bytes layout ts long s ours known size;
      inside = omega (arith, left, size, s.inside);
      rest = omega (arith, left, size, s.rest);
      sent =
          rw (known, msg_pre_send)
            (ap some (message-packet bs bytes layout ts long s ∙ ap (λ n. take n bs) size));
    }

-- If read_packet accepts a packet, the message length lies within the packet and leaves at most
-- three bytes over; each field is even, lies within the message and is acceptable by itself; and
-- sending the message gives back those bytes of the packet.
pub read_packet-Accepted :
    (bs : List ℕ) (m : PtpMessage)
    → All IsByte bs
    → read_packet bs ≡ ok m
    → (layout : Layout) × Accepted bs m layout
unfolding read_packet
read_packet-Accepted bs m bytes e =
    let h = header_of (read_fields header_layout bs) in
    elim (Bool-cases (ltb (length bs) 34)) [
      | inl short ↦ cc (rw short at e)
      | inr long ↦ elim (Bool-cases (h.ver % 16 == 2)) [
        | inl ours ↦
            let found =
              receive_cases h bs (body_layout (msg_type h)) m (rw ours at (rw long at e)) in
            let (layout, (known, (fits, (ts, (taken, (size, same)))))) = found in
            (
              layout,
              subst (λ r. Accepted bs r layout) (sym same)
                  (message-Accepted bs bytes layout ts (ground arith) known fits taken size),
            )
        | inr theirs ↦ cc (rw theirs at (rw long at e))
      ]
    ]
