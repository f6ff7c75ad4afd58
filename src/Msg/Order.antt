-- ===== src/Msg/Order.antt =====
-- Messages in the byte order of the host.

use lyp_lyl.Prelude.{
  ◌==◌, if◌then◌else◌, Bool-cases, length, get_or, drop, All, ℕ, ◌+◌, ◌*◌, ◌^◌, ◌<◌, ◌≡◌, refl, sym,
  ap, subst, ◌∙◌, inl, inr, true, false, ◌||◌, none, some, List, [], ◌∷◌, ◌++◌, arith,
}
use lyp_lyl.Wire.{Layout}
use lyp_lyl.Wire.Laws.{IsByte, Fit}
use lyp_lyl.Msg.{
  msg_type, body_layout, read_packet, msg_pre_send, ByteOrder, converts_timestamp, turn_timestamp,
  in_memory, msg_post_recv, timestamp_post_recv, PtpMessage, Result, ok, err,
}
use lyp_lyl.Msg.RoundTrip.{read_packet-msg_pre_send, Sendable}
use lyp_lyl.Msg.Accepted.{read_packet-Accepted, Accepted}

-- What the C library promises of htons and htonl.
pub record IsByteOrder (hton : ByteOrder) : Type 0 where
  pub fits : (w x : ℕ) → x < 256 ^ w → hton w x < 256 ^ w
  pub twice : (w x : ℕ) → x < 256 ^ w → hton w (hton w x) ≡ x

module _ (hton : ByteOrder) where
  -- What arrives of a message: the header and the TLVs as they were; the body too, but for a time
  -- stamp of the types 3, 8, 9 and 10, whose three fields have their bytes in network order. The
  -- receiver's time stamp, for the types that have one, is that of the sender.
  pub record Arrives (m m' : PtpMessage) : Type 0 where
    pub header : m'.header ≡ m.header
    pub tlvs : m'.tlvs ≡ m.tlvs
    pub as_sent : converts_timestamp (msg_type m.header) ≡ false → m'.body ≡ m.body
    pub as_wired :
        converts_timestamp (msg_type m.header) ≡ true
        → m'.body
          ≡ hton 2 (get_or m.body 0 0)
            ∷ hton 4 (get_or m.body 1 0)
            ∷ hton 4 (get_or m.body 2 0)
            ∷ drop 3 m.body
    pub stamp : timestamp_post_recv hton m' ≡ (
        let type = msg_type m.header in
        if type == 0x0 || type == 0x3 || type == 0x8 || type == 0x9 || type == 0xa || type == 0xb
        then some (get_or m.body 0 0 * 2 ^ 32 + get_or m.body 1 0, get_or m.body 2 0)
        else none)

  stamped_layout :
      (type : ℕ)
      → converts_timestamp type ≡ true
      → body_layout type ≡ some (2 ∷ 4 ∷ 4 ∷ (if type == 0x8 then [] else 8 ∷ 2 ∷ []))
  unfolding body_layout
  stamped_layout type c = ground arith

  -- The body of such a message begins with the three fields.
  Stamped : List ℕ → Type 0
  Stamped body =
      (a : ℕ) × ((b : ℕ) × ((c : ℕ) × ((rest : List ℕ) × ((body ≡ a ∷ b ∷ c ∷ rest)
              × ((a < 256 ^ 2) × ((b < 256 ^ 4) × (c < 256 ^ 4)))))))

  Fit-Stamped : (ws : Layout) (body : List ℕ) → Fit (2 ∷ 4 ∷ 4 ∷ ws) body → Stamped body
  unfolding Stamped
  Fit-Stamped ws [] h = absurd h
  Fit-Stamped ws (a ∷ []) h = absurd h.1
  Fit-Stamped ws (a ∷ b ∷ []) h = absurd h.1.1
  Fit-Stamped ws (a ∷ b ∷ c ∷ rest) h = (a, (b, (c, (rest, (refl, (h.0, (h.1.0, h.1.1.0)))))))

  body-Stamped :
      (m : PtpMessage) (layout : Layout)
      → Sendable m layout
      → converts_timestamp (msg_type m.header) ≡ true
      → Stamped m.body
  body-Stamped m layout s c =
      let ws = if msg_type m.header == 0x8 then [] else 8 ∷ 2 ∷ [] in
      let same : layout ≡ 2 ∷ 4 ∷ 4 ∷ ws = cc (s.known, stamped_layout (msg_type m.header) c) in
      Fit-Stamped ws m.body (subst (λ l. Fit l m.body) same s.body)

  turn_none :
      (type : ℕ) (body : List ℕ)
      → converts_timestamp type ≡ false
      → turn_timestamp hton type body ≡ body
  unfolding turn_timestamp
  turn_none type [] c = refl
  turn_none type (a ∷ []) c = refl
  turn_none type (a ∷ b ∷ []) c = refl
  turn_none type (a ∷ b ∷ d ∷ rest) c = rw c refl

  turn_some :
      (type a b c : ℕ) (rest : List ℕ)
      → converts_timestamp type ≡ true
      → turn_timestamp hton type (a ∷ b ∷ c ∷ rest) ≡ hton 2 a ∷ hton 4 b ∷ hton 4 c ∷ rest
  unfolding turn_timestamp
  turn_some type a b c rest t = rw t refl

  module _ (order : IsByteOrder hton) where
    turn_twice :
        (m : PtpMessage) (layout : Layout)
        → Sendable m layout
        → (let type = msg_type m.header in
            turn_timestamp hton type (turn_timestamp hton type m.body) ≡ m.body)
    unfolding Stamped
    turn_twice m layout s =
        let type = msg_type m.header in
        elim (Bool-cases (converts_timestamp type)) [
          | inr n ↦ rw (turn_none type m.body n, turn_none type m.body n) refl
          | inl t ↦
              let (a, (b, (c, (rest, (e, (ha, (hb, hc))))))) = body-Stamped m layout s t in
              rw
                (
                  e,
                  turn_some type a b c rest t,
                  turn_some type (hton 2 a) (hton 4 b) (hton 4 c) rest t,
                  order.twice 2 a ha,
                  order.twice 4 b hb,
                  order.twice 4 c hc,
                )
                refl
        ]

    -- The message as it stands in the memory of the receiver.
    abbrev pub there : PtpMessage → PtpMessage
    there m = record m { body = turn_timestamp hton (msg_type m.header) m.body }

    there-Arrives : (m : PtpMessage) (layout : Layout) → Sendable m layout → Arrives m (there m)
    unfolding timestamp_post_recv Stamped
    there-Arrives m layout s = record {
      header = refl;
      tlvs = refl;
      as_sent = λ n. turn_none (msg_type m.header) m.body n;
      as_wired = λ t.
          let (a, (b, (c, (rest, (e, h))))) = body-Stamped m layout s t in
          rw (e, turn_some (msg_type m.header) a b c rest t) refl;
      stamp = rw (turn_twice m layout s) refl;
    }

    -- A message whose fields fit is sent as a packet of as many bytes as its message length says, and the packet is received, also with up to three bytes behind it. What arrives is the message, but for the time stamps of the types 3, 8, 9 and 10: the struct has them in network order. The receiver's own time stamp is that of the sender, for all types that have one. The byte order of the host fits numbers into their bytes and is its own inverse.
    pub msg_post_recv-msg_pre_send :
        (m : PtpMessage) (layout : Layout) (pad : List ℕ)
        → Sendable m layout
        → length pad < 4
        → (bs : List ℕ) × ((msg_pre_send m ≡ some bs)
            × ((length bs ≡ m.header.message_length)
                × ((m' : PtpMessage) × ((msg_post_recv hton (bs ++ pad) ≡ ok m') × Arrives m m'))))
    unfolding msg_post_recv
    msg_post_recv-msg_pre_send m layout pad s p =
        let (bs, (sent, (size, back))) = read_packet-msg_pre_send m layout pad s p in
        (bs, (sent, (size, (there m, (rw back refl, there-Arrives m layout s)))))

    of_packet :
        (bs : List ℕ) (r : Result PtpMessage) (m : PtpMessage)
        → ((n : PtpMessage) → r ≡ ok n → (layout : Layout) × Accepted bs n layout)
        → in_memory hton r ≡ ok m
        → (layout : Layout) × Accepted bs (there m) layout
    of_packet bs (err e) m h i = cc
    of_packet bs (ok n) m h i =
        let (layout, found) = h n refl in
        let at : there n ≡ m = cc in
        let back : n ≡ there m =
          ap (λ b. record n { body = b }) (sym (turn_twice n layout found.sendable))
          ∙ ap there at in
        (layout, subst (λ x. Accepted bs x layout) back found)

    -- If msg_post_recv accepts a packet, the message length lies within the packet and leaves at most three bytes over; each field is even, lies within the message and is acceptable by itself; and sending the message gives back those bytes of the packet, once the time stamps that msg_pre_send converts are in host order. The byte order of the host fits numbers into their bytes and is its own inverse.
    pub msg_post_recv-Accepted :
        (bs : List ℕ) (m : PtpMessage)
        → All IsByte bs
        → msg_post_recv hton bs ≡ ok m
        → (layout : Layout) × Accepted bs (there m) layout
    unfolding msg_post_recv
    msg_post_recv-Accepted bs m bytes e =
        of_packet bs (read_packet bs) m (λ n i. read_packet-Accepted bs n bytes i) e
