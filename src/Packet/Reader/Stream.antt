-- ===== src/Packet/Reader/Stream.antt =====
-- `PacketReader` of packet.rs on a stream that is cut into reads.
use mac_os_sstp_client.Prelude.{
  suc, ◌≤◌, ◌≡◌, ◌≢◌, refl, sym, ap, ◌∙◌, arith, List, [], ◌∷◌, ◌++◌, map, err, length, drop,
  drop-length, Bytes, Option, none, some, All, append-nil, append_assoc,
}
use mac_os_sstp_client.Packet.{incomplete, decode, encode_data, encode_ctrl}
use mac_os_sstp_client.Packet.RoundTrip.{
  Outgoing, out_data, out_ctrl, wire, seen, Fits, decode-wire,
}
use mac_os_sstp_client.Packet.Prefix.{header_length, header_length-wire}
use mac_os_sstp_client.Packet.Reader.{
  PacketReader, new, push, Ending, wants_more, failed, stuck, Drained, with_packet, drain,
  then_feed, feed,
}
use mac_os_sstp_client.Packet.Reader.Drain.{
  drain-ok, drain-incomplete, continue_from, continue, header_length-append, drain-push_below,
  drained_below, drain-ne-stuck,
}

abbrev pub flatten : List Bytes → Bytes
flatten [] = []
flatten (c ∷ cs) = c ++ flatten cs

-- The reader that goes on, if the run did not end in an error.
abbrev pub left_over : Ending → PacketReader → Option PacketReader
left_over wants_more r = some r
left_over _ r = none

left_over-some : (how : Ending) (r r' : PacketReader) → left_over how r ≡ some r' → r ≡ r'
left_over-some wants_more r r' e = cc
left_over-some (failed x) r r' e = cc
left_over-some stuck r r' e = cc

abbrev pub SameRun : Drained → Drained → Type 0
SameRun d d' =
    (d.packets ≡ d'.packets)
    × (d.ending ≡ d'.ending)
    × (left_over d.ending d.reader ≡ left_over d'.ending d'.reader)

push-push : (r : PacketReader) (xs ys : Bytes) → push r (xs ++ ys) ≡ push (push r xs) ys
unfolding push
push-push r xs ys = ap (λ b. record { buf = b }) (sym (append_assoc r.buf xs ys))

push-nil : (r : PacketReader) → push r [] ≡ r
unfolding push
push-nil r = ap (λ b. record { buf = b }) (append-nil r.buf)

feed-cons :
    (r : PacketReader) (c : Bytes) (cs : List Bytes) (how : Ending) (d : Drained)
    → d.ending ≡ how
    → how ≢ stuck
    → (how ≡ wants_more → SameRun (feed d.reader cs) (drain (push d.reader (flatten cs))))
    → SameRun (then_feed how d (feed d.reader cs)) (continue_from how d (flatten cs))
unfolding continue_from
feed-cons r c cs wants_more d eh ne ih =
    let (packets, ending, reader) = ih refl in (ap (λ ps. d.packets ++ ps) packets, ending, reader)
feed-cons r c cs (failed x) d eh ne ih = (refl, refl, rw eh)
feed-cons r c cs stuck d eh ne ih = absurd (ne refl)

-- The first chunk of several, when the rest is fed as if it were read at once.
feed_behind :
    (r : PacketReader) (c : Bytes) (cs : List Bytes)
    → ((drain (push r c)).ending ≡ wants_more
        → SameRun
            (feed (drain (push r c)).reader cs)
            (drain (push (drain (push r c)).reader (flatten cs))))
    → SameRun (feed r (c ∷ cs)) (drain (push r (c ++ flatten cs)))
unfolding feed
feed_behind r c cs ih =
    let d = drain (push r c) in
    let whole : drain (push r (c ++ flatten cs)) ≡ continue d (flatten cs) =
      ap drain (push-push r c (flatten cs))
      ∙ drain-push_below (suc (length (push r c).buf)) (push r c) (flatten cs) (omega arith) in
    rw whole (feed-cons r c cs d.ending d refl (drain-ne-stuck (push r c)) ih)

feed_lem :
    (r : PacketReader) (chunks : List Bytes)
    → decode r.buf ≡ err incomplete
    → SameRun (feed r chunks) (drain (push r (flatten chunks)))
unfolding feed
feed_lem r [] e = rw (push-nil r, drain-incomplete r e) (refl, refl, refl)
feed_lem r (c ∷ cs) e = feed_behind r c cs (λ w.
    feed_lem (drain (push r c)).reader cs
      (drained_below (suc (length (push r c).buf)) (push r c) (omega arith) w))

-- For one chunk at least the reader may hold anything before.
pub feed_some :
    (r : PacketReader) (c : Bytes) (cs : List Bytes)
    → SameRun (feed r (c ∷ cs)) (drain (push r (c ++ flatten cs)))
feed_some r c cs = feed_behind r c cs (λ w.
    feed_lem (drain (push r c)).reader cs
      (drained_below (suc (length (push r c).buf)) (push r c) (omega arith) w))

wire_long : (o : Outgoing) → 4 ≤ length (wire o)
unfolding encode_data encode_ctrl
wire_long (out_data frame) = omega arith
wire_long (out_ctrl m attrs) = omega arith

-- The packets that come out, how the run ends, and the bytes left over depend only on the bytes
-- that were read, not on how the reads cut them into chunks: all chunks read at once give the
-- same. (After an error what is left over is not compared.)
pub feed-chunking :
    (chunks : List Bytes) → SameRun (feed new chunks) (drain (push new (flatten chunks)))
unfolding new
feed-chunking chunks = feed_lem (record { buf = [] }) chunks (unfold decode in refl)

abbrev pub wires : List Outgoing → Bytes
wires [] = []
wires (o ∷ os) = wire o ++ wires os

drain-wires :
    (os : List Outgoing)
    → All Fits os
    → drain (record { buf = wires os })
      ≡ record { packets = map seen os; reader = record { buf = [] }; ending = wants_more }
drain-wires [] h = drain-incomplete (record { buf = [] }) (unfold decode in refl)
drain-wires (o ∷ os) (ho, hos) =
    drain-ok (record { buf = wire o ++ wires os }) (seen o) (decode-wire o (wires os) ho)
    ∙ ap (with_packet (seen o)) (ap drain (ap (λ b. record { buf = b }) cut) ∙ drain-wires os hos)
  where
    header : header_length (wire o ++ wires os) ≡ length (wire o)
    header = header_length-append (wire o) (wires os) (wire_long o) ∙ header_length-wire o ho

    cut : drop (header_length (wire o ++ wires os)) (wire o ++ wires os) ≡ wires os
    cut = rw header (drop-length (wire o) (wires os))

-- However the bytes of a sequence of written packets, each of which fits its length field and has
-- no `Unknown` type of a named number, are cut into reads, exactly these packets
-- come out, in order, with no error, and no byte is left over.
pub feed-wires :
    (os : List Outgoing) (chunks : List Bytes)
    → All Fits os
    → flatten chunks ≡ wires os
    → ((feed new chunks).packets ≡ map seen os)
      × ((feed new chunks).ending ≡ wants_more)
      × ((feed new chunks).reader.buf ≡ [])
unfolding new push
feed-wires os chunks h e =
    let (packets, ending, reader) = feed-chunking chunks in
    let whole = ap (λ b. drain (record { buf = b })) e ∙ drain-wires os h in
    let stops = ending ∙ ap (λ d. d.ending) whole in
    let same = reader ∙ ap (λ d. left_over d.ending d.reader) whole in
    (packets ∙ ap (λ d. d.packets) whole, stops, ap (λ r. r.buf) (left_over-some _ _ _ same))
