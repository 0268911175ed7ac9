-- ===== src/Packet/Reader/Drain.antt =====
-- The loop over `next_packet`, packet by packet, and on a reader into which more bytes are pushed.
use mac_os_sstp_client.Prelude.{
  ℕ, zero, suc, ◌+◌, ◌≤◌, ◌<◌, ◌≡◌, ◌≢◌, ◌⊎◌, inl, inr, refl, sym, ap, ◌∙◌, arith, [], ◌∷◌, ◌++◌,
  Result, ok, err, length, drop, length-drop, drop-append, Bytes,
}
use mac_os_sstp_client.Packet.{Packet, DecodeError, incomplete, bad_version, malformed, decode}
use mac_os_sstp_client.Packet.Prefix.{header_length, decode-fits, decode-append}
use mac_os_sstp_client.Packet.Reader.{
  PacketReader, push, next_packet, Ending, wants_more, failed, stuck, Drained, with_packet,
  drain_loop, drain,
}

decode-cases :
    (buf : Bytes)
    → (decode buf ≡ err incomplete)
      ⊎ (((e : DecodeError) × (decode buf ≡ err e) × (e ≢ incomplete))
          ⊎ ((p : Packet) × (decode buf ≡ ok p)))
decode-cases buf = go (decode buf) refl
  where
    go :
        (r : Result DecodeError Packet)
        → decode buf ≡ r
        → (decode buf ≡ err incomplete)
          ⊎ (((e : DecodeError) × (decode buf ≡ err e) × (e ≢ incomplete))
              ⊎ ((p : Packet) × (decode buf ≡ ok p)))
    go (ok p) e = inr (inr (p, e))
    go (err incomplete) e = inl e
    go (err (bad_version v)) e = inr (inl (bad_version v, e, λ q. cc))
    go (err (malformed why)) e = inr (inl (malformed why, e, λ q. cc))

-- The buffer behind its first packet.
abbrev pub rest : PacketReader → PacketReader
rest r = record { buf = drop (header_length r.buf) r.buf }

abbrev pub stop : PacketReader → Ending → Drained
stop r how = record { packets = []; reader = r; ending = how }

loop-ok :
    (f : ℕ) (r : PacketReader) (p : Packet)
    → decode r.buf ≡ ok p
    → drain_loop (suc f) r ≡ with_packet p (drain_loop f (rest r))
unfolding drain_loop next_packet
loop-ok f r p e = ground (arith, e)

loop-incomplete :
    (f : ℕ) (r : PacketReader)
    → decode r.buf ≡ err incomplete
    → drain_loop (suc f) r ≡ stop r wants_more
unfolding drain_loop next_packet
loop-incomplete f r e = ground (arith, e)

loop-err :
    (f : ℕ) (r : PacketReader) (e : DecodeError)
    → decode r.buf ≡ err e
    → e ≢ incomplete
    → drain_loop (suc f) r ≡ stop r (failed e)
unfolding drain_loop next_packet
loop-err f r e h n = ground (arith, h)

rest_shorter :
    (r : PacketReader) (p : Packet) → decode r.buf ≡ ok p → length (rest r).buf + 4 ≤ length r.buf
rest_shorter r p e =
    omega (arith, length-drop (header_length r.buf) r.buf, decode-fits r.buf {p = p} e)

-- With fuel above the length of the buffer, more fuel changes nothing.
loop_fuel :
    (f g : ℕ) (r : PacketReader)
    → length r.buf < f
    → length r.buf < g
    → drain_loop f r ≡ drain_loop g r
loop_fuel zero g r hf hg = absurd (omega arith)
loop_fuel (suc f) zero r hf hg = absurd (omega arith)
loop_fuel (suc f) (suc g) r hf hg = elim (decode-cases r.buf) [
  | inl e ↦ rw (loop-incomplete f r e, loop-incomplete g r e)
  | inr (inl (x, e, n)) ↦ rw (loop-err f r x e n, loop-err g r x e n)
  | inr (inr (p, e)) ↦
      rw (loop-ok f r p e, loop-ok g r p e)
        (ap (with_packet p) (
          loop_fuel f g (rest r) (omega (arith, rest_shorter r p e))
            (omega (arith, rest_shorter r p e))))
]

pub drain-ok :
    (r : PacketReader) (p : Packet) → decode r.buf ≡ ok p → drain r ≡ with_packet p (drain (rest r))
unfolding drain
drain-ok r p e =
    loop-ok (length r.buf) r p e
    ∙ ap (with_packet p) (
        loop_fuel (length r.buf) (suc (length (rest r).buf)) (rest r)
          (omega (arith, rest_shorter r p e)) (omega arith))

pub drain-incomplete :
    (r : PacketReader) → decode r.buf ≡ err incomplete → drain r ≡ stop r wants_more
unfolding drain
drain-incomplete r e = loop-incomplete (length r.buf) r e

drain-err :
    (r : PacketReader) (e : DecodeError)
    → decode r.buf ≡ err e
    → e ≢ incomplete
    → drain r ≡ stop r (failed e)
unfolding drain
drain-err r e h n = loop-err (length r.buf) r e h n

-- The drained reader, after more bytes were read.
unfoldable pub continue_from : Ending → Drained → Bytes → Drained
continue_from wants_more d more =
    let next = drain (push d.reader more) in record next { packets = d.packets ++ next.packets }
continue_from (failed e) d more = record d { reader = push d.reader more }
continue_from stuck d more = d

abbrev pub continue : Drained → Bytes → Drained
continue d more = continue_from d.ending d more

continue-with_packet :
    (p : Packet) (how : Ending) (d : Drained) (more : Bytes)
    → continue_from how (with_packet p d) more ≡ with_packet p (continue_from how d more)
unfolding continue_from
continue-with_packet p wants_more d more = refl
continue-with_packet p (failed e) d more = refl
continue-with_packet p stuck d more = refl

pub header_length-append :
    (buf more : Bytes) → 4 ≤ length buf → header_length (buf ++ more) ≡ header_length buf
header_length-append (_ ∷ _ ∷ _ ∷ _ ∷ xs) more h = refl
header_length-append [] more h = absurd (omega arith)
header_length-append (_ ∷ []) more h = absurd (omega arith)
header_length-append (_ ∷ _ ∷ []) more h = absurd (omega arith)
header_length-append (_ ∷ _ ∷ _ ∷ []) more h = absurd (omega arith)

rest-push :
    (r : PacketReader) (more : Bytes) (p : Packet)
    → decode r.buf ≡ ok p
    → rest (push r more) ≡ push (rest r) more
unfolding push
rest-push r more p e =
    let (four, fits) = decode-fits r.buf {p = p} e in
    ap (λ b. record { buf = b })
      (rw (header_length-append r.buf more (omega arith))
        (drop-append (header_length r.buf) r.buf more fits))

decode-push :
    (r : PacketReader) (more : Bytes)
    → decode r.buf ≢ err incomplete
    → decode (push r more).buf ≡ decode r.buf
unfolding push
decode-push r more h = decode-append r.buf more h

pub drain-push_below :
    (n : ℕ) (r : PacketReader) (more : Bytes)
    → length r.buf < n
    → drain (push r more) ≡ continue (drain r) more
drain-push_below zero r more h = absurd (omega arith)
drain-push_below (suc n) r more h = elim (decode-cases r.buf) [
  | inl e ↦ rw (drain-incomplete r e) (unfold continue_from in refl)
  | inr (inl (x, e, ne)) ↦
      rw (drain-err r x e ne, drain-err (push r more) x (decode-push r more (λ q. ne (cc)) ∙ e) ne)
        (unfold continue_from in refl)
  | inr (inr (p, e)) ↦
      rw
        (
          drain-ok r p e,
          drain-ok (push r more) p (decode-push r more (λ q. cc) ∙ e),
          rest-push r more p e,
        )
        (ap (with_packet p) (drain-push_below n (rest r) more (omega (arith, rest_shorter r p e)))
          ∙ sym (continue-with_packet p (drain (rest r)).ending (drain (rest r)) more))
]

-- The reader that stops for more bytes holds no whole packet.
pub drained_below :
    (n : ℕ) (r : PacketReader)
    → length r.buf < n
    → (drain r).ending ≡ wants_more
    → decode (drain r).reader.buf ≡ err incomplete
drained_below zero r h w = absurd (omega arith)
drained_below (suc n) r h w = elim (decode-cases r.buf) [
  | inl e ↦ rw (drain-incomplete r e) e
  | inr (inl (x, e, ne)) ↦ cc (w, drain-err r x e ne)
  | inr (inr (p, e)) ↦
      rw (drain-ok r p e)
        (drained_below n (rest r) (omega (arith, rest_shorter r p e)) (rw (drain-ok r p e) at w))
]

not_stuck_below : (n : ℕ) (r : PacketReader) → length r.buf < n → (drain r).ending ≢ stuck
not_stuck_below zero r h w = absurd (omega arith)
not_stuck_below (suc n) r h w = elim (decode-cases r.buf) [
  | inl e ↦ cc (w, drain-incomplete r e)
  | inr (inl (x, e, ne)) ↦ cc (w, drain-err r x e ne)
  | inr (inr (p, e)) ↦
      not_stuck_below n (rest r) (omega (arith, rest_shorter r p e)) (rw (drain-ok r p e) at w)
]

-- The loop over `next_packet` always ends by itself, by wanting more bytes or by an error.
pub drain-ne-stuck : (r : PacketReader) → (drain r).ending ≢ stuck
drain-ne-stuck r = not_stuck_below (suc (length r.buf)) r (omega arith)
