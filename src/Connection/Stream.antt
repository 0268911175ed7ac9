-- ===== src/Connection/Stream.antt =====
-- connection.rs: the loop on the reads off the TLS stream, against the packets of the whole stream.
use mac_os_sstp_client.Prelude.{
  ℕ, zero, suc, ◌≡◌, ◌⊎◌, inl, inr, refl, sym, ap, ◌∙◌, List, [], ◌∷◌, ◌++◌, map, Option, none,
  some, Result, ok, err, length, Bytes, All, false, is_empty,
}
use mac_os_sstp_client.Prelude.Crypto.{Crypto}
use mac_os_sstp_client.Packet.{Packet, DecodeError}
use mac_os_sstp_client.Packet.Reader.{
  PacketReader, push, next_packet, Ending, wants_more, failed, stuck, Drained, then_feed,
  drain_loop, drain, feed,
}
use mac_os_sstp_client.Packet.Reader.Stream.{flatten, feed_some}
use mac_os_sstp_client.Connection.State.{
  malformed_packet, World, Session, Connection, Step, going, returned, panicked, hung, ◌>>>◌, Wake,
  tls_read,
}
use mac_os_sstp_client.Connection.Events.{fails}
use mac_os_sstp_client.Connection.Handlers.{handle_packet, packet_loop, on_read, step, run_loop}

pub >>>-assoc {ℓ κ ι} :
    {S : Type ℓ} {T : Type κ} {U : Type ι} (m : Step S) (f : S → Step T) (g : T → Step U)
    → ((m >>> f) >>> g) ≡ (m >>> λ s. f s >>> g)
>>>-assoc (going s) f g = refl
>>>-assoc (returned e log) f g = refl
>>>-assoc (panicked log) f g = refl
>>>-assoc (hung log) f g = refl

>>>-ext {ℓ κ} :
    {S : Type ℓ} {T : Type κ} (m : Step S) (f g : S → Step T)
    → ((s : S) → f s ≡ g s)
    → (m >>> f) ≡ (m >>> g)
>>>-ext (going s) f g h = h s
>>>-ext (returned e log) f g h = refl
>>>-ext (panicked log) f g h = refl
>>>-ext (hung log) f g h = refl

answer-cases :
    (a : Result DecodeError (Option Packet))
    → ((p : Packet) × (a ≡ ok (some p))) ⊎ ((a ≡ ok none) ⊎ ((e : DecodeError) × (a ≡ err e)))
answer-cases (ok (some p)) = inl (p, refl)
answer-cases (ok none) = inr (inl refl)
answer-cases (err e) = inr (inr (e, refl))

-- What the task is about, without the reader and the count of echoes.
abbrev pub forget : Step Connection → Step Session
forget m = m >>> λ k. going k.session

abbrev pub conclude : Ending → Session → Step Session
conclude wants_more s = going s
conclude (failed e) s = fails (malformed_packet e) s.log
conclude stuck s = hung s.log

abbrev pub received : Bytes → Wake
received chunk = tls_read (ok chunk)

module _ (c : Crypto) (w : World) where
  -- The specification: the packets one after the other, and then the end of the stream.
  unfoldable pub serve : List Packet → Session → Step Session
  serve [] s = going s
  serve (pkt ∷ pkts) s = handle_packet c w pkt s >>> serve pkts

  abbrev pub serve_all : Drained → Session → Step Session
  serve_all d s = serve d.packets s >>> conclude d.ending

  -- The end of the loop with the reader that is left.
  abbrev leave : Ending → PacketReader → Session → Step (Session × PacketReader)
  leave how r s = conclude how s >>> λ s'. going (s', r)

  serve-append :
      (ps qs : List Packet) (s : Session) → serve (ps ++ qs) s ≡ (serve ps s >>> serve qs)
  unfolding serve
  serve-append [] qs s = refl
  serve-append (p ∷ ps) qs s =
      >>>-ext (handle_packet c w p s) _ _ (serve-append ps qs)
      ∙ sym (>>>-assoc (handle_packet c w p s) (serve ps) (serve qs))

  loop-serve :
      (fuel : ℕ) (s : Session) (r : PacketReader)
      → packet_loop c w fuel s r ≡ (
          serve (drain_loop fuel r).packets s
          >>> leave (drain_loop fuel r).ending (drain_loop fuel r).reader)
  unfolding packet_loop drain_loop serve
  loop-serve zero s r = refl
  loop-serve (suc fuel) s r = elim (answer-cases (next_packet r).1) [
    | inl (pkt, q) ↦
        rw (q, packet_loop, drain_loop)
          (>>>-ext (handle_packet c w pkt s) _ _ (λ s'. loop-serve fuel s' (next_packet r).0)
            ∙ sym (>>>-assoc (handle_packet c w pkt s) _ _))
    | inr (inl q) ↦ rw (q, packet_loop, drain_loop)
    | inr (inr (e, q)) ↦ rw (q, packet_loop, drain_loop)
  ]

  abbrev after_read : PacketReader → Session → Step Connection
  after_read r s = going (record { session = s; reader = r; unanswered_echoes = 0 })

  leave-after_read :
      (how : Ending) (r : PacketReader) (s : Session)
      → (leave how r s >>> λ x. after_read x.1 x.0) ≡ (conclude how s >>> after_read r)
  leave-after_read wants_more r s = refl
  leave-after_read (failed e) r s = refl
  leave-after_read stuck r s = refl

  drained-after_read :
      (d : Drained) (s : Session)
      → ((serve d.packets s >>> leave d.ending d.reader) >>> λ x. after_read x.1 x.0)
        ≡ (serve_all d s >>> after_read d.reader)
  drained-after_read d s =
      >>>-assoc (serve d.packets s) _ _
      ∙ >>>-ext (serve d.packets s) _ _ (leave-after_read d.ending d.reader)
      ∙ sym (>>>-assoc (serve d.packets s) _ _)

  drain-drain_loop : (r : PacketReader) → drain_loop (suc (length r.buf)) r ≡ drain r
  unfolding drain
  drain-drain_loop r = refl

  -- One read is the packets that it makes whole.
  pub on_read-serve :
      (k : Connection) (chunk : Bytes)
      → is_empty chunk ≡ false
      → on_read c w k (ok chunk) ≡ (
          serve_all (drain (push k.reader chunk)) k.session
          >>> after_read (drain (push k.reader chunk)).reader)
  unfolding on_read
  on_read-serve k [] h = cc
  on_read-serve k (b ∷ bs) h =
      let r = push k.reader (b ∷ bs) in
      ap (λ m. m >>> λ x. after_read x.1 x.0) (loop-serve (suc (length r.buf)) k.session r)
      ∙ rw (drain-drain_loop r) (drained-after_read (drain r) k.session)

  behind-conclude :
      (how : Ending) (d more : Drained) (r : PacketReader) (next : Connection → Step Connection)
      (s : Session)
      → d.ending ≡ how
      → ((s' : Session)
          → forget (next (record { session = s'; reader = r; unanswered_echoes = 0 }))
            ≡ serve_all more s')
      → (serve d.packets s >>> λ s'.
          conclude how s' >>> λ s''. after_read r s'' >>> λ k. forget (next k))
        ≡ serve_all (then_feed how d more) s
  behind-conclude wants_more d more r next s q h =
      >>>-ext (serve d.packets s) _ _ h
      ∙ sym (>>>-assoc (serve d.packets s) (serve more.packets) (conclude more.ending))
      ∙ ap (λ m. m >>> conclude more.ending) (sym (serve-append d.packets more.packets s))
  behind-conclude (failed e) d more r next s q h = rw q
  behind-conclude stuck d more r next s q h = rw q

  -- The reads one after the other, each after what the one before has left.
  reads-feed :
      (k : Connection) (chunks : List Bytes)
      → All (λ chunk. is_empty chunk ≡ false) chunks
      → forget (run_loop c w k (map received chunks)) ≡ serve_all (feed k.reader chunks) k.session
  unfolding run_loop step serve feed
  reads-feed k [] h = refl
  reads-feed k (chunk ∷ chunks) h =
      let d = drain (push k.reader chunk) in
      let loop : Connection → Step Connection = λ k'. run_loop c w k' (map received chunks) in
      rw (on_read-serve k chunk h.0) (
        >>>-assoc (serve_all d k.session >>> after_read d.reader) loop (λ k'. going k'.session)
        ∙ >>>-assoc (serve_all d k.session) (after_read d.reader) _
        ∙ >>>-assoc (serve d.packets k.session) (conclude d.ending) _
        ∙ behind-conclude d.ending d (feed d.reader chunks) d.reader loop k.session refl (λ s'.
          reads-feed (record { session = s'; reader = d.reader; unanswered_echoes = 0 }) chunks
            h.1))

-- The task implements its specification on any sequence of reads with at least a byte each: its
-- engine, its device and all that it has done, and how it ends if it does, are what the packets of
-- the bytes read, taken as one piece behind what the reader held, give one after the other,
-- followed by the error of the first malformed packet if there is one. How the bytes are cut into
-- reads does not matter.
pub reads_refine :
    (c : Crypto) (w : World) (k : Connection) (chunk : Bytes) (chunks : List Bytes)
    → All (λ b. is_empty b ≡ false) (chunk ∷ chunks)
    → forget (run_loop c w k (map received (chunk ∷ chunks)))
      ≡ serve_all c w (drain (push k.reader (chunk ++ flatten chunks))) k.session
reads_refine c w k chunk chunks h =
    let (packets, ending, rest) = feed_some k.reader chunk chunks in
    reads-feed c w k (chunk ∷ chunks) h
    ∙ ap (λ ps. serve c w ps k.session >>> conclude (feed k.reader (chunk ∷ chunks)).ending) packets
    ∙ ap
        (λ how.
          serve c w (drain (push k.reader (chunk ++ flatten chunks))).packets k.session
          >>> conclude how)
        ending
