-- ===== src/Packet/Reader.antt =====
-- packet.rs's `PacketReader`, and the loop over `next_packet` in connection.rs.
pub mod Drain
pub mod Stream
use mac_os_sstp_client.Prelude.{
  ℕ, zero, suc, ◌+◌, List, [], ◌∷◌, ◌++◌, Option, none, some, Result, ok, err, length, drop, Bytes,
}
use mac_os_sstp_client.Packet.{Packet, DecodeError, incomplete, decode}
use mac_os_sstp_client.Packet.Prefix.{header_length}

pub record PacketReader : Type 0 where
  pub buf : Bytes

unfoldable pub new : PacketReader
new = record { buf = [] }

unfoldable pub push : PacketReader → Bytes → PacketReader
push r bytes = record { buf = r.buf ++ bytes }

-- What `next_packet` returns for each answer of `decode`, over the same buffer.
popped :
    PacketReader → Result DecodeError Packet → PacketReader × Result DecodeError (Option Packet)
popped r (ok pkt) = (record { buf = drop (header_length r.buf) r.buf }, ok (some pkt))
popped r (err incomplete) = (r, ok none)
popped r (err e) = (r, err e)

unfoldable pub next_packet : PacketReader → PacketReader × Result DecodeError (Option Packet)
unfolding popped
next_packet r = popped r (decode r.buf)

-- How the inner loop of `run_inner` ends: it breaks to read more, or returns an error. `stuck` is
-- the end of the fuel.
pub data Ending : Type 0 where
  wants_more : Ending
  failed : DecodeError → Ending
  stuck : Ending

pub record Drained : Type 0 where
  pub packets : List Packet
  pub reader : PacketReader
  pub ending : Ending

abbrev pub with_packet : Packet → Drained → Drained
with_packet p d = record d { packets = p ∷ d.packets }

unfoldable pub drain_loop : ℕ → PacketReader → Drained
drain_loop zero r = record { packets = []; reader = r; ending = stuck }
drain_loop (suc fuel) r =
    let (r', answer) = next_packet r in
    elim answer [
      | ok (some p) ↦ with_packet p (drain_loop fuel r')
      | ok none ↦ record { packets = []; reader = r'; ending = wants_more }
      | err e ↦ record { packets = []; reader = r'; ending = failed e }
    ]

-- Each packet takes 4 bytes at least, so there are fewer rounds than this.
unfoldable pub drain : PacketReader → Drained
unfolding drain_loop
drain r = drain_loop (suc (length r.buf)) r

-- An error ends the run, and what is still to be read is not looked at.
abbrev pub then_feed : Ending → Drained → Drained → Drained
then_feed wants_more d more = record more { packets = d.packets ++ more.packets }
then_feed _ d more = d

-- The reads off the socket one after the other: each chunk is pushed and the reader drained.
unfoldable pub feed : PacketReader → List Bytes → Drained
feed r [] = record { packets = []; reader = r; ending = wants_more }
feed r (chunk ∷ chunks) =
    let d = drain (push r chunk) in then_feed d.ending d (feed d.reader chunks)
