-- ===== src/Tests/Streams.antt =====
-- The reader on a stream that is cut inside its packets.
use mac_os_sstp_client.Prelude.{◌≡◌, ◌≢◌, refl, arith, List, [], ◌∷◌, map, Bytes}
use mac_os_sstp_client.Packet.{msg_type_to_u16, disconnect, encode_data, encode_ctrl}
use mac_os_sstp_client.Packet.RoundTrip.{Outgoing, out_data, out_ctrl, seen}
use mac_os_sstp_client.Packet.Reader.{new, push, drain, feed, stuck, wants_more}
use mac_os_sstp_client.Packet.Reader.Drain.{drain-ne-stuck}
use mac_os_sstp_client.Packet.Reader.Stream.{flatten, SameRun, feed-chunking, feed-wires}

abbrev sent : List Outgoing
sent = out_data (1 ∷ 2 ∷ []) ∷ out_ctrl disconnect [] ∷ []

abbrev chunks : List Bytes
chunks = (0x10 ∷ 0 ∷ []) ∷ (0 ∷ 6 ∷ 1 ∷ 2 ∷ 0x10 ∷ []) ∷ [] ∷ (1 ∷ 0 ∷ 8 ∷ 0 ∷ 6 ∷ 0 ∷ 0 ∷ []) ∷ []

feed-wires_example :
    ((feed new chunks).packets ≡ map seen sent)
    × ((feed new chunks).ending ≡ wants_more)
    × ((feed new chunks).reader.buf ≡ [])
unfolding encode_data encode_ctrl msg_type_to_u16
feed-wires_example = feed-wires sent chunks (omega arith, ((tt, tt, omega arith), tt)) refl

feed-chunking_run : SameRun (feed new chunks) (drain (push new (flatten chunks)))
feed-chunking_run = feed-chunking chunks

drain-ne-stuck_run : (drain (record { buf = 0x10 ∷ 0 ∷ 0 ∷ 4 ∷ 0x11 ∷ [] })).ending ≢ stuck
drain-ne-stuck_run = drain-ne-stuck (record { buf = 0x10 ∷ 0 ∷ 0 ∷ 4 ∷ 0x11 ∷ [] })
