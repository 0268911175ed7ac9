-- ===== src/Engine/Replies.antt =====
-- engine.rs: data frames on their way out (`wrap_data`) and in (`on_ppp_frame`).
use mac_os_sstp_client.Prelude.{◌+◌, ◌≡◌, ◌<◌, refl, arith, [], ◌∷◌, ◌++◌, some, length, Bytes, ok}
use mac_os_sstp_client.Prelude.Crypto.{Crypto}
use mac_os_sstp_client.Packet.{Packet, data_packet}
use mac_os_sstp_client.Packet as Packet
use mac_os_sstp_client.Packet.RoundTrip.{decode-encode_data}
use mac_os_sstp_client.Ppp as Ppp
use mac_os_sstp_client.Ppp.Frames.{IsProtocol, ppp_decode-encode}
use mac_os_sstp_client.Cp as Cp
use mac_os_sstp_client.Lcp as Lcp
use mac_os_sstp_client.Engine.State.{deliver_ip_packet, Engine, Draws, done}
use mac_os_sstp_client.Engine.Handlers.{wrap_data, on_protocol, on_ppp_frame, on_packet}

-- What `wrap_data` makes of a payload is decoded to one data packet, whose frame is decoded to the
-- protocol and the payload.
pub decode-wrap_data :
    (p : Ppp.Protocol) (payload more : Bytes)
    → IsProtocol p
    → 8 + length payload < 65536
    → (Packet.decode (wrap_data p payload ++ more) ≡ ok (data_packet (Ppp.encode p payload)))
      × (Ppp.decode (Ppp.encode p payload) ≡ some (p, payload))
unfolding wrap_data Ppp.encode
decode-wrap_data p payload more hp h =
    (decode-encode_data (Ppp.encode p payload) more (omega arith), ppp_decode-encode p payload hp)

-- The protocols that the engine does not speak.
abbrev pub IsForeign : Ppp.Protocol → Type 0
IsForeign Ppp.pap = Unit {0}
IsForeign (Ppp.unknown v) = IsProtocol (Ppp.unknown v)
IsForeign _ = ⊥

on_frame :
    (c : Crypto) (draws : Draws) (e : Engine) (p : Ppp.Protocol) (payload : Bytes)
    → IsProtocol p
    → on_packet c draws e (data_packet (Ppp.encode p payload))
      ≡ on_protocol c draws e (Ppp.encode p payload) p payload
unfolding on_packet on_ppp_frame
on_frame c draws e p payload hp = rw (ppp_decode-encode p payload hp, on_packet, on_ppp_frame) refl

-- An IP packet of at most 65527 bytes that one side wraps reaches the other side's engine as a
-- packet that is delivered unchanged, in every phase and without a change of the engine.
pub ip_packets_delivered :
    (c : Crypto) (draws : Draws) (e : Engine) (payload more : Bytes)
    → 8 + length payload < 65536
    → (pkt : Packet) × (Packet.decode (wrap_data Ppp.ip payload ++ more) ≡ ok pkt)
      × (on_packet c draws e pkt ≡ done e (deliver_ip_packet payload ∷ []))
unfolding on_protocol
ip_packets_delivered c draws e payload more h = (
  data_packet (Ppp.encode Ppp.ip payload),
  (decode-wrap_data Ppp.ip payload more tt h).0,
  on_frame c draws e Ppp.ip payload tt,
)
