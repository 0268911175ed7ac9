-- ===== src/Lcp/Bounds/Frames.antt =====
-- What holds of the state of LCP through any frames: lcp.rs, `receive`.
use mac_os_sstp_client.Prelude.{
  ℕ, refl, arith, List, [], ◌∷◌, Option, none, some, Bytes, AreBytes, All, length,
}
use mac_os_sstp_client.Cp.{Frame, decode}
use mac_os_sstp_client.Cp.Bounds.{PayloadOk, decode-PayloadOk}
use mac_os_sstp_client.Lcp.{Lcp, LcpResult, is_up, new, start, receive_frame, receive}
use mac_os_sstp_client.Lcp.Bounds.{LcpOk, receive_frame-LcpOk, send_config_request-LcpOk}

receive-LcpOk :
    (fresh : ℕ → ℕ) (l : Lcp) (bytes : Bytes)
    → AreBytes bytes
    → LcpOk l
    → LcpOk (receive fresh l bytes).0
unfolding receive
receive-LcpOk fresh l bytes b v = go (decode bytes) (decode-PayloadOk bytes b)
  where
    go :
        (o : Option Frame)
        → PayloadOk o
        → LcpOk
            (elim o as (λ x. Lcp × LcpResult) [
              | none ↦ (l, record { to_send = []; up = is_up l })
              | some frame ↦
                  let (l', sent) = receive_frame fresh l frame.code frame in
                  (l', record { to_send = sent; up = is_up l' })
            ]).0
    go none p = v
    go (some frame) p = receive_frame-LcpOk fresh l frame.code frame p v

-- The state behind the frames that were received. Each frame draws numbers of its own, which are
-- given for the number of frames that follow it.
pub received : (ℕ → ℕ → ℕ) → Lcp → List Bytes → Lcp
received fresh l [] = l
received fresh l (bytes ∷ more) = received fresh (receive (fresh (length more)) l bytes).0 more

received-LcpOk :
    (fresh : ℕ → ℕ → ℕ) (l : Lcp) (frames : List Bytes)
    → All AreBytes frames
    → LcpOk l
    → LcpOk (received fresh l frames)
unfolding received
received-LcpOk fresh l [] h v = v
received-LcpOk fresh l (bytes ∷ more) (b, h) v =
    received-LcpOk fresh (receive (fresh (length more)) l bytes).0 more h
      (receive-LcpOk (fresh (length more)) l bytes b v)

-- Whatever frames arrive behind the first request, well formed or not: the identifiers stay octets;
-- LCP only ever asks for a magic number and the two compressions, each short enough for the length
-- octet of its option; and the authentication that it has accepted, if there is one, is MS-CHAPv2.
pub received_in_bounds :
    (fresh : ℕ → ℕ → ℕ) (magic : ℕ) (frames : List Bytes)
    → All AreBytes frames
    → LcpOk (received fresh (start (new magic)).0 frames)
unfolding new
received_in_bounds fresh magic frames h = received-LcpOk fresh _ frames h (
    send_config_request-LcpOk (new magic) (record {
      id_ok = omega arith;
      sent_ok = tt;
      offers_ok = ((omega arith, refl), ((omega arith, refl), ((omega arith, refl), tt)));
      auth_ok = tt;
    }))
