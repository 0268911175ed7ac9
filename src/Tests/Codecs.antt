-- ===== src/Tests/Codecs.antt =====
-- The encoders and decoders on concrete bytes.
use mac_os_sstp_client.Prelude.{◌≡◌, refl, arith, List, [], ◌∷◌, ◌++◌, some, replicate, ok, err}
use mac_os_sstp_client.Packet.{
  Packet, ctrl, connect_request, encap_protocol, connected, crypto_bind, encode_data, encode_ctrl,
  incomplete,
}
use mac_os_sstp_client.Packet as Packet
use mac_os_sstp_client.Packet.RoundTrip.{out_data, out_ctrl, wire, seen, decode-wire}
use mac_os_sstp_client.Packet.Prefix.{decode-append, decode_cut}
use mac_os_sstp_client.Ppp as Ppp
use mac_os_sstp_client.Ppp.Frames.{ppp_decode-encode, decode_bare}
use mac_os_sstp_client.Cp as Cp
use mac_os_sstp_client.Cp.{Opt}
use mac_os_sstp_client.Cp.Frames.{cp_decode-encode}
use mac_os_sstp_client.Cp.Options.{Accounts, decode_options-encode_options, decode_options-Accounts}
use mac_os_sstp_client.Cmac.{sha1, attr_data, compound_mac, build_connected_message}
use mac_os_sstp_client.Cmac.Binding.{bound_data, decode-build_connected_message}
use mac_os_sstp_client.Tests.{toy}

-- A Connect-Request as `start` sends it, and two bytes of the next packet behind it.
decode-wire_example :
    Packet.decode
      (wire (out_ctrl connect_request ((encap_protocol, 0 ∷ 1 ∷ []) ∷ [])) ++ 0x10 ∷ 0 ∷ [])
    ≡ ok (seen (out_ctrl connect_request ((encap_protocol, 0 ∷ 1 ∷ []) ∷ [])))
unfolding encode_ctrl
decode-wire_example =
    decode-wire (out_ctrl connect_request ((encap_protocol, 0 ∷ 1 ∷ []) ∷ [])) (0x10 ∷ 0 ∷ [])
      (tt, (tt, tt), omega arith)

decode_cut_example : Packet.decode (0x10 ∷ 0 ∷ 0 ∷ 7 ∷ 0xFF ∷ []) ≡ err incomplete
unfolding encode_data
decode_cut_example =
    decode_cut (out_data (0xFF ∷ 3 ∷ 0xC0 ∷ [])) (0x10 ∷ 0 ∷ 0 ∷ 7 ∷ 0xFF ∷ []) (0xC0 ∷ []) 3
      (omega arith) refl

decode-append_run :
    Packet.decode ((0x20 ∷ 0 ∷ 0 ∷ 7 ∷ []) ++ (1 ∷ [])) ≡ Packet.decode (0x20 ∷ 0 ∷ 0 ∷ 7 ∷ [])
unfolding Packet.decode
decode-append_run = decode-append (0x20 ∷ 0 ∷ 0 ∷ 7 ∷ []) (1 ∷ []) (λ q. cc)

ppp_decode-encode_run :
    Ppp.decode (Ppp.encode (Ppp.unknown 0x80FD) (1 ∷ 2 ∷ []))
    ≡ some (Ppp.unknown 0x80FD, 1 ∷ 2 ∷ [])
ppp_decode-encode_run = ppp_decode-encode (Ppp.unknown 0x80FD) (1 ∷ 2 ∷ []) (
  omega arith,
  (λ q. omega arith),
  (λ q. omega arith),
  (λ q. omega arith),
  (λ q. omega arith),
  (λ q. omega arith),
)

decode_bare_run : Ppp.decode (0xC0 ∷ 0x21 ∷ 9 ∷ []) ≡ some (Ppp.lcp, 9 ∷ [])
unfolding Ppp.protocol_to_u16
decode_bare_run = decode_bare Ppp.lcp (9 ∷ []) tt (λ q. omega arith)

cp_decode-encode_run :
    Cp.decode (Cp.encode Cp.echo_request 7 (1 ∷ 2 ∷ []) ++ 9 ∷ [])
    ≡ some (record { code = Cp.echo_request; id = 7; payload = 1 ∷ 2 ∷ [] })
cp_decode-encode_run = cp_decode-encode Cp.echo_request 7 (1 ∷ 2 ∷ []) (9 ∷ []) tt (omega arith)

abbrev two_options : List Opt
two_options = record { kind = 5; value = 1 ∷ 2 ∷ 3 ∷ 4 ∷ [] } ∷ record { kind = 7; value = [] } ∷ []

decode_options-encode_options_run :
    Cp.decode_options (Cp.encode_options two_options ++ 8 ∷ [])
    ≡ two_options ++ Cp.decode_options (8 ∷ [])
decode_options-encode_options_run =
    decode_options-encode_options two_options (8 ∷ []) (omega arith, (omega arith, tt))

-- The second option runs past the end.
decode_options-Accounts_run :
    Accounts (7 ∷ 2 ∷ 5 ∷ 6 ∷ 1 ∷ []) (Cp.decode_options (7 ∷ 2 ∷ 5 ∷ 6 ∷ 1 ∷ []))
decode_options-Accounts_run =
    decode_options-Accounts (7 ∷ 2 ∷ 5 ∷ 6 ∷ 1 ∷ [])
      (omega arith, (omega arith, (omega arith, (omega arith, (omega arith, tt)))))

decode-build_connected_message_example :
    Packet.decode (
      build_connected_message toy sha1
        (replicate 32 1)
        (replicate 32 2)
        (replicate 16 3)
        (replicate 16 4)
      ++ [])
    ≡ ok (
        ctrl connected (
          record {
            attr_type = crypto_bind;
            value = bound_data sha1 (replicate 32 1) (replicate 32 2) (
                compound_mac toy sha1 (replicate 16 3) (replicate 16 4) (
                  encode_ctrl connected
                    ((crypto_bind, attr_data sha1 (replicate 32 1) (replicate 32 2)) ∷ [])));
          }
          ∷ []))
decode-build_connected_message_example =
    decode-build_connected_message toy sha1 (replicate 32 1) (replicate 32 2) (replicate 16 3)
      (replicate 16 4) [] refl refl
