-- ===== src/Cp/Revisions.antt =====
-- What a side asks for after the answers to its requests, as the Nak and Reject arms of `receive`
-- in lcp.rs and in ipcp.rs both revise it.
use mac_os_sstp_client.Prelude.{ℕ, ◌+◌, ◌≡◌, ◌<◌, List, [], ◌∷◌, append-nil, some, length, All}
use mac_os_sstp_client.Cp.{
  Code, configure_request, configure_ack, configure_nak, configure_reject, Opt, encode, decode,
  encode_options, decode_options,
}
use mac_os_sstp_client.Cp.Frames.{cp_decode-encode}
use mac_os_sstp_client.Cp.Options.{FitsOpt, decode_options_exact}
use mac_os_sstp_client.Cp.Desired.{set_value, without}

-- The options that are asked for after a Nak: the first option of each suggested kind has the last
-- value suggested.
unfoldable pub suggested : List Opt → List Opt → List Opt
suggested [] desired = desired
suggested (s ∷ rest) desired = suggested rest (set_value s.kind s.value desired)

-- What is asked for after an answer to our request that is no acknowledgement.
abbrev pub revised : Code → List Opt → List Opt → List Opt
revised configure_nak opts desired = suggested opts desired
revised configure_reject opts desired = without opts desired
revised _ opts desired = desired

-- The answers that make a side ask again.
abbrev pub IsRevision : Code → Type 0
IsRevision configure_nak = Unit {0}
IsRevision configure_reject = Unit {0}
IsRevision _ = ⊥

-- The answers to a request.
abbrev pub IsReply : Code → Type 0
IsReply configure_ack = Unit {0}
IsReply configure_nak = Unit {0}
IsReply configure_reject = Unit {0}
IsReply _ = ⊥

-- A Configure-Request of options that fit their length bytes, in a frame that fits its length
-- field, is read back as a request of just these options.
pub request_read_back :
    (id : ℕ) (desired : List Opt)
    → All FitsOpt desired
    → 4 + length (encode_options desired) < 65536
    → (decode (encode configure_request id (encode_options desired))
        ≡ some (record { code = configure_request; id = id; payload = encode_options desired }))
      × (decode_options (encode_options desired) ≡ desired)
request_read_back id desired fits size =
    let payload = encode_options desired in
    (
      rw (← append-nil (encode configure_request id payload))
          (cp_decode-encode configure_request id payload [] tt size),
      decode_options_exact desired fits,
    )
