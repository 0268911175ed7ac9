-- ===== src/Lcp/Replies.antt =====
-- What LCP does with the answers to its own requests: lcp.rs, the Ack, Nak and Reject arms of
-- `receive`.
use mac_os_sstp_client.Prelude.{
  ℕ, ◌+◌, ◌≡◌, ◌<◌, refl, arith, List, [], ◌∷◌, some, true, false, length, ◌==◌, All, if◌then◌else◌,
  Bytes, as_u8, of_be32,
}
use mac_os_sstp_client.Cp.{
  Code, configure_request, configure_ack, configure_nak, configure_reject, Frame, Opt, encode,
  decode, encode_options, decode_options,
}
use mac_os_sstp_client.Cp.Revisions.{suggested, revised, IsRevision, IsReply, request_read_back}
use mac_os_sstp_client.Cp.Options.{FitsOpt}
use mac_os_sstp_client.Cp.Desired.{set_value}
use mac_os_sstp_client.Lcp.{
  Lcp, opt_magic_number, is_sent_id, is_up, adopt_magic, apply_nak, apply_reject, resend,
  receive_frame, receive, send_config_request,
}

-- The magic number after a Nak: the last one of four octets that is suggested.
abbrev pub magic_in : ℕ → Bytes → ℕ → ℕ
magic_in k (a ∷ b ∷ c ∷ d ∷ []) before = if k == opt_magic_number then of_be32 a b c d else before
magic_in k _ before = before

abbrev pub magic_after : List Opt → ℕ → ℕ
magic_after [] before = before
magic_after (o ∷ os) before = magic_after os (magic_in o.kind o.value before)

pub adopt_magic_lem :
    (k : ℕ) (v : Bytes) (l : Lcp) → adopt_magic k v l ≡ record l { magic = magic_in k v l.magic }
unfolding adopt_magic
adopt_magic_lem k [] l = refl
adopt_magic_lem k (a ∷ []) l = refl
adopt_magic_lem k (a ∷ b ∷ []) l = refl
adopt_magic_lem k (a ∷ b ∷ c ∷ []) l = refl
adopt_magic_lem k (a ∷ b ∷ c ∷ d ∷ []) l = ground arith
adopt_magic_lem k (a ∷ b ∷ c ∷ d ∷ x ∷ v) l = refl

apply_nak_lem :
    (l : Lcp) (rest : List Opt)
    → apply_nak l rest
      ≡ record l { desired = suggested rest l.desired; magic = magic_after rest l.magic }
unfolding apply_nak suggested
apply_nak_lem l [] = refl
apply_nak_lem l (s ∷ rest) =
    let l' : Lcp = record l { desired = set_value s.kind s.value l.desired } in
    rw (adopt_magic_lem s.kind s.value l')
      (apply_nak_lem (record l' { magic = magic_in s.kind s.value l.magic }) rest)

-- The magic number after an answer to our request that is no acknowledgement.
abbrev pub revised_magic : Code → List Opt → ℕ → ℕ
revised_magic configure_nak opts magic = magic_after opts magic
revised_magic _ opts magic = magic

-- The state after the new request.
abbrev pub revised_state : Lcp → Code → List Opt → Lcp
revised_state l code opts = record l {
  identifier = as_u8 (l.identifier + 1);
  last_sent_id = some (as_u8 (l.identifier + 1));
  local_up = false;
  desired = revised code opts l.desired;
  magic = revised_magic code opts l.magic;
}

abbrev pub revised_wire : Lcp → List Opt → Bytes
revised_wire l desired =
    encode configure_request (as_u8 (l.identifier + 1)) (encode_options desired)

revision_step :
    (fresh : ℕ → ℕ) (l : Lcp) (code : Code) (f : Frame)
    → IsRevision code
    → is_sent_id l.last_sent_id f.id ≡ true
    → let opts = decode_options f.payload in
      receive_frame fresh l code f
      ≡ (revised_state l code opts, revised_wire l (revised code opts l.desired) ∷ [])
unfolding receive_frame resend send_config_request apply_reject
revision_step fresh l configure_nak f h sent =
    rw (sent, apply_nak_lem l (decode_options f.payload)) refl
revision_step fresh l configure_reject f h sent = rw sent refl
revision_step fresh l _ f h sent = elim h [ ]

-- After a matching Nak or Reject, LCP sends one frame, under the next identifier, and is not up;
-- what it asks for is what it asked for before, with the suggested values (the magic number among
-- them, if it has four octets) or without the rejected kinds. When the options fit their length
-- bytes and the frame its length field, the frame is decoded to a Configure-Request of just these
-- options.
pub lcp_revision_resent :
    (fresh : ℕ → ℕ) (l : Lcp) (buf : Bytes) {f : Frame}
    → decode buf ≡ some f
    → IsRevision f.code
    → is_sent_id l.last_sent_id f.id ≡ true
    → let opts = decode_options f.payload in
      let desired = revised f.code opts l.desired in
      All FitsOpt desired
      → 4 + length (encode_options desired) < 65536
      → (receive fresh l buf ≡ (
        revised_state l f.code opts,
        record { to_send = revised_wire l desired ∷ []; up = false },
      ))
        × (decode (revised_wire l desired)
            ≡ some (record {
              code = configure_request;
              id = as_u8 (l.identifier + 1);
              payload = encode_options desired;
            }))
        × (decode_options (encode_options desired) ≡ desired)
unfolding receive
lcp_revision_resent fresh l buf {f} h hc sent fits size =
    let desired = revised f.code (decode_options f.payload) l.desired in
    let read_back = request_read_back (as_u8 (l.identifier + 1)) desired fits size in
    (rw (h, receive) (rw (revision_step fresh l f.code f hc sent) refl), read_back.0, read_back.1)

-- What a reply leaves when it is not one to the latest request.
stale_step :
    (fresh : ℕ → ℕ) (l : Lcp) (code : Code) (f : Frame)
    → IsReply code
    → is_sent_id l.last_sent_id f.id ≡ false
    → receive_frame fresh l code f ≡ (l, [])
unfolding receive_frame
stale_step fresh l configure_ack f h stale = rw stale refl
stale_step fresh l configure_nak f h stale = rw stale refl
stale_step fresh l configure_reject f h stale = rw stale refl
stale_step fresh l _ f h stale = elim h [ ]

-- A Configure-Ack, Nak or Reject whose identifier is not that of the latest request sent changes
-- nothing and is not answered.
pub lcp_stale_ignored :
    (fresh : ℕ → ℕ) (l : Lcp) (buf : Bytes) {f : Frame}
    → decode buf ≡ some f
    → IsReply f.code
    → is_sent_id l.last_sent_id f.id ≡ false
    → receive fresh l buf ≡ (l, record { to_send = []; up = is_up l })
unfolding receive
lcp_stale_ignored fresh l buf {f} h hc stale =
    rw (h, receive) (rw (stale_step fresh l f.code f hc stale) refl)
