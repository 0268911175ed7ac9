-- ===== src/Lcp/Requests.antt =====
-- How LCP answers the peer's Configure-Request: lcp.rs, `evaluate_peer_options` and the first arm
-- of `receive`, against a description option by option.
use mac_os_sstp_client.Prelude.{
  ℕ, ◌+◌, ◌≡◌, refl, sym, ap, ◌∙◌, arith, List, [], ◌∷◌, ◌++◌, append-nil, append_assoc, Option,
  some, Bool, false, ◌&&◌, ◌||◌, not, length, ltb, ◌==◌, any, retain, if◌then◌else◌, is_empty,
  Bytes, be32, of_be16, of_be32,
}
use mac_os_sstp_client.Cp.{
  configure_request, configure_ack, configure_nak, configure_reject, Frame, Opt, encode, decode,
  encode_options, decode_options,
}
use mac_os_sstp_client.Lcp.{
  Lcp, PeerAuthRequirement, Evaluation, opt_magic_number, opt_auth_protocol, opt_pfc, opt_acfc,
  opt_mru, opt_accm, evaluate_option, evaluate_from, evaluate_peer_options, receive_frame, receive,
  is_up,
}

-- The one authentication method that is accepted: CHAP (0xC223) with algorithm 0x81.
abbrev pub mschapv2 : PeerAuthRequirement
mschapv2 = record { protocol = 0xC223; algorithm = 0x81 }

abbrev pub asks_mschapv2 : Bytes → Bool
asks_mschapv2 (a ∷ b ∷ c ∷ rest) = of_be16 a b == 0xC223 && c == 0x81
asks_mschapv2 _ = false

abbrev pub magic_is : ℕ → Bytes → Bool
magic_is magic (a ∷ b ∷ c ∷ d ∷ []) = of_be32 a b c d == magic
magic_is magic _ = false

-- An option that is refused as such: an unknown kind, or a value of a wrong length.
abbrev pub is_refused : Opt → Bool
is_refused o =
    if o.kind == opt_magic_number
    then not (length o.value == 4)
    else if o.kind == opt_auth_protocol
    then ltb (length o.value) 2
    else not (o.kind == opt_pfc || o.kind == opt_acfc || o.kind == opt_mru || o.kind == opt_accm)

-- An option that is known, but whose value is not taken: our own magic number, or another
-- authentication method.
abbrev pub is_corrected : ℕ → Opt → Bool
is_corrected magic o =
    if o.kind == opt_magic_number
    then magic_is magic o.value
    else if o.kind == opt_auth_protocol
    then not (ltb (length o.value) 2) && not (asks_mschapv2 o.value)
    else false

abbrev pub demands_mschapv2 : Opt → Bool
demands_mschapv2 o = o.kind == opt_auth_protocol && asks_mschapv2 o.value

-- The corrections in order; each magic number is drawn afresh.
pub corrections : (ℕ → ℕ) → ℕ → ℕ → List Opt → List Opt
corrections fresh magic drawn [] = []
corrections fresh magic drawn (o ∷ os) =
    if not (is_corrected magic o)
    then corrections fresh magic drawn os
    else if o.kind == opt_magic_number
    then record { kind = opt_magic_number; value = be32 (fresh drawn) }
      ∷ corrections fresh magic (drawn + 1) os
    else record { kind = opt_auth_protocol; value = 0xC2 ∷ 0x23 ∷ 0x81 ∷ [] }
      ∷ corrections fresh magic drawn os

abbrev pub auth_after : List Opt → Option PeerAuthRequirement → Option PeerAuthRequirement
auth_after opts before = if any demands_mschapv2 opts then some mschapv2 else before

-- The correction of one option, and how many numbers are drawn after it.
abbrev correction : (ℕ → ℕ) → ℕ → ℕ → Opt → List Opt
correction fresh magic drawn o =
    if not (is_corrected magic o)
    then []
    else if o.kind == opt_magic_number
    then record { kind = opt_magic_number; value = be32 (fresh drawn) } ∷ []
    else record { kind = opt_auth_protocol; value = 0xC2 ∷ 0x23 ∷ 0x81 ∷ [] } ∷ []

abbrev drawn_after : ℕ → ℕ → Opt → ℕ
drawn_after magic drawn o =
    if is_corrected magic o && o.kind == opt_magic_number then drawn + 1 else drawn

-- What one round of the loop leaves.
abbrev expected : (ℕ → ℕ) → Evaluation → Opt → Evaluation
expected fresh s o = record {
  lcp = record (s.lcp) {
    peer_auth = if demands_mschapv2 o then some mschapv2 else s.lcp.peer_auth;
  };
  nak = s.nak ++ correction fresh s.lcp.magic s.drawn o;
  reject = s.reject ++ (if is_refused o then o ∷ [] else []);
  drawn = drawn_after s.lcp.magic s.drawn o;
}

round :
    (fresh : ℕ → ℕ) (s : Evaluation) (k : ℕ) (v : Bytes)
    → let o : Opt = record { kind = k; value = v } in evaluate_option fresh s o ≡ expected fresh s o
unfolding evaluate_option
round fresh s k [] = ground (arith, append-nil s.nak, append-nil s.reject)
round fresh s k (a ∷ []) = ground (arith, append-nil s.nak, append-nil s.reject)
round fresh s k (a ∷ b ∷ []) = ground (arith, append-nil s.nak, append-nil s.reject)
round fresh s k (a ∷ b ∷ c ∷ []) = ground (arith, append-nil s.nak, append-nil s.reject)
round fresh s k (a ∷ b ∷ c ∷ d ∷ []) = ground (arith, append-nil s.nak, append-nil s.reject)
round fresh s k (a ∷ b ∷ c ∷ d ∷ x ∷ v) = ground (arith, append-nil s.nak, append-nil s.reject)

is_empty-append {ℓ} :
    {A : Type ℓ} (xs ys : List A) → is_empty (xs ++ ys) ≡ (is_empty xs && is_empty ys)
is_empty-append [] ys = refl
is_empty-append (x ∷ xs) ys = refl

pub is_empty-retain {ℓ} :
    {A : Type ℓ} (p : A → Bool) (xs : List A) → is_empty (retain p xs) ≡ not (any p xs)
is_empty-retain p [] = refl
is_empty-retain p (x ∷ xs) = ground (arith, is_empty-retain p xs)

is_empty-corrections :
    (fresh : ℕ → ℕ) (magic drawn : ℕ) (opts : List Opt)
    → is_empty (corrections fresh magic drawn opts) ≡ not (any (is_corrected magic) opts)
unfolding corrections
is_empty-corrections fresh magic drawn [] = refl
is_empty-corrections fresh magic drawn (o ∷ os) =
    ground (arith, is_empty-corrections fresh magic drawn os)

-- The loop, from any point on.
record Evaluated (fresh : ℕ → ℕ) (s : Evaluation) (opts : List Opt) (t : Evaluation) : Type 0 where
  lcp_after : t.lcp ≡ record (s.lcp) { peer_auth = auth_after opts s.lcp.peer_auth }
  nak_after : t.nak ≡ s.nak ++ corrections fresh s.lcp.magic s.drawn opts
  reject_after : t.reject ≡ s.reject ++ retain is_refused opts

corrections-cons :
    (fresh : ℕ → ℕ) (magic drawn : ℕ) (o : Opt) (os : List Opt)
    → correction fresh magic drawn o ++ corrections fresh magic (drawn_after magic drawn o) os
      ≡ corrections fresh magic drawn (o ∷ os)
unfolding corrections
corrections-cons fresh magic drawn o os = ground arith

refused-cons :
    (o : Opt) (os : List Opt)
    → (if is_refused o then o ∷ [] else []) ++ retain is_refused os ≡ retain is_refused (o ∷ os)
refused-cons o os = ground arith

auth_after-cons :
    (o : Opt) (os : List Opt) (before : Option PeerAuthRequirement)
    → auth_after os (if demands_mschapv2 o then some mschapv2 else before)
      ≡ auth_after (o ∷ os) before
auth_after-cons o os before = ground arith

evaluate_from_lem :
    (fresh : ℕ → ℕ) (s : Evaluation) (opts : List Opt)
    → Evaluated fresh s opts (evaluate_from fresh s opts)
unfolding evaluate_from corrections
evaluate_from_lem fresh s [] = record {
  lcp_after = refl;
  nak_after = sym (append-nil s.nak);
  reject_after = sym (append-nil s.reject);
}
evaluate_from_lem fresh s (o ∷ os) =
    let ih = evaluate_from_lem fresh (expected fresh s o) os in
    rw (round fresh s o.kind o.value) (record {
      lcp_after =
          ih.lcp_after
          ∙ ap (λ a. record (s.lcp) { peer_auth = a }) (auth_after-cons o os s.lcp.peer_auth);
      nak_after =
          ih.nak_after
          ∙ append_assoc s.nak (correction fresh s.lcp.magic s.drawn o) _
          ∙ ap (λ xs. s.nak ++ xs) (corrections-cons fresh s.lcp.magic s.drawn o os);
      reject_after =
          ih.reject_after
          ∙ append_assoc s.reject (if is_refused o then o ∷ [] else []) _
          ∙ ap (λ xs. s.reject ++ xs) (refused-cons o os);
    })

-- What the answer to the options of a Configure-Request is to be: reject all refused options if
-- there are any, else correct, else acknowledge the options as they came.
abbrev pub answer_spec : (ℕ → ℕ) → ℕ → Frame → List Bytes
answer_spec fresh magic f =
    let opts = decode_options f.payload in
    if any is_refused opts
    then encode configure_reject f.id (encode_options (retain is_refused opts)) ∷ []
    else if any (is_corrected magic) opts
    then encode configure_nak f.id (encode_options (corrections fresh magic 0 opts)) ∷ []
    else encode configure_ack f.id f.payload ∷ []

-- The state of the negotiation after it.
abbrev pub state_spec : Lcp → Frame → Lcp
state_spec l f =
    let opts = decode_options f.payload in
    record l {
      remote_up = not (any is_refused opts) && not (any (is_corrected l.magic) opts);
      peer_auth = auth_after opts l.peer_auth;
    }

answer_request_lem :
    (fresh : ℕ → ℕ) (l : Lcp) (f : Frame)
    → receive_frame fresh l configure_request f ≡ (state_spec l f, answer_spec fresh l.magic f)
unfolding receive_frame evaluate_peer_options
answer_request_lem fresh l f =
    let opts = decode_options f.payload in
    let e = evaluate_from_lem fresh (record { lcp = l; nak = []; reject = []; drawn = 0 }) opts in
    ground (
      arith,
      e.lcp_after,
      e.nak_after,
      e.reject_after,
      is_empty-retain is_refused opts,
      is_empty-corrections fresh l.magic 0 opts,
    )

-- A Configure-Request gets exactly one reply, with the request's identifier. It rejects the
-- options of an unknown kind or length, all and only these, in order; without any it corrects
-- an authentication method other than MS-CHAPv2 and a magic number equal to our own; without
-- any of these it acknowledges. The remote side is up exactly after an acknowledgement, the
-- authentication method is recorded as MS-CHAPv2 exactly if an option asks for it (else it stays
-- what it was), and nothing else of the state changes.
pub lcp_answers :
    (fresh : ℕ → ℕ) (l : Lcp) (bytes : Bytes) {f : Frame}
    → decode bytes ≡ some f
    → f.code ≡ configure_request
    → let r = receive fresh l bytes in
      (r.0 ≡ state_spec l f)
      × (r.1.to_send ≡ answer_spec fresh l.magic f)
      × (r.1.up ≡ is_up (state_spec l f))
unfolding receive
lcp_answers fresh l bytes {f} d c =
    let arm : receive_frame fresh l f.code f ≡ (state_spec l f, answer_spec fresh l.magic f) =
      ap (λ k. receive_frame fresh l k f) c ∙ answer_request_lem fresh l f in
    rw (d, receive) (rw arm (refl, refl, refl))
