-- ===== src/Connection/Handoff.antt =====
-- connection.rs: the bytes of the TLS stream on both sides of the end of the HTTP answer.
use mac_os_sstp_client.Prelude.{
  ℕ, ◌≡◌, refl, sym, ◌∙◌, List, [], ◌∷◌, ◌++◌, map, append-nil, append_assoc, none, some, Result,
  ok, err, Bytes, All, false, is_empty, drop, drop-append,
}
use mathlib.Core.Path.{subst}
use mac_os_sstp_client.Packet.Reader.Stream.{flatten}
use mac_os_sstp_client.Http.{
  ParseError, incomplete, bad_status_line, non_success_status, parse_response,
}
use mac_os_sstp_client.Http.Responses.{parse_response-append, parse_response_accepts}
use mac_os_sstp_client.Connection.State.{Action, Step, going, http_failed}
use mac_os_sstp_client.Connection.Events.{fails}
use mac_os_sstp_client.Connection.Handlers.{Switched, on_answer, http_loop}

-- How the exchange ends for what the whole of the stream parses to. Behind an accepted answer no
-- byte is lost: those read with the answer and those still to be read are the rest of the stream.
abbrev pub Exchanged : Result ParseError (ℕ × ℕ) → Bytes → List Action → Step Switched → Type 0
Exchanged (ok (status, offset)) whole log m =
    (body : Bytes) × (rest : List Bytes) × (m ≡ going (some (body, map ok rest)))
    × (body ++ flatten rest ≡ drop offset whole)
Exchanged (err incomplete) whole log m = m ≡ going none
Exchanged (err e) whole log m = m ≡ fails (http_failed e) log

-- The buffer has an answer, and more is read behind it or not.
answer-Exchanged :
    (answer : Result ParseError (ℕ × ℕ)) (buf : Bytes) (log : List Action) (chunks : List Bytes)
    (later : Step Switched)
    → parse_response buf ≡ answer
    → (answer ≡ err incomplete
        → Exchanged (parse_response (buf ++ flatten chunks)) (buf ++ flatten chunks) log later)
    → Exchanged
        (parse_response (buf ++ flatten chunks))
        (buf ++ flatten chunks)
        log
        (on_answer buf log (map ok chunks) later answer)
unfolding on_answer
answer-Exchanged (err incomplete) buf log chunks later q ih = ih refl
answer-Exchanged (ok (status, offset)) buf log chunks later q ih =
    let (two, fits, rest) = parse_response_accepts buf q in
    rw (parse_response-append buf (flatten chunks) (λ e. cc) ∙ q)
      (drop offset buf, chunks, refl, sym (drop-append offset buf (flatten chunks) fits))
answer-Exchanged (err (bad_status_line line)) buf log chunks later q ih =
    rw (parse_response-append buf (flatten chunks) (λ e. cc) ∙ q) refl
answer-Exchanged (err (non_success_status code)) buf log chunks later q ih =
    rw (parse_response-append buf (flatten chunks) (λ e. cc) ∙ q) refl

http_loop_from-Exchanged :
    (buf : Bytes) (log : List Action) (chunks : List Bytes)
    → parse_response buf ≡ err incomplete
    → All (λ b. is_empty b ≡ false) chunks
    → Exchanged
        (parse_response (buf ++ flatten chunks))
        (buf ++ flatten chunks)
        log
        (http_loop buf log (map ok chunks))
unfolding http_loop
http_loop_from-Exchanged buf log [] q h = rw (append-nil buf, q) refl
http_loop_from-Exchanged buf log ([] ∷ chunks) q h = cc
http_loop_from-Exchanged buf log ((b ∷ bs) ∷ chunks) q h =
    let grown = buf ++ (b ∷ bs) in
    subst
      (λ whole. Exchanged (parse_response whole) whole log (
        on_answer grown log (map ok chunks) (http_loop grown log (map ok chunks))
          (parse_response grown)))
      (append_assoc buf (b ∷ bs) (flatten chunks))
      (answer-Exchanged (parse_response grown) grown log chunks _ refl
        (λ e. http_loop_from-Exchanged grown log chunks e h.1))

-- The HTTP exchange on any sequence of reads with at least a byte each ends as `parse_response`
-- says of all the bytes together, however they are cut: with its error, waiting for more, or by
-- switching. Then the bytes that go to the packet reader and the reads that are left are, joined,
-- all that follows the answer.
pub http_loop-Exchanged :
    (log : List Action) (chunks : List Bytes)
    → All (λ b. is_empty b ≡ false) chunks
    → Exchanged
        (parse_response (flatten chunks))
        (flatten chunks)
        log
        (http_loop [] log (map ok chunks))
http_loop-Exchanged log chunks h =
    http_loop_from-Exchanged [] log chunks (unfold parse_response in refl) h
