-- ===== src/Utun/Framing.antt =====
-- utun.rs and connection.rs: the frames of the device, and the thread that reads them.
use mac_os_sstp_client.Prelude.{
  Bool, true, false, err, ◌++◌, ℕ, suc, ◌+◌, ◌≡◌, refl, ap, arith, List, [], ◌∷◌, map, Result, ok,
  take, retain, not, is_empty, Bytes,
}
use mac_os_sstp_client.Prelude.Text.{Str}
use mac_os_sstp_client.Utun.{read_packet, collected, reader_thread}

-- `read` on a device that has a frame: as much of it as fits.
abbrev pub has_frame : Bytes → ℕ → Result Str Bytes
has_frame frame size = ok (take size frame)

-- A packet with the four octets of its family in front.
abbrev pub Framed : Type 0
Framed = (ℕ × ℕ × ℕ × ℕ) × Bytes

abbrev pub frame_of : Framed → Bytes
frame_of ((a, b, c, d), packet) = a ∷ b ∷ c ∷ d ∷ packet

take-frame_of :
    (size a b c d : ℕ) (p : Bytes)
    → take (size + 4) (frame_of ((a, b, c, d), p)) ≡ a ∷ b ∷ c ∷ d ∷ take size p
take-frame_of size a b c d p =
    let four : size + 4 ≡ suc (suc (suc (suc size))) = omega arith in rw four refl

-- The packet comes without the header, cut at the end of the buffer.
pub read_packet-has_frame :
    (size : ℕ) (f : Framed) → read_packet size (has_frame (frame_of f)) ≡ ok (take size f.1)
unfolding read_packet
read_packet-has_frame size ((a, b, c, d), p) = rw (take-frame_of size a b c d p) (ground arith)

abbrev pub is_gone : Result Str Bytes → Bool
is_gone (err e) = true
is_gone (ok []) = false
is_gone (ok (b ∷ bs)) = true

-- A failed read ends the thread; without a receiver a packet does.
last-reader_thread :
    (r : Result Str Bytes) (later : List Bytes) → is_gone r ≡ true → collected r false later ≡ []
last-reader_thread (err e) later h = refl
last-reader_thread (ok []) later h = cc
last-reader_thread (ok (b ∷ bs)) later h = refl

-- While the device has frames and the receiver is there, the reader thread sends on, in their
-- order, the packets behind the headers, each cut at 16384 bytes, and none that is empty. It ends
-- when the receiver is gone and a read fails or gives a packet: whatever could be read behind that,
-- it sends nothing more.
pub reader_thread_lem :
    (frames : List Framed) (read : ℕ → Result Str Bytes)
    (later : List ((ℕ → Result Str Bytes) × Bool))
    → is_gone (read_packet 16384 read) ≡ true
    → reader_thread (map (λ f. (has_frame (frame_of f), true)) frames ++ ((read, false) ∷ later))
      ≡ retain (λ p. not (is_empty p)) (map (λ f. take 16384 f.1) frames)
unfolding reader_thread
reader_thread_lem [] read later h = last-reader_thread (read_packet 16384 read) _ h
reader_thread_lem (f ∷ frames) read later h = rw (read_packet-has_frame 16384 f) (
    one (take 16384 f.1) (map (λ f. take 16384 f.1) frames) (reader_thread_lem frames read later h))
  where
    one :
        (p : Bytes) (ps : List Bytes) {rest : List Bytes}
        → rest ≡ retain (λ p. not (is_empty p)) ps
        → collected (ok p) true rest ≡ retain (λ p. not (is_empty p)) (p ∷ ps)
    one [] ps q = q
    one (b ∷ bs) ps q = ap (λ later. (b ∷ bs) ∷ later) q
