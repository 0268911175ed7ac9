-- ===== src/Mppe/Keys.antt =====
-- The keys of mppe.rs: the two ends of a link, and the password hash that chap.rs computes.
use mac_os_sstp_client.Prelude.{
  ℕ, ◌<◌, ◌≡◌, refl, ap, arith, [], ◌∷◌, Bool, true, false, not, length, take, length-take, All,
  Bytes,
}
use mathlib.Core.Bool.{xor}
use mac_os_sstp_client.Prelude.Text.{Str, utf8, utf16le}
use mac_os_sstp_client.Prelude.Crypto.{Crypto}
use mac_os_sstp_client.Chap.{nt_password_hash}
use mac_os_sstp_client.Mppe.{doubled, password_hash_hash, session_key, mppe_get_keys}

cut_digest : (m : Bytes) → length m ≡ 20 → length (take 16 m) ≡ 16
cut_digest m h = omega (arith, length-take 16 m)

length-session_key :
    (c : Crypto) (master : Bytes) (sending is_server : Bool)
    → length (session_key c master sending is_server) ≡ 16
unfolding session_key
length-session_key c master sending is_server = cut_digest _ (c.length-sha1 _)

-- What one end of a link sends with, the other receives with, and every key has 16 bytes.
pub keys_meet :
    (c : Crypto) (password : Str) (nt_response : Bytes) (is_server : Bool)
    → let ours = mppe_get_keys c password nt_response is_server in
      let theirs = mppe_get_keys c password nt_response (not is_server) in
      (ours.send_key ≡ theirs.recv_key)
      × (ours.recv_key ≡ theirs.send_key)
      × (length ours.send_key ≡ 16)
      × (length ours.recv_key ≡ 16)
unfolding mppe_get_keys session_key xor
keys_meet c password nt_response true =
    (refl, refl, length-session_key c _ true true, length-session_key c _ false true)
keys_meet c password nt_response false =
    (refl, refl, length-session_key c _ true false, length-session_key c _ false false)

abbrev pub IsAscii : ℕ → Type 0
IsAscii b = b < 128

doubled-utf8 : (s : Str) → All IsAscii s → doubled (utf8 s) ≡ utf16le s
unfolding doubled utf8 utf16le
doubled-utf8 [] h = refl
doubled-utf8 (x ∷ s) (hx, h) = ground (arith, doubled-utf8 s h)

-- For a password of ASCII characters, the hash from which the MPPE keys are derived is the MD4
-- hash of the password hash with which chap.rs answers the challenge.
pub password_hash_hash-ascii :
    (c : Crypto) (password : Str)
    → All IsAscii password
    → password_hash_hash c password ≡ c.md4 (nt_password_hash c password)
unfolding password_hash_hash nt_password_hash
password_hash_hash-ascii c password h = ap (λ m. c.md4 (c.md4 m)) (doubled-utf8 password h)
