-- ===== src/Tests.antt =====
-- Runs of the theorems and definitions on concrete inputs, with simple functions for the
-- cryptographic ones.
mod Codecs
mod Streams
mod Negotiation
mod Authentication
mod Engines
mod Greetings
mod Connections
mod Helpers
mod Windows
mod Screens
use mac_os_sstp_client.Prelude.{
  ℕ, zero, suc, ◌+◌, ◌%◌, ◌<◌, ◌≡◌, arith, List, [], ◌∷◌, All, Bool, true, ◌&&◌, ltb, Bool-cases,
  inl, inr, replicate, length-replicate, Bytes, AreBytes,
}
use mac_os_sstp_client.Prelude.Text.{Str}
use mac_os_sstp_client.Prelude.Crypto.{Crypto}

abbrev sum : Bytes → ℕ
sum [] = 0
sum (b ∷ bs) = b + sum bs

abbrev digest : ℕ → Bytes → Bytes
digest n m = replicate n (sum m % 256)

digest-AreBytes : (n x : ℕ) → x < 256 → AreBytes (replicate n x)
digest-AreBytes zero x h = tt
digest-AreBytes (suc n) x h = (h, digest-AreBytes n x h)

-- Whether all the bytes of all the frames are octets.
abbrev pub in_octets : Bytes → Bool
in_octets [] = true
in_octets (b ∷ bs) = ltb b 256 && in_octets bs

in_octets-AreBytes : (bs : Bytes) → in_octets bs ≡ true → AreBytes bs
in_octets-AreBytes [] h = tt
in_octets-AreBytes (b ∷ bs) h = elim (Bool-cases (ltb b 256)) [
  | inl y ↦ (ground (arith, y), in_octets-AreBytes bs (rw y at h))
  | inr n ↦ cc (rw n at h)
]

abbrev pub all_in_octets : List Bytes → Bool
all_in_octets [] = true
all_in_octets (bs ∷ more) = in_octets bs && all_in_octets more

pub all_in_octets-AreBytes :
    (frames : List Bytes) → all_in_octets frames ≡ true → All AreBytes frames
all_in_octets-AreBytes [] h = tt
all_in_octets-AreBytes (bs ∷ more) h = elim (Bool-cases (in_octets bs)) [
  | inl y ↦ (in_octets-AreBytes bs y, all_in_octets-AreBytes more (rw y at h))
  | inr n ↦ cc (rw n at h)
]

-- Every digest is its length's number of copies of the sum of the bytes.
abbrev toy : Crypto
toy = record {
  md4 = digest 16;
  sha1 = digest 20;
  sha256 = digest 32;
  hmac_sha1 = λ k m. digest 20 m;
  hmac_sha256 = λ k m. digest 32 m;
  des = λ k b. digest 8 b;
  length-md4 = λ m. length-replicate 16 (sum m % 256);
  length-sha1 = λ m. length-replicate 20 (sum m % 256);
  length-sha256 = λ m. length-replicate 32 (sum m % 256);
  length-hmac_sha1 = λ k m. length-replicate 20 (sum m % 256);
  length-hmac_sha256 = λ k m. length-replicate 32 (sum m % 256);
  length-des = λ k b. length-replicate 8 (sum b % 256);
  bytes-sha1 = λ m. digest-AreBytes 20 (sum m % 256) (omega arith);
}

-- "user" and "pw".
abbrev user : Str
user = 0x75 ∷ 0x73 ∷ 0x65 ∷ 0x72 ∷ []

abbrev password : Str
password = 0x70 ∷ 0x77 ∷ []
