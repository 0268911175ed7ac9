-- ===== src/Prelude/Crypto.antt =====
-- The digests, message codes and block cipher that the crates `md4`, `sha1`, `sha2`, `hmac` and
-- `des` provide: parameters, with the lengths of
-- their results; a SHA-1 digest is bytes.
use mathlib.Core.Path.{◌≡◌}
use mac_os_sstp_client.Prelude.Lists.{length}
use mac_os_sstp_client.Prelude.Octets.{Bytes, AreBytes}

pub record Crypto : Type 0 where
  pub md4 : Bytes → Bytes
  pub sha1 : Bytes → Bytes
  pub sha256 : Bytes → Bytes
  -- key, then message
  pub hmac_sha1 : Bytes → Bytes → Bytes
  pub hmac_sha256 : Bytes → Bytes → Bytes
  -- key, then block
  pub des : Bytes → Bytes → Bytes
  pub length-md4 : (m : Bytes) → length (md4 m) ≡ 16
  pub length-sha1 : (m : Bytes) → length (sha1 m) ≡ 20
  pub length-sha256 : (m : Bytes) → length (sha256 m) ≡ 32
  pub length-hmac_sha1 : (k m : Bytes) → length (hmac_sha1 k m) ≡ 20
  pub length-hmac_sha256 : (k m : Bytes) → length (hmac_sha256 k m) ≡ 32
  pub length-des : (k b : Bytes) → length (des k b) ≡ 8
  pub bytes-sha1 : (m : Bytes) → AreBytes (sha1 m)
