-- ===== src/Mppe.antt =====
-- sstp-proto/src/mppe.rs: the MPPE keys that RFC 3079 derives from an MS-CHAPv2 exchange.
pub mod Keys
use mac_os_sstp_client.Prelude.{
  ◌+◌, [], ◌∷◌, ◌++◌, Bool, true, false, xor, take, replicate, if◌then◌else◌, Bytes,
}
use mac_os_sstp_client.Prelude.Text.{Str, utf8}
use mac_os_sstp_client.Prelude.Crypto.{Crypto}

-- "This is the MPPE Master Key"
abbrev pub master_key_magic : Bytes
master_key_magic =
    0x54 ∷ 0x68 ∷ 0x69 ∷ 0x73 ∷ 0x20 ∷ 0x69 ∷ 0x73 ∷ 0x20 ∷ 0x74 ∷ 0x68 ∷ 0x65 ∷ 0x20 ∷ 0x4d ∷ 0x50
    ∷ 0x50 ∷ 0x45 ∷ 0x20 ∷ 0x4d ∷ 0x61 ∷ 0x73 ∷ 0x74 ∷ 0x65 ∷ 0x72 ∷ 0x20 ∷ 0x4b ∷ 0x65 ∷ 0x79 ∷ []

-- "On the client side, this is the send key; on the server side, it is the receive key."
abbrev pub session_key_magic_client_send : Bytes
session_key_magic_client_send =
    0x4f ∷ 0x6e ∷ 0x20 ∷ 0x74 ∷ 0x68 ∷ 0x65 ∷ 0x20 ∷ 0x63 ∷ 0x6c ∷ 0x69 ∷ 0x65 ∷ 0x6e ∷ 0x74 ∷ 0x20
    ∷ 0x73 ∷ 0x69 ∷ 0x64 ∷ 0x65 ∷ 0x2c ∷ 0x20 ∷ 0x74 ∷ 0x68 ∷ 0x69 ∷ 0x73 ∷ 0x20 ∷ 0x69 ∷ 0x73
    ∷ 0x20 ∷ 0x74 ∷ 0x68 ∷ 0x65 ∷ 0x20 ∷ 0x73 ∷ 0x65 ∷ 0x6e ∷ 0x64 ∷ 0x20 ∷ 0x6b ∷ 0x65 ∷ 0x79
    ∷ 0x3b ∷ 0x20 ∷ 0x6f ∷ 0x6e ∷ 0x20 ∷ 0x74 ∷ 0x68 ∷ 0x65 ∷ 0x20 ∷ 0x73 ∷ 0x65 ∷ 0x72 ∷ 0x76
    ∷ 0x65 ∷ 0x72 ∷ 0x20 ∷ 0x73 ∷ 0x69 ∷ 0x64 ∷ 0x65 ∷ 0x2c ∷ 0x20 ∷ 0x69 ∷ 0x74 ∷ 0x20 ∷ 0x69
    ∷ 0x73 ∷ 0x20 ∷ 0x74 ∷ 0x68 ∷ 0x65 ∷ 0x20 ∷ 0x72 ∷ 0x65 ∷ 0x63 ∷ 0x65 ∷ 0x69 ∷ 0x76 ∷ 0x65
    ∷ 0x20 ∷ 0x6b ∷ 0x65 ∷ 0x79 ∷ 0x2e ∷ []

-- "On the client side, this is the receive key; on the server side, it is the send key."
abbrev pub session_key_magic_client_recv : Bytes
session_key_magic_client_recv =
    0x4f ∷ 0x6e ∷ 0x20 ∷ 0x74 ∷ 0x68 ∷ 0x65 ∷ 0x20 ∷ 0x63 ∷ 0x6c ∷ 0x69 ∷ 0x65 ∷ 0x6e ∷ 0x74 ∷ 0x20
    ∷ 0x73 ∷ 0x69 ∷ 0x64 ∷ 0x65 ∷ 0x2c ∷ 0x20 ∷ 0x74 ∷ 0x68 ∷ 0x69 ∷ 0x73 ∷ 0x20 ∷ 0x69 ∷ 0x73
    ∷ 0x20 ∷ 0x74 ∷ 0x68 ∷ 0x65 ∷ 0x20 ∷ 0x72 ∷ 0x65 ∷ 0x63 ∷ 0x65 ∷ 0x69 ∷ 0x76 ∷ 0x65 ∷ 0x20
    ∷ 0x6b ∷ 0x65 ∷ 0x79 ∷ 0x3b ∷ 0x20 ∷ 0x6f ∷ 0x6e ∷ 0x20 ∷ 0x74 ∷ 0x68 ∷ 0x65 ∷ 0x20 ∷ 0x73
    ∷ 0x65 ∷ 0x72 ∷ 0x76 ∷ 0x65 ∷ 0x72 ∷ 0x20 ∷ 0x73 ∷ 0x69 ∷ 0x64 ∷ 0x65 ∷ 0x2c ∷ 0x20 ∷ 0x69
    ∷ 0x74 ∷ 0x20 ∷ 0x69 ∷ 0x73 ∷ 0x20 ∷ 0x74 ∷ 0x68 ∷ 0x65 ∷ 0x20 ∷ 0x73 ∷ 0x65 ∷ 0x6e ∷ 0x64
    ∷ 0x20 ∷ 0x6b ∷ 0x65 ∷ 0x79 ∷ 0x2e ∷ []

-- Each byte of the password, followed by a zero.
pub doubled : Bytes → Bytes
doubled [] = []
doubled (b ∷ bs) = b ∷ 0 ∷ doubled bs

pub record MppeKeys : Type 0 where
  pub send_key : Bytes
  pub recv_key : Bytes

module _ (c : Crypto) where
  unfoldable pub password_hash_hash : Str → Bytes
  unfolding doubled
  password_hash_hash password = c.md4 (c.md4 (doubled (utf8 password)))

  unfoldable pub master_key : Bytes → Bytes → Bytes
  master_key hash_hash nt_response =
      take 16 (c.sha1 (hash_hash ++ (nt_response ++ master_key_magic)))

  unfoldable pub session_key : Bytes → Bool → Bool → Bytes
  session_key master sending is_server =
      let use_send_magic = xor sending is_server in
      let magic =
        if use_send_magic then session_key_magic_client_send else session_key_magic_client_recv in
      take 16 (c.sha1 (master ++ (replicate 40 0 ++ (magic ++ replicate 40 0xf2))))

  unfoldable pub mppe_get_keys : Str → Bytes → Bool → MppeKeys
  unfolding password_hash_hash master_key session_key
  mppe_get_keys password nt_response is_server =
      let master = master_key (password_hash_hash password) nt_response in
      record {
        send_key = session_key master true is_server;
        recv_key = session_key master false is_server;
      }
