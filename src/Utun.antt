-- ===== src/Utun.antt =====
-- sstp-proto/src/utun.rs: the tunnel device. The system calls are a parameter.
pub mod Framing
use mac_os_sstp_client.Prelude.{
  ℕ, ◌+◌, ◌-◌, ◌*◌, ◌^◌, bit_and, bit_or, List, [], ◌∷◌, ◌++◌, Option, none, some, Bool, true,
  false, Result, ok, err, ◌>>=◌, ◌==◌, ltb, if◌then◌else◌, length, take, drop, replicate, Bytes,
}
use mac_os_sstp_client.Prelude.Command.{Command, ExitStatus}
use mac_os_sstp_client.Prelude.Text.Lines.{address_text}
use mac_os_sstp_client.Prelude.Text.{codes, Str, from_utf8_lossy}

abbrev pub af_system : ℕ
af_system = 32

abbrev pub af_sys_control : ℕ
af_sys_control = 2

-- "com.apple.net.utun_control" and its null byte.
abbrev pub utun_control_name : Bytes
utun_control_name =
    0x63 ∷ 0x6F ∷ 0x6D ∷ 0x2E ∷ 0x61 ∷ 0x70 ∷ 0x70 ∷ 0x6C ∷ 0x65 ∷ 0x2E ∷ 0x6E ∷ 0x65 ∷ 0x74 ∷ 0x2E
    ∷ 0x75 ∷ 0x74 ∷ 0x75 ∷ 0x6E ∷ 0x5F ∷ 0x63 ∷ 0x6F ∷ 0x6E ∷ 0x74 ∷ 0x72 ∷ 0x6F ∷ 0x6C ∷ 0 ∷ []

-- `AF_INET` is 2.
abbrev pub ipv4_family_header : Bytes
ipv4_family_header = 0 ∷ 0 ∷ 0 ∷ 2 ∷ []

pub record CtlInfo : Type 0 where
  pub ctl_id : ℕ
  pub ctl_name : Bytes

pub record SockaddrCtl : Type 0 where
  pub sc_len : ℕ
  pub sc_family : ℕ
  pub ss_sysaddr : ℕ
  pub sc_id : ℕ
  pub sc_unit : ℕ
  pub sc_reserved : List ℕ

-- What `size_of` gives for the two `repr(C)` structs: the sum of their fields.
abbrev pub size_of_ctl_info : ℕ
size_of_ctl_info = 4 + 96

abbrev pub size_of_sockaddr_ctl : ℕ
size_of_sockaddr_ctl = 1 + 1 + 2 + 4 + 4 + 5 * 4

unfoldable pub ctliocginfo : ℕ
ctliocginfo =
    bit_or
      (bit_or (bit_or (bit_or 0x80000000 0x40000000) (bit_and size_of_ctl_info 0x1FFF * 2 ^ 16))
        (0x4E * 2 ^ 8))
      3

pub data UtunError : Type 0 where
  socket_failed : Str → UtunError
  control_info : Str → UtunError
  connect_failed : Str → UtunError
  get_if_name : Str → UtunError

pub record Utun : Type 0 where
  pub fd : ℕ
  pub name : Str

-- The kernel: each call answers, or fails with the text of an `io::Error`.
pub record Kernel : Type 0 where
  pub socket : Result Str ℕ
  pub ioctl : ℕ → ℕ → CtlInfo → Result Str CtlInfo
  pub connect : ℕ → SockaddrCtl → ℕ → Option Str
  pub getsockopt_ifname : ℕ → ℕ → Result Str (Bytes × ℕ)

-- The slots of `ctl_name` that the `zip` with the name reaches, and the zeros behind them.
abbrev pub filled : Bytes → ℕ → Bytes
filled name size = take size name ++ replicate (size - length name) 0

-- `trim_end_matches('\0')`.
unfoldable pub trim_end_nul : Str → Str
trim_end_nul [] = []
trim_end_nul (c ∷ cs) = elim (trim_end_nul cs) [
  | [] ↦ (if c == 0 then [] else c ∷ [])
  | x ∷ xs ↦ c ∷ x ∷ xs
]

abbrev pub failing {ℓ} : {A : Type ℓ} → (Str → UtunError) → Result Str A → Result UtunError A
failing f (ok a) = ok a
failing f (err e) = err (f e)

abbrev pub no_failure {ℓ} : {A : Type ℓ} → (Str → UtunError) → Option Str → A → Result UtunError A
no_failure f none a = ok a
no_failure f (some e) a = err (f e)

abbrev pub address : ℕ → SockaddrCtl
address id = record {
  sc_len = size_of_sockaddr_ctl;
  sc_family = af_system;
  ss_sysaddr = af_sys_control;
  sc_id = id;
  sc_unit = 0;
  sc_reserved = replicate 5 0;
}

unfoldable pub create : Kernel → Result UtunError Utun
unfolding trim_end_nul
create k = failing socket_failed k.socket >>= λ fd.
    failing control_info
      (k.ioctl fd ctliocginfo (record { ctl_id = 0; ctl_name = filled utun_control_name 96 }))
    >>= λ info.
        no_failure connect_failed (k.connect fd (address info.ctl_id) size_of_sockaddr_ctl) fd
        >>= λ connected. failing get_if_name (k.getsockopt_ifname connected 64) >>= λ answer.
            ok (record { fd = fd; name = trim_end_nul (from_utf8_lossy (take answer.1 answer.0)) })

-- What `configure_ipv4` runs, the absolute path written out.
abbrev pub ifconfig_up : Utun → Bytes → Bytes → Command
ifconfig_up u local peer = record {
  program = codes "/sbin/ifconfig";
  args = u.name ∷ codes "inet" ∷ address_text local ∷ address_text peer ∷ codes "up" ∷ [];
}

-- Its error, if it fails, for what running a command gives.
unfoldable pub configure_ipv4 :
    (Command → Result Str ExitStatus) → Utun → Bytes → Bytes → Option Str
configure_ipv4 runs u local peer = elim (runs (ifconfig_up u local peer)) [
  | err e ↦ some e
  | ok status ↦
      if status.exited_well
      then none
      else some (codes "ifconfig " ++ (u.name ++ (codes " exited with " ++ status.status_text)))
]

-- The bytes that `write_packet` hands to `write`.
unfoldable pub write_packet : Bytes → Bytes
write_packet ip_packet = ipv4_family_header ++ ip_packet

-- `read_packet` into a buffer of `size` bytes: `read` answers with at most `size + 4` bytes of the
-- frame. The result is the part of the buffer that is filled.
unfoldable pub read_packet : ℕ → (ℕ → Result Str Bytes) → Result Str Bytes
read_packet size read =
    read (size + 4) >>= λ framed. (if ltb (length framed) 4 then ok [] else ok (drop 4 framed))

-- What one turn of the reader thread gives: an empty packet is skipped, an error of the device ends
-- the loop, and so does a packet that cannot be sent on because the receiver is gone.
abbrev pub collected : Result Str Bytes → Bool → List Bytes → List Bytes
collected (ok []) received later = later
collected (ok (b ∷ bs)) true later = (b ∷ bs) ∷ later
collected (ok (b ∷ bs)) false later = []
collected (err e) received later = []

-- The thread that reads the device: the packets that it sends on, for the answers of `read`, each
-- with whether the receiver is still there to take a packet.
unfoldable pub reader_thread : List ((ℕ → Result Str Bytes) × Bool) → List Bytes
reader_thread [] = []
reader_thread ((read, received) ∷ reads) =
    collected (read_packet 16384 read) received (reader_thread reads)
