-- ===== src/Ipcp/Bounds.antt =====
-- What holds of the state of IPCP through any frames: ipcp.rs, `start` and `receive`.
pub mod Addresses
pub mod Frames
use mac_os_sstp_client.Prelude.{
  ℕ, ◌<◌, ◌≡◌, arith, List, [], ◌∷◌, Option, none, some, Bool, false, not, ◌||◌, ◌==◌, Bytes, All,
  length,
}
use mac_os_sstp_client.Cp.{Opt}
use mac_os_sstp_client.Cp.Options.{FitsOpt}
use mac_os_sstp_client.Cp.Desired.{set_value, names_kind, retain-All}
use mac_os_sstp_client.Cp.Bounds.{IsOffer, IsSent, set_value-offers}
use mac_os_sstp_client.Ipcp.{
  Ipcp, Ipv4Addr, NegotiatedConfig, opt_ip_address, opt_primary_dns, opt_secondary_dns,
  send_config_request, Evaluation, apply_nak, apply_reject, resend,
}

-- The kinds of the options that IPCP asks for.
abbrev pub offered : ℕ → Bool
offered kind = kind == opt_ip_address || (kind == opt_primary_dns || kind == opt_secondary_dns)

abbrev pub IsAddress : Option Ipv4Addr → Type 0
IsAddress none = Unit {0}
IsAddress (some addr) = length addr ≡ 4

pub record AddressesOk (n : NegotiatedConfig) : Type 0 where
  pub local_ok : IsAddress n.local_ip
  pub peer_ok : IsAddress n.peer_ip
  pub dns1_ok : IsAddress n.dns1
  pub dns2_ok : IsAddress n.dns2

pub record IpcpOk (l : Ipcp) : Type 0 where
  pub id_ok : l.identifier < 256
  pub sent_ok : IsSent l.last_sent_id
  pub offers_ok : All (IsOffer offered) l.desired
  pub addresses_ok : AddressesOk l.negotiated

abbrev pub EvaluationOk : Evaluation → Type 0
EvaluationOk s = IpcpOk s.ipcp

abbrev pub AnswerOk : Ipcp × List Bytes → Type 0
AnswerOk r = IpcpOk r.0

pub send_config_request-IpcpOk : (l : Ipcp) → IpcpOk l → IpcpOk (send_config_request l).0
unfolding send_config_request
send_config_request-IpcpOk l v = record {
  id_ok = omega arith;
  sent_ok = omega arith;
  offers_ok = v.offers_ok;
  addresses_ok = v.addresses_ok;
}

pub with_flags :
    (l : Ipcp) (a b : Bool) → IpcpOk l → IpcpOk (record l { local_up = a; remote_up = b })
with_flags l a b v = record {
  id_ok = v.id_ok;
  sent_ok = v.sent_ok;
  offers_ok = v.offers_ok;
  addresses_ok = v.addresses_ok;
}

with_desired :
    (l : Ipcp) (os : List Opt)
    → All (IsOffer offered) os
    → IpcpOk l
    → IpcpOk (record l { desired = os })
with_desired l os h v = record {
  id_ok = v.id_ok;
  sent_ok = v.sent_ok;
  offers_ok = h;
  addresses_ok = v.addresses_ok;
}

pub with_negotiated :
    (l : Ipcp) (n : NegotiatedConfig)
    → AddressesOk n
    → IpcpOk l
    → IpcpOk (record l { negotiated = n })
with_negotiated l n h v = record {
  id_ok = v.id_ok;
  sent_ok = v.sent_ok;
  offers_ok = v.offers_ok;
  addresses_ok = h;
}

pub resend-IpcpOk : (l : Ipcp) → IpcpOk l → IpcpOk (resend l).0
unfolding resend
resend-IpcpOk l v = send_config_request-IpcpOk _ (with_flags l false l.remote_up v)

pub apply_nak-IpcpOk :
    (l : Ipcp) (opts : List Opt) → All FitsOpt opts → IpcpOk l → IpcpOk (apply_nak l opts)
unfolding apply_nak
apply_nak-IpcpOk l [] h v = v
apply_nak-IpcpOk l (s ∷ opts) (f, h) v =
    apply_nak-IpcpOk (record l { desired = set_value s.kind s.value l.desired }) opts h
      (with_desired l _ (set_value-offers offered s.kind s.value l.desired f v.offers_ok) v)

pub apply_reject-IpcpOk : (l : Ipcp) (opts : List Opt) → IpcpOk l → IpcpOk (apply_reject l opts)
unfolding apply_reject
apply_reject-IpcpOk l opts v =
    with_desired l _
      (retain-All (IsOffer offered) (λ o. not (names_kind opts o)) l.desired v.offers_ok) v
