-- ===== src/Ipcp/Bounds/Addresses.antt =====
-- The addresses that IPCP takes from options: ipcp.rs, `parse_ip_opt` and its uses.
use mac_os_sstp_client.Prelude.{
  refl, List, [], ◌∷◌, Option, none, some, ◌==◌, if◌then◌else◌, if-both, Bytes,
}
use mac_os_sstp_client.Cp.{Opt}
use mac_os_sstp_client.Ipcp.{
  Ipv4Addr, NegotiatedConfig, opt_ip_address, opt_primary_dns, opt_secondary_dns, four_octets,
  parse_ip_opt, Evaluation, evaluate_option, evaluate_from, push_reject, capture_option,
  capture_from,
}
use mac_os_sstp_client.Ipcp.Bounds.{IpcpOk, IsAddress, AddressesOk, EvaluationOk, with_negotiated}

four_octets-IsAddress : (value : Bytes) → IsAddress (four_octets value)
four_octets-IsAddress [] = tt
four_octets-IsAddress (a ∷ []) = tt
four_octets-IsAddress (a ∷ b ∷ []) = tt
four_octets-IsAddress (a ∷ b ∷ c ∷ []) = tt
four_octets-IsAddress (a ∷ b ∷ c ∷ d ∷ []) = refl
four_octets-IsAddress (a ∷ b ∷ c ∷ d ∷ e ∷ more) = tt

capture_option-AddressesOk :
    (n : NegotiatedConfig) (opt : Opt) → AddressesOk n → AddressesOk (capture_option n opt)
unfolding capture_option
capture_option-AddressesOk n opt v = go (parse_ip_opt opt) (four_octets-IsAddress opt.value)
  where
    go :
        (o : Option Ipv4Addr)
        → IsAddress o
        → AddressesOk (elim o [
          | none ↦ n
          | some addr ↦
              if opt.kind == opt_ip_address
              then record n { local_ip = some addr }
              else if opt.kind == opt_primary_dns
              then record n { dns1 = some addr }
              else if opt.kind == opt_secondary_dns
              then record n { dns2 = some addr }
              else n
        ])
    go none h = v
    go (some addr) h =
        if-both AddressesOk (opt.kind == opt_ip_address) _ _
          (λ y. record {
            local_ok = h;
            peer_ok = v.peer_ok;
            dns1_ok = v.dns1_ok;
            dns2_ok = v.dns2_ok;
          })
          (λ m.
            if-both AddressesOk (opt.kind == opt_primary_dns) _ _
              (λ y. record {
                local_ok = v.local_ok;
                peer_ok = v.peer_ok;
                dns1_ok = h;
                dns2_ok = v.dns2_ok;
              })
              (λ m.
                if-both AddressesOk (opt.kind == opt_secondary_dns) _ _
                  (λ y. record {
                    local_ok = v.local_ok;
                    peer_ok = v.peer_ok;
                    dns1_ok = v.dns1_ok;
                    dns2_ok = h;
                  })
                  (λ m. v)))

pub capture_from-AddressesOk :
    (n : NegotiatedConfig) (opts : List Opt) → AddressesOk n → AddressesOk (capture_from n opts)
unfolding capture_from
capture_from-AddressesOk n [] v = v
capture_from-AddressesOk n (opt ∷ opts) v =
    capture_from-AddressesOk (capture_option n opt) opts (capture_option-AddressesOk n opt v)

evaluate_option-IpcpOk :
    (s : Evaluation) (opt : Opt) → IpcpOk s.ipcp → IpcpOk (evaluate_option s opt).ipcp
unfolding evaluate_option push_reject
evaluate_option-IpcpOk s opt v =
    if-both EvaluationOk (opt.kind == opt_ip_address) _ _
      (λ y. go (parse_ip_opt opt) (four_octets-IsAddress opt.value)) (λ n. v)
  where
    go :
        (o : Option Ipv4Addr)
        → IsAddress o
        → EvaluationOk (elim o [
          | some addr ↦ record s {
            ipcp = record (s.ipcp) {
              negotiated = record (s.ipcp.negotiated) { peer_ip = some addr };
            };
          }
          | none ↦ push_reject opt s
        ])
    go none h = v
    go (some addr) h =
        with_negotiated s.ipcp _
          (record {
            local_ok = v.addresses_ok.local_ok;
            peer_ok = h;
            dns1_ok = v.addresses_ok.dns1_ok;
            dns2_ok = v.addresses_ok.dns2_ok;
          })
          v

pub evaluate_from-IpcpOk :
    (s : Evaluation) (opts : List Opt) → IpcpOk s.ipcp → IpcpOk (evaluate_from s opts).ipcp
unfolding evaluate_from
evaluate_from-IpcpOk s [] v = v
evaluate_from-IpcpOk s (opt ∷ opts) v =
    evaluate_from-IpcpOk (evaluate_option s opt) opts (evaluate_option-IpcpOk s opt v)
