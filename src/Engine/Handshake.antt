-- ===== src/Engine/Handshake.antt =====
-- engine.rs over any sequence of packets: what an `Established` event proves.
use mac_os_sstp_client.Prelude.{ℕ, refl, sym, List, [], ◌∷◌, Bytes, All}
use mathlib.Core.Path.{subst}
use mathlib.Core.List.{Memᴰ}
use mac_os_sstp_client.Prelude.Text.{Str}
use mac_os_sstp_client.Prelude.Crypto.{Crypto}
use mac_os_sstp_client.Ipcp.{NegotiatedConfig}
use mac_os_sstp_client.Mppe.{MppeKeys}
use mac_os_sstp_client.Engine.State.{EngineEvent, established, Engine, new}
use mac_os_sstp_client.Engine.History.{
  Entry, Authenticated, IsValid, EventOk, OutcomeOk, Reach, here, next,
}
use mac_os_sstp_client.Engine.Authentic.{packet_ok}

module _ (c : Crypto) (magic : ℕ) (username password : Str) (cert : Bytes) where
  pub new-IsValid : IsValid c username password [] (new c magic username password cert)
  unfolding new
  new-IsValid = record { same_username = refl; same_password = refl; pending_ok = tt; keys_ok = tt }

  reach_ok :
      {h : List Entry} {e : Engine} {events : List EngineEvent}
      → Reach c (new c magic username password cert) h e events
      → IsValid c username password h e × All (EventOk c username password h) events
  reach_ok here = (new-IsValid, tt)
  reach_ok (next {h} {e} draws pkt r step) =
      subst (OutcomeOk c username password ((draws, pkt) ∷ h)) step
        (packet_ok c username password h draws pkt e (reach_ok r).0)

All-mem {ℓ κ} : {A : Type ℓ} (P : A → Type κ) {x : A} {xs : List A} → Memᴰ x xs → All P xs → P x
All-mem P (Memᴰ.head e) h = subst P (sym e) h.0
All-mem P (Memᴰ.tail m) h = All-mem P m h.1

-- From a new engine and through any packets at all: when the engine reports that the tunnel is
-- established, then among the packets received is a CHAP Success message whose text verified
-- against an answer that the engine had given before to a 16-byte challenge received before it,
-- for the engine's own user name and password, and the reported keys are the MPPE keys of that
-- answer.
pub established-Authenticated :
    (c : Crypto) (magic : ℕ) (username password : Str) (cert : Bytes) {h : List Entry} {e : Engine}
    {events : List EngineEvent} (negotiated : NegotiatedConfig) (keys : MppeKeys)
    → Reach c (new c magic username password cert) h e events
    → Memᴰ (established negotiated keys) events
    → Authenticated c username password h keys
established-Authenticated c magic username password cert {h} negotiated keys r m =
    All-mem (EventOk c username password h) m (reach_ok c magic username password cert r).1
