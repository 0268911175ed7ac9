-- ===== src/Engine/History.antt =====
-- What the engine of engine.rs has been through: the packets that it received, latest first, each
-- with the numbers that the call drew.
use mac_os_sstp_client.Prelude.{
  ◌≡◌, ◌⊎◌, List, [], ◌∷◌, Option, none, some, true, false, length, Bytes, All,
}
use mac_os_sstp_client.Prelude.Text.{Str}
use mac_os_sstp_client.Prelude.Crypto.{Crypto}
use mac_os_sstp_client.Packet.{Packet, data_packet, ctrl}
use mac_os_sstp_client.Ppp as Ppp
use mac_os_sstp_client.ChapFsm as ChapFsm
use mac_os_sstp_client.ChapFsm.{PendingResponse, verify_success, parse_challenge}
use mac_os_sstp_client.Chap.{generate_nt_response}
use mac_os_sstp_client.Mppe.{MppeKeys, mppe_get_keys}
use mac_os_sstp_client.Engine.State.{EngineEvent, established, Engine, Draws, Outcome, done, panic}
use mac_os_sstp_client.Engine.Handlers.{on_packet}

abbrev pub Entry : Type 0
Entry = Draws × Packet

-- The CHAP frame that a packet carries.
abbrev pub chap_payload : Ppp.Protocol → Bytes → Option ChapFsm.Frame
chap_payload Ppp.chap payload = ChapFsm.decode payload
chap_payload _ payload = none

abbrev pub chap_frame : Packet → Option ChapFsm.Frame
chap_frame (ctrl m attrs) = none
chap_frame (data_packet frame) = elim (Ppp.decode frame) [
  | none ↦ none
  | some (proto, payload) ↦ chap_payload proto payload
]

abbrev pub IsChallengeFrame : ChapFsm.Frame → Bytes → Type 0
IsChallengeFrame f value =
    (f.code ≡ ChapFsm.challenge)
    × ((info : ChapFsm.ChallengeInfo) × (parse_challenge f ≡ some info) × (info.value ≡ value))

module _ (c : Crypto) (username password : Str) where
  -- The packet is a challenge of 16 bytes, and `p` is our answer to it, made from the peer
  -- challenge that the call drew.
  abbrev pub IsAnswer : Entry → PendingResponse → Bytes → Type 0
  IsAnswer (draws, pkt) p value =
      (f : ChapFsm.Frame) × (chap_frame pkt ≡ some f)
      × IsChallengeFrame f value
      × (length value ≡ 16)
      × (p.peer_challenge ≡ draws.peer_challenge)
      × (p.nt_response ≡ generate_nt_response c value draws.peer_challenge username password)

  abbrev pub Answered : List Entry → PendingResponse → Bytes → Type 0
  Answered [] p value = ⊥
  Answered (e ∷ h) p value = IsAnswer e p value ⊎ Answered h p value

  -- The packet is a Success message whose text verifies against an answer that we gave before it,
  -- and `k` are the keys of that answer.
  abbrev pub IsProof : Entry → List Entry → MppeKeys → Type 0
  IsProof (draws, pkt) h k =
      (f : ChapFsm.Frame) × (p : PendingResponse) × (value : Bytes) × (chap_frame pkt ≡ some f)
      × (f.code ≡ ChapFsm.success)
      × Answered h p value
      × (verify_success c f.payload password p value username ≡ true)
      × (k ≡ mppe_get_keys c password p.nt_response false)

  abbrev pub Authenticated : List Entry → MppeKeys → Type 0
  Authenticated [] k = ⊥
  Authenticated (e ∷ h) k = IsProof e h k ⊎ Authenticated h k

  -- What holds of the engine after that history.
  abbrev pub PendingOk : List Entry → Option PendingResponse → Option Bytes → Type 0
  PendingOk h none value = Unit {0}
  PendingOk h (some p) none = ⊥
  PendingOk h (some p) (some value) = Answered h p value

  abbrev pub KeysOk : List Entry → Option MppeKeys → Type 0
  KeysOk h none = Unit {0}
  KeysOk h (some k) = Authenticated h k

  pub record IsValid (h : List Entry) (e : Engine) : Type 0 where
    pub same_username : e.username ≡ username
    pub same_password : e.password ≡ password
    pub pending_ok : PendingOk h e.pending_chap e.auth_challenge
    pub keys_ok : KeysOk h e.mppe_keys

  -- An `Established` event carries keys that were authenticated.
  abbrev pub EventOk : List Entry → EngineEvent → Type 0
  EventOk h (established negotiated keys) = Authenticated h keys
  EventOk h _ = Unit {0}

  abbrev pub OutcomeOk : List Entry → Outcome → Type 0
  OutcomeOk h (done e events) = IsValid h e × All (EventOk h) events
  OutcomeOk h panic = Unit {0}

-- The engine after a history, with the events of the latest call.
pub data Reach (c : Crypto) (start : Engine) : List Entry → Engine → List EngineEvent → Type 0 where
  here : Reach c start [] start []
  next :
      {h : List Entry} {e e' : Engine} {before events : List EngineEvent}
      → (draws : Draws) (pkt : Packet) → Reach c start h e before
      → on_packet c draws e pkt ≡ done e' events
      → Reach c start ((draws, pkt) ∷ h) e' events
