-- ===== src/Pairing/Manager.antt =====
-- PairingManager.ts: the lifecycle of a pairing. No other event comes in while a request is under way.
use lookauniversalremote.Prelude.{ℕ, List, [], ◌++◌, map, Option, none, some}
use lookauniversalremote.Protocol.Types.{Text}
use lookauniversalremote.Bridge.Incoming.{add, delete}
use lookauniversalremote.Pairing.Handshake.{
  PairingParams, ClientKeyPair, PairRequestPayload, PairResponsePayload, Answer, PairingError,
  connection_failed, Outcome, succeeded, thrown, Crypto, Handshake, generate_client_key_pair,
  perform_pairing_handshake,
}

pub data PairingState : Type 0 where
  idle discovering parsing handshaking paired connecting connected reconnecting failed :
      PairingState

pub record StoredPairingSession : Type 0 where
  pub params : PairingParams
  pub client_key_pair : ClientKeyPair
  pub shared_secret : List ℕ
  pub handshake_response : PairResponsePayload
  pub paired_at : ℕ

-- A call of a listener.
pub record StateCall : Type 0 where
  pub listener : ℕ
  pub state : PairingState
  pub error : Option PairingError

-- The last field is the log of the calls.
pub record PairingManager : Type 0 where
  pub state : PairingState
  pub error : Option PairingError
  pub session : Option StoredPairingSession
  pub state_listeners : List ℕ
  pub calls : List StateCall

abbrev pub new_manager : PairingManager
new_manager = record {
  state = idle;
  error = none;
  session = none;
  state_listeners = [];
  calls = [];
}

unfoldable pub on_state_change : ℕ → PairingManager → PairingManager
on_state_change h m = record m { state_listeners = add h m.state_listeners }

unfoldable pub off_state_change : ℕ → PairingManager → PairingManager
off_state_change h m = record m { state_listeners = delete h m.state_listeners }

unfoldable pub set_state : PairingState → Option PairingError → PairingManager → PairingManager
set_state state error m = record m {
  state = state;
  error = error;
  calls =
      m.calls ++ map (λ h. record { listener = h; state = state; error = error }) m.state_listeners;
}

-- What follows the `await` of the handshake.
unfoldable pub finish_handshake :
    ℕ
    → PairingParams
    → Outcome Handshake
    → PairingManager
    → PairingManager × Outcome StoredPairingSession
unfolding set_state
finish_handshake now params (thrown e) m = (set_state failed (some e) m, thrown e)
finish_handshake now params (succeeded h) m =
    let session : StoredPairingSession = record {
      params = params;
      client_key_pair = h.client_key_pair;
      shared_secret = h.shared_secret;
      handshake_response = h.response;
      paired_at = now;
    } in
    (set_state paired none (record m { session = some session }), succeeded session)

module _ (lower : Text → Text) (crypto : Crypto)
    (post : Text → ℕ → PairRequestPayload → Answer) where
  unfoldable pub pair_with_params :
      List ℕ → ℕ → PairingParams → PairingManager → PairingManager × Outcome StoredPairingSession
  unfolding finish_handshake set_state
  pair_with_params private_key now params m =
      finish_handshake now params
        (perform_pairing_handshake lower crypto post params
          (generate_client_key_pair crypto private_key))
        (set_state handshaking none m)

  -- `parsed` is what `parsePairingUri` makes of the text.
  unfoldable pub pair_from_raw_uri :
      List ℕ
      → ℕ
      → Outcome PairingParams
      → PairingManager
      → PairingManager × Outcome StoredPairingSession
  unfolding pair_with_params set_state
  pair_from_raw_uri private_key now (thrown e) m =
      (set_state failed (some e) (set_state parsing none m), thrown e)
  pair_from_raw_uri private_key now (succeeded params) m =
      let (m', outcome) = pair_with_params private_key now params (set_state parsing none m) in
      elim outcome [
        | succeeded session ↦ (m', succeeded session)
        | thrown e ↦ (set_state failed (some e) m', thrown e)
      ]

-- The states of a transport that it is told.
pub data ConnectionPhase : Type 0 where
  phase_connecting phase_connected phase_reconnecting phase_failed phase_disconnected :
      ConnectionPhase

unfoldable pub update_connection_state : ConnectionPhase → PairingManager → PairingManager
unfolding set_state
update_connection_state phase_connecting m = set_state connecting none m
update_connection_state phase_connected m = set_state connected none m
update_connection_state phase_reconnecting m = set_state reconnecting none m
update_connection_state phase_failed m = set_state failed (some connection_failed) m
update_connection_state phase_disconnected m = set_state idle none m

unfoldable pub reset : PairingManager → PairingManager
unfolding set_state
reset m = set_state idle none (record m { session = none })
