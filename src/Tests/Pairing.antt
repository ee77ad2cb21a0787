-- ===== src/Tests/Pairing.antt =====
-- The hex texts, and a pairing with a key exchange on the lengths of keys.
use lookauniversalremote.Prelude.{
  ℕ, ◌+◌, ◌≡◌, refl, ap, arith, if◌then◌else◌, ◌==◌, length, [], ◌∷◌, some, none,
}
use lookauniversalremote.Pairing.Handshake.{
  PairingParams, PairRequestPayload, PairResponsePayload, Answer, http_error, answered, succeeded,
  Crypto, generate_client_key_pair,
}
use lookauniversalremote.Pairing.Manager.{
  handshaking, paired, StoredPairingSession, new_manager, set_state, pair_with_params,
}
use lookauniversalremote.Pairing.Agreement.{pair_with_params-agrees}
use lookauniversalremote.Protocol.Types.{Text}
use lookauniversalremote.Pairing.{bytes_to_hex, hex_to_bytes, hex_value, is_space}
use lookauniversalremote.Pairing.RoundTrip.{hex_to_bytes-lenient}

-- The text 1g.
hex_to_bytes-lenient_example : hex_to_bytes (λ s. s) (49 ∷ 103 ∷ []) ≡ some (1 ∷ [])
unfolding hex_value is_space
hex_to_bytes-lenient_example =
    hex_to_bytes-lenient (λ s. s) 49 103 1 refl refl (omega arith) refl refl refl refl

abbrev lengths : Crypto
lengths = record {
  get_public_key = λ a. a;
  get_shared_secret = λ a b. some ((length a + length b) ∷ []);
  hmac_sha256 = λ secret message. secret;
}

abbrev welcome : PairResponsePayload
welcome = record {
  status = "paired";
  player_index = some 1;
  player_color = none;
  session_id = "s-1";
  host_pubkey = "";
  signaling_ws_url = "";
}

-- It accepts a proof of one byte.
abbrev welcoming : Text → ℕ → PairRequestPayload → Answer
welcoming host port request =
    if length request.hmac_proof == 2 then answered welcome else http_error

abbrev shown : PairingParams
shown = record {
  host = 49 ∷ [];
  port = 8765;
  host_pub_key = bytes_to_hex (7 ∷ 200 ∷ []);
  nonce = bytes_to_hex (1 ∷ 2 ∷ []);
  version = 1;
}

abbrev paired_session : StoredPairingSession
paired_session = record {
  params = shown;
  client_key_pair = generate_client_key_pair lengths (9 ∷ []);
  shared_secret = 3 ∷ [];
  handshake_response = welcome;
  paired_at = 44;
}

pair_with_params-agrees_example :
    pair_with_params (λ s. s) lengths welcoming (9 ∷ []) 44 shown new_manager ≡ (
      set_state paired none
          (record (set_state handshaking none new_manager) { session = some paired_session }),
      succeeded paired_session,
    )
unfolding bytes_to_hex
pair_with_params-agrees_example =
    pair_with_params-agrees (λ s. s) lengths welcoming (9 ∷ []) (7 ∷ 200 ∷ []) (3 ∷ []) (1 ∷ 2 ∷ [])
      (49 ∷ []) 8765 1 44 welcome new_manager (λ s h. refl)
      (λ a b. ap (λ k. some (k ∷ [])) (omega arith)) (omega arith, (omega arith, tt))
      (omega arith, (omega arith, tt)) refl refl refl refl
