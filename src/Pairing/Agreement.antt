-- ===== src/Pairing/Agreement.antt =====
-- pairingCrypto.ts and PairingManager.ts: pairing with a host that accepts a right proof.
use text.Mathlib.Text.{◌==◌ as str_eq}
use lookauniversalremote.Prelude.{ℕ, ◌<◌, ◌≡◌, refl, ◌∙◌, true, false, List, ◌++◌, All, none, some}
use lookauniversalremote.Protocol.Types.{Text}
use lookauniversalremote.Pairing.{bytes_to_hex}
use lookauniversalremote.Pairing.RoundTrip.{IsHexDigit, hex_to_bytes-bytes_to_hex}
use lookauniversalremote.Pairing.Handshake.{
  PairingParams, ClientKeyPair, PairRequestPayload, PairResponsePayload, Answer, answered,
  succeeded, Crypto, generate_client_key_pair, derive_shared_secret, compute_pairing_proof,
  check_answer, perform_pairing_handshake, pairing_hmac_context_bytes,
}
use lookauniversalremote.Pairing.Manager.{
  handshaking, paired, StoredPairingSession, PairingManager, set_state, finish_handshake,
  pair_with_params,
}

module _ (lower : Text → Text) (crypto : Crypto)
    (post : Text → ℕ → PairRequestPayload → Answer) where
  -- The request with this public key in hex, for this nonce, that is proved by a secret.
  abbrev pub proved_request : Text → List ℕ → List ℕ → PairRequestPayload
  proved_request key_hex secret n = record {
    client_pubkey = key_hex;
    nonce = bytes_to_hex n;
    hmac_proof = bytes_to_hex (crypto.hmac_sha256 secret (pairing_hmac_context_bytes ++ n));
  }

  perform-honest :
      (pair : ClientKeyPair) (host_public secret n : List ℕ) (host : Text) (port version : ℕ)
      (response : PairResponsePayload)
      → ((s : Text) → All IsHexDigit s → lower s ≡ s)
      → All (λ b. b < 256) host_public
      → All (λ b. b < 256) n
      → crypto.get_shared_secret pair.private_key host_public ≡ some secret
      → post host port (proved_request pair.public_key_hex secret n) ≡ answered response
      → str_eq response.status "paired" ≡ true
      → str_eq response.session_id "" ≡ false
      → perform_pairing_handshake lower crypto post
          (record {
            host = host;
            port = port;
            host_pub_key = bytes_to_hex host_public;
            nonce = bytes_to_hex n;
            version = version;
          })
          pair
        ≡ succeeded (record { response = response; client_key_pair = pair; shared_secret = secret })
  unfolding perform_pairing_handshake derive_shared_secret compute_pairing_proof check_answer
  perform-honest pair host_public secret n host port version response lower_kept key_bytes n_bytes
        agreed accepted status given =
      rw
        (
          hex_to_bytes-bytes_to_hex lower host_public lower_kept key_bytes,
          agreed,
          hex_to_bytes-bytes_to_hex lower n lower_kept n_bytes,
          accepted,
          status,
          given,
          perform_pairing_handshake,
          derive_shared_secret,
          compute_pairing_proof,
          check_answer,
        )
        refl

  -- A host with a secret key and a nonce shows both, its public key and the nonce, in hex, and the client
  -- pairs with them. If the host's own secret is the same for both ends of a key exchange and it
  -- answers a request that is proved by its own secret with a session, then the pairing succeeds:
  -- the client holds that session with exactly the host's secret, its state is paired, and every
  -- listener is told of handshaking and then of paired, in this order.
  pub pair_with_params-agrees :
      (private_key host_key secret n : List ℕ) (host : Text) (port version now : ℕ)
      (response : PairResponsePayload) (m : PairingManager)
      → ((s : Text) → All IsHexDigit s → lower s ≡ s)
      → ((a b : List ℕ)
          → crypto.get_shared_secret a (crypto.get_public_key b)
            ≡ crypto.get_shared_secret b (crypto.get_public_key a))
      → All (λ b. b < 256) (crypto.get_public_key host_key)
      → All (λ b. b < 256) n
      → crypto.get_shared_secret host_key (crypto.get_public_key private_key) ≡ some secret
      → post host port (proved_request (bytes_to_hex (crypto.get_public_key private_key)) secret n)
        ≡ answered response
      → str_eq response.status "paired" ≡ true
      → str_eq response.session_id "" ≡ false
      → let params : PairingParams = record {
        host = host;
        port = port;
        host_pub_key = bytes_to_hex (crypto.get_public_key host_key);
        nonce = bytes_to_hex n;
        version = version;
      } in
        let session : StoredPairingSession = record {
          params = params;
          client_key_pair = generate_client_key_pair crypto private_key;
          shared_secret = secret;
          handshake_response = response;
          paired_at = now;
        } in
        pair_with_params lower crypto post private_key now params m ≡ (
          set_state paired none (record (set_state handshaking none m) { session = some session }),
          succeeded session,
        )
  unfolding pair_with_params finish_handshake generate_client_key_pair
  pair_with_params-agrees private_key host_key secret n host port version now response m lower_kept
        exchange key_bytes n_bytes own accepted status given =
      rw
        (
          perform-honest (generate_client_key_pair crypto private_key)
              (crypto.get_public_key host_key) secret n host port version response lower_kept
              key_bytes n_bytes (exchange private_key host_key ∙ own) accepted status given,
          pair_with_params,
        )
        refl
