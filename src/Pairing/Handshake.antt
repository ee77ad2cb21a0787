-- ===== src/Pairing/Handshake.antt =====
-- pairingCrypto.ts: the handshake. X25519 and HMAC-SHA256 come from packages.
use Prim.Native.String.{String}
use text.Mathlib.Text.{◌==◌ as str_eq}
use lookauniversalremote.Prelude.{
  ℕ, if◌then◌else◌, not, ◌||◌, List, [], ◌∷◌, ◌++◌, Option, none, some,
}
use lookauniversalremote.Protocol.Types.{Text}
use lookauniversalremote.Pairing.{bytes_to_hex, hex_to_bytes}

pub record PairingParams : Type 0 where
  pub host : Text
  pub port : ℕ
  pub host_pub_key : Text
  pub nonce : Text
  pub version : ℕ

pub record ClientKeyPair : Type 0 where
  pub private_key : List ℕ
  pub public_key : List ℕ
  pub public_key_hex : Text

pub record PairRequestPayload : Type 0 where
  pub client_pubkey : Text
  pub nonce : Text
  pub hmac_proof : Text

pub record PairResponsePayload : Type 0 where
  pub status : String
  pub player_index : Option ℕ
  pub player_color : Option String
  pub session_id : String
  pub host_pubkey : String
  pub signaling_ws_url : String

-- What `fetch` comes to: no answer that can be read, an answer that is not ok, or the JSON of one.
pub data Answer : Type 0 where
  no_answer http_error : Answer
  answered : PairResponsePayload → Answer

-- The errors that are thrown, in place of their messages.
pub data PairingError : Type 0 where
  bad_uri bad_key unreachable refused rejected connection_failed : PairingError

pub data Outcome {ℓ} (A : Type ℓ) : Type ℓ where
  succeeded : A → Outcome A
  thrown : PairingError → Outcome A

-- The packages' functions; `none` is a key that is refused.
pub record Crypto : Type 0 where
  pub get_public_key : List ℕ → List ℕ
  pub get_shared_secret : List ℕ → List ℕ → Option (List ℕ)
  pub hmac_sha256 : List ℕ → List ℕ → List ℕ

-- LOOKAREMOTE_PAIRING_V1: in bytes.
abbrev pub pairing_hmac_context_bytes : List ℕ
pairing_hmac_context_bytes =
    76 ∷ 79 ∷ 79 ∷ 75 ∷ 65 ∷ 82 ∷ 69 ∷ 77 ∷ 79 ∷ 84 ∷ 69 ∷ 95 ∷ 80 ∷ 65 ∷ 73 ∷ 82 ∷ 73 ∷ 78 ∷ 71
    ∷ 95 ∷ 86 ∷ 49 ∷ 58 ∷ []

-- `private_key` is the random key.
unfoldable pub generate_client_key_pair : Crypto → List ℕ → ClientKeyPair
generate_client_key_pair crypto private_key =
    let public_key = crypto.get_public_key private_key in
    record {
      private_key = private_key;
      public_key = public_key;
      public_key_hex = bytes_to_hex public_key;
    }

-- A successful handshake.
pub record Handshake : Type 0 where
  pub response : PairResponsePayload
  pub client_key_pair : ClientKeyPair
  pub shared_secret : List ℕ

module _ (lower : Text → Text) (crypto : Crypto) where
  unfoldable pub derive_shared_secret : List ℕ → Text → Option (List ℕ)
  derive_shared_secret private_key host_key_hex = elim (hex_to_bytes lower host_key_hex) [
    | none ↦ none
    | some host_key ↦ crypto.get_shared_secret private_key host_key
  ]

  unfoldable pub compute_pairing_proof : List ℕ → Text → Option Text
  compute_pairing_proof shared_secret nonce_hex = elim (hex_to_bytes lower nonce_hex) [
    | none ↦ none
    | some nonce ↦
        some (bytes_to_hex (crypto.hmac_sha256 shared_secret (pairing_hmac_context_bytes ++ nonce)))
  ]

  -- What is made of the host's answer.
  unfoldable pub check_answer : ClientKeyPair → List ℕ → Answer → Outcome Handshake
  check_answer pair secret no_answer = thrown unreachable
  check_answer pair secret http_error = thrown refused
  check_answer pair secret (answered response) =
      if not (str_eq response.status "paired") || str_eq response.session_id ""
      then thrown rejected
      else succeeded
          (record { response = response; client_key_pair = pair; shared_secret = secret })

  -- `post` is the POST request to the pairing endpoint of a host and port.
  unfoldable pub perform_pairing_handshake :
      (Text → ℕ → PairRequestPayload → Answer) → PairingParams → ClientKeyPair → Outcome Handshake
  unfolding derive_shared_secret compute_pairing_proof check_answer
  perform_pairing_handshake post params pair =
      elim (derive_shared_secret pair.private_key params.host_pub_key) [
        | none ↦ thrown bad_key
        | some secret ↦ elim (compute_pairing_proof secret params.nonce) [
          | none ↦ thrown bad_key
          | some proof ↦ check_answer pair secret (
              post params.host params.port (record {
                client_pubkey = pair.public_key_hex;
                nonce = params.nonce;
                hmac_proof = proof;
              }))
        ]
      ]
