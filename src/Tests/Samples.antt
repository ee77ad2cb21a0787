-- ===== src/Tests/Samples.antt =====
-- Inputs that several tests share, and a text codec that meets the assumptions on `TextEncoder` and
-- `TextDecoder`: it cuts each code unit to a byte, which is right for ASCII.
use lookauniversalremote.Prelude.{
  ℕ, ◌<◌, ◌%◌, ◌≡◌, refl, ap₂, arith, List, [], ◌∷◌, map, All, pos, negsuc, true,
}
use lookauniversalremote.Protocol.Types.{Text, MessagePayload, Packet, TouchpadPayload}
use lookauniversalremote.Protocol.View.{IsAscii, TextCodec}
use lookauniversalremote.Protocol.Encoder.{default_encoder}
use lookauniversalremote.Bridge.{Bridge}
use lookauniversalremote.Bridge.Send.{IsReady}

abbrev cut : Text → List ℕ
cut = map (λ c. c % 256)

pub cut-bytes : (s : Text) → All (λ c. c < 256) (cut s)
cut-bytes [] = tt
cut-bytes (c ∷ s) = (omega arith, cut-bytes s)

pub cut-ascii : (s : Text) → IsAscii s → cut s ≡ s
cut-ascii [] h = refl
cut-ascii (c ∷ s) h = let same : c % 256 ≡ c = omega arith in ap₂ ◌∷◌ same (cut-ascii s h.1)

abbrev pub ascii_codec : TextCodec
ascii_codec = record {
  encode = cut;
  decode = λ bytes. bytes;
  encode_bytes = cut-bytes;
  encode_ascii = cut-ascii;
  decode_ascii = λ s h. refl;
}

abbrev pub move : TouchpadPayload
move = record {
  dx = negsuc 299;
  dy = pos 12;
  scroll_v = negsuc 0;
  scroll_h = pos 0;
  buttons_mask = pos 1;
}

abbrev pub move_packet : Packet
move_packet = record {
  header = record { version = 1; type = 4; flags = pos 1; sequence = pos 65535 };
  payload = MessagePayload.touchpad move;
}

abbrev pub bridge : Bridge
bridge = record {
  encoder = default_encoder;
  sequence_gen = record { current = 65535 };
  packet_handlers = 7 ∷ 8 ∷ [];
  rtt_handlers = 9 ∷ [];
  slot_handlers = [];
  bound = true;
}

pub bridge-IsReady : IsReady bridge
bridge-IsReady = record { room = omega arith; counter = omega arith }
