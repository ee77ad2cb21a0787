-- ===== src/Protocol/Encoder/Frames.antt =====
-- The wire layout of each message, written field by field as a list of bytes, with no buffer and no
-- offsets. For the messages that docs/PROTOCOL.md has a table of it is that table, but for the last
-- two bytes of MSG_GAMEPAD_FULL: there the document has one reserved field, the code the player's
-- index and a reserved byte. Mode switches, slot assignments, TV commands and TV texts have no table;
-- theirs follow types.ts and encoder.ts. `Laws` compares the encoder with these frames.
use lookauniversalremote.Prelude.{
  ℕ, zero, suc, ◌+◌, ◌%◌, ◌/◌, ◌<◌, ◌≡◌, refl, ap₂, arith, min, ℤ, pos, List, [], ◌∷◌, ◌++◌, length,
  get_or, drop, All, All-get_or, word8, word8-pos, word16, word32, ◌≤◌,
}
use native.Mathlib.Numerals.{add-one}
use lookauniversalremote.Protocol.Constants.{MessageType, type_code}
use lookauniversalremote.Protocol.Types.{
  MessagePayload, motion, gamepad_full, touchpad, keyboard, media, mode_switch, heartbeat, haptic,
  slot_assignment, tv_command, tv_text_input,
}
use lookauniversalremote.Protocol.View.{TextCodec}
use lookauniversalremote.Protocol.Encoder.{or_zero, name_or_default, padded_byte}

abbrev pub le16 : ℕ → List ℕ
le16 w = w % 256 ∷ w / 256 ∷ []

abbrev pub le32 : ℕ → List ℕ
le32 w = le16 (w % 65536) ++ le16 (w / 65536)

-- Exactly `n` bytes: cut off, or filled up with zeros.
abbrev pub pad : ℕ → List ℕ → List ℕ
pad zero bs = []
pad (suc n) [] = 0 ∷ pad n []
pad (suc n) (b ∷ bs) = b ∷ pad n bs

abbrev pub header_bytes : MessageType → ℤ → ℤ → List ℕ
header_bytes type sequence flags = 1 ∷ type_code type ∷ word8 flags ∷ le16 (word16 sequence)

abbrev pub payload_type : MessagePayload → MessageType
payload_type (motion p) = MessageType.motion
payload_type (gamepad_full p) = MessageType.gamepad_full
payload_type (touchpad p) = MessageType.touchpad
payload_type (keyboard p) = MessageType.keyboard
payload_type (media p) = MessageType.media
payload_type (mode_switch p) = MessageType.mode_switch
payload_type (heartbeat p) = MessageType.heartbeat
payload_type (haptic p) = MessageType.haptic_event
payload_type (slot_assignment p) = MessageType.slot_assignment
payload_type (tv_command p) = MessageType.tv_command
payload_type (tv_text_input p) = MessageType.tv_text_input

module _ (codec : TextCodec) where
  abbrev pub payload_bytes : MessagePayload → List ℕ
  payload_bytes (motion p) =
      le16 (word16 p.gyro_yaw)
      ++ (le16 (word16 p.gyro_pitch)
          ++ (le16 (word16 p.gyro_roll)
              ++ (le16 (word16 p.accel_x)
                  ++ (le16 (word16 p.accel_y)
                      ++ (le16 (word16 p.accel_z) ++ le32 (word32 p.timestamp_us))))))
  payload_bytes (gamepad_full p) =
      le16 (word16 p.buttons)
      ++ (le16 (word16 p.stick_lx)
          ++ (le16 (word16 p.stick_ly)
              ++ (le16 (word16 p.stick_rx)
                  ++ (le16 (word16 p.stick_ry)
                      ++ (word8 p.trigger_l
                          ∷ word8 p.trigger_r
                          ∷ word8 (or_zero p.player_index)
                          ∷ word8 (or_zero p.reserved)
                          ∷ [])))))
  payload_bytes (touchpad p) =
      le16 (word16 p.dx)
      ++ (le16 (word16 p.dy) ++ (word8 p.scroll_v ∷ word8 p.scroll_h ∷ word8 p.buttons_mask ∷ []))
  payload_bytes (keyboard p) = le16 (word16 p.key_code) ++ (word8 p.state ∷ word8 p.modifiers ∷ [])
  payload_bytes (media p) = word8 p.media_action ∷ word8 (or_zero p.reserved) ∷ []
  payload_bytes (mode_switch p) = word8 p.target_mode ∷ word8 p.flags ∷ []
  payload_bytes (heartbeat p) = le32 (word32 p.client_epoch_ms) ++ le32 (word32 p.echo_token)
  payload_bytes (haptic p) = word8 p.motor_index ∷ word8 p.intensity ∷ le16 (word16 p.duration_ms)
  payload_bytes (slot_assignment p) =
      word8 p.player_index
      ∷ (le16 (word16 p.player_color_rgb565)
          ++ (word8 p.battery_level ∷ pad 16 (codec.encode (name_or_default p.host_name))))
  payload_bytes (tv_command p) =
      le16 (word16 p.command_code) ++ (word8 p.target_device ∷ word8 (or_zero p.flags) ∷ [])
  payload_bytes (tv_text_input p) =
      min (length (codec.encode p.text)) 31 ∷ pad 31 (codec.encode p.text)

  abbrev pub frame : ℤ → ℤ → MessagePayload → List ℕ
  frame sequence flags payload =
      header_bytes (payload_type payload) sequence flags ++ payload_bytes payload

-- The bytes that `n` rounds of the encoder's byte loop store, from index `i`.
abbrev pub loop_bytes : ℕ → List ℕ → ℕ → ℕ → List ℕ
loop_bytes len bytes zero i = []
loop_bytes len bytes (suc n) i =
    word8 (pos (padded_byte len bytes i)) ∷ loop_bytes len bytes n (i + 1)

pad-suc : (n : ℕ) (bs : List ℕ) → pad (suc n) bs ≡ get_or bs 0 0 ∷ pad n (drop 1 bs)
pad-suc n [] = refl
pad-suc n (b ∷ bs) = refl

get_or-drop : (i : ℕ) (bs : List ℕ) → get_or (drop i bs) 0 0 ≡ get_or bs i 0
get_or-drop zero bs = refl
get_or-drop (suc i) [] = refl
get_or-drop (suc i) (b ∷ bs) = get_or-drop i bs

drop_one-drop : (i : ℕ) (bs : List ℕ) → drop 1 (drop i bs) ≡ drop (suc i) bs
drop_one-drop zero bs = refl
drop_one-drop (suc i) [] = refl
drop_one-drop (suc i) (b ∷ bs) = drop_one-drop i bs

drop_one-drop_next : (i : ℕ) (bs : List ℕ) → drop 1 (drop i bs) ≡ drop (i + 1) bs
drop_one-drop_next i bs = rw add-one (drop_one-drop i bs)

get_or-end : (bs : List ℕ) (i : ℕ) → length bs ≤ i → get_or bs i 0 ≡ 0
get_or-end [] i h = refl
get_or-end (b ∷ bs) zero h = absurd (omega arith)
get_or-end (b ∷ bs) (suc i) h = get_or-end bs i (omega arith)

-- What a loop stores is the text itself, then zeros, as far as its bound agrees with the text.
abbrev pub AgreesBelow : ℕ → ℕ → List ℕ → Type 0
AgreesBelow limit len bytes = (j : ℕ) → j < limit → padded_byte len bytes j ≡ get_or bytes j 0

pub padded_byte-length : (limit : ℕ) (bytes : List ℕ) → AgreesBelow limit (length bytes) bytes
padded_byte-length limit bytes j h = ground (arith, get_or-end bytes j)

pub padded_byte-min :
    (limit : ℕ) (bytes : List ℕ) → AgreesBelow limit (min (length bytes) limit) bytes
padded_byte-min limit bytes j h = ground (arith, get_or-end bytes j)

pub loop_bytes-pad :
    (len limit : ℕ) (bytes : List ℕ)
    → AgreesBelow limit len bytes
    → All (λ b. b < 256) bytes
    → (n i : ℕ) → i + n ≤ limit
    → loop_bytes len bytes n i ≡ pad n (drop i bytes)
loop_bytes-pad len limit bytes agrees small zero i h = refl
loop_bytes-pad len limit bytes agrees small (suc n) i h =
    rw (pad-suc n (drop i bytes), get_or-drop i bytes, drop_one-drop_next i bytes)
      (ap₂ ◌∷◌ first (loop_bytes-pad len limit bytes agrees small n (i + 1) (omega arith)))
  where
    first : word8 (pos (padded_byte len bytes i)) ≡ get_or bytes i 0
    first =
        rw (agrees i (omega arith))
          (word8-pos _ (All-get_or (λ b. b < 256) bytes i 0 small (omega arith)))
