-- ===== src/Protocol/Decoder/Verdict.antt =====
-- Which byte sequences `decodePacket` accepts, and what it throws for every other one.
use lookauniversalremote.Prelude.{
  ℕ, zero, suc, ◌≤◌, ◌<◌, ◌≡◌, ◌≢◌, refl, sym, ap, ◌∙◌, arith, ◌==◌, ltb, Bool-cases, ==_iff, false,
  inl, inr, List, length, get_or, drop, Cells, from_cells, to_cells, ltb→lt, ltb→le, le→ltb, lt→ltb,
  if◌then◌else◌, pos, ◌+◌, ◌*◌,
}
use mathlib.Core.Path.{subst}
use lookauniversalremote.Protocol.Constants.{MessageType, type_code, total_size}
use lookauniversalremote.Protocol.Types.{
  Header, MessagePayload, motion, gamepad_full, touchpad, keyboard, media, mode_switch, heartbeat,
  haptic, slot_assignment, tv_command, tv_text_input, Packet,
}
use lookauniversalremote.Protocol.View.{DataView, TextCodec}
use lookauniversalremote.Protocol.Encoder.Frames.{payload_type}
use lookauniversalremote.Protocol.Reader.{
  Result, ok, throw, ◌>>=◌, array_buffer, too_short, bad_version, bad_size, unknown_type,
}
use lookauniversalremote.Protocol.Decoder.{
  decode_motion, decode_gamepad_full, decode_touchpad, decode_keyboard, decode_media,
  decode_mode_switch, decode_heartbeat, decode_haptic_event, decode_slot_assignment,
  decode_tv_command, decode_tv_text_input, decode_payload, decode_header, decode_view,
  decode_packet,
}

abbrev pub byte : List ℕ → ℕ → ℕ
byte bs i = get_or bs i 0

abbrev whole : List ℕ → DataView
whole bs = record { buffer = bs; byte_offset = 0; byte_length = length bs }

-- What the decoder may answer for the bytes `bs`: a size error for the type's frame size, or a
-- payload of that type, at exactly that size.
data PayloadVerdict (m : MessageType) (bs : List ℕ) : Result MessagePayload → Type 0 where
  bad : length bs ≢ total_size m → PayloadVerdict m bs (throw (bad_size (total_size m) (length bs)))
  good :
      (p : MessagePayload)
      → payload_type p ≡ m
      → length bs ≡ total_size m
      → PayloadVerdict m bs (ok p)

-- One case of the switch: it fails on any other size, and at its size reads only within the frame.
judge :
    (m : MessageType) (decode : DataView → Result MessagePayload)
    → ((v : DataView)
        → (v.byte_length == total_size m) ≡ false
        → decode v ≡ throw (bad_size (total_size m) v.byte_length))
    → ((c : Cells (total_size m)) (rest : List ℕ)
        → (p : MessagePayload) × (payload_type p ≡ m)
          × (decode (record {
            buffer = from_cells (total_size m) c rest;
            byte_offset = 0;
            byte_length = total_size m;
          })
              ≡ ok p))
    → (bs : List ℕ) → PayloadVerdict m bs (decode (whole bs))
judge m decode wrong right bs = elim (Bool-cases (length bs == total_size m)) [
  | inl e ↦
      let len : length bs ≡ total_size m = ground arith in
      let (c, split) = to_cells (total_size m) bs (omega arith) in
      let (p, same, done) = right c (drop (total_size m) bs) in
      let here : decode (whole bs) ≡ ok p =
        subst (λ n. decode (record { buffer = bs; byte_offset = 0; byte_length = n }) ≡ ok p)
          (sym len)
          (subst
            (λ xs.
              decode (record { buffer = xs; byte_offset = 0; byte_length = total_size m }) ≡ ok p)
            (sym split) done) in
      rw here (good p same len)
  | inr e ↦ rw (wrong (whole bs) e) (bad (ground arith))
]

judge_motion : (bs : List ℕ) → PayloadVerdict MessageType.motion bs (decode_motion (whole bs))
unfolding decode_motion
judge_motion bs =
    judge MessageType.motion (λ v. decode_motion v) (λ v h. rw h) (λ c rest. (_, refl, refl)) bs

judge_gamepad_full :
    (bs : List ℕ) → PayloadVerdict MessageType.gamepad_full bs (decode_gamepad_full (whole bs))
unfolding decode_gamepad_full
judge_gamepad_full bs =
    judge MessageType.gamepad_full (λ v. decode_gamepad_full v) (λ v h. rw h)
      (λ c rest. (_, refl, refl)) bs

judge_touchpad : (bs : List ℕ) → PayloadVerdict MessageType.touchpad bs (decode_touchpad (whole bs))
unfolding decode_touchpad
judge_touchpad bs =
    judge MessageType.touchpad (λ v. decode_touchpad v) (λ v h. rw h) (λ c rest. (_, refl, refl)) bs

judge_keyboard : (bs : List ℕ) → PayloadVerdict MessageType.keyboard bs (decode_keyboard (whole bs))
unfolding decode_keyboard
judge_keyboard bs =
    judge MessageType.keyboard (λ v. decode_keyboard v) (λ v h. rw h) (λ c rest. (_, refl, refl)) bs

judge_media : (bs : List ℕ) → PayloadVerdict MessageType.media bs (decode_media (whole bs))
unfolding decode_media
judge_media bs =
    judge MessageType.media (λ v. decode_media v) (λ v h. rw h) (λ c rest. (_, refl, refl)) bs

judge_mode_switch :
    (bs : List ℕ) → PayloadVerdict MessageType.mode_switch bs (decode_mode_switch (whole bs))
unfolding decode_mode_switch
judge_mode_switch bs =
    judge MessageType.mode_switch (λ v. decode_mode_switch v) (λ v h. rw h)
      (λ c rest. (_, refl, refl)) bs

judge_heartbeat :
    (bs : List ℕ) → PayloadVerdict MessageType.heartbeat bs (decode_heartbeat (whole bs))
unfolding decode_heartbeat
judge_heartbeat bs =
    judge MessageType.heartbeat (λ v. decode_heartbeat v) (λ v h. rw h) (λ c rest. (_, refl, refl))
      bs

judge_haptic_event :
    (bs : List ℕ) → PayloadVerdict MessageType.haptic_event bs (decode_haptic_event (whole bs))
unfolding decode_haptic_event
judge_haptic_event bs =
    judge MessageType.haptic_event (λ v. decode_haptic_event v) (λ v h. rw h)
      (λ c rest. (_, refl, refl)) bs

judge_slot_assignment :
    (codec : TextCodec) (bs : List ℕ)
    → PayloadVerdict MessageType.slot_assignment bs (decode_slot_assignment codec (whole bs))
unfolding decode_slot_assignment
judge_slot_assignment codec bs =
    judge MessageType.slot_assignment (λ v. decode_slot_assignment codec v) (λ v h. rw h)
      (λ c rest. (_, refl, refl)) bs

judge_tv_command :
    (bs : List ℕ) → PayloadVerdict MessageType.tv_command bs (decode_tv_command (whole bs))
unfolding decode_tv_command
judge_tv_command bs =
    judge MessageType.tv_command (λ v. decode_tv_command v) (λ v h. rw h)
      (λ c rest. (_, refl, refl)) bs

judge_tv_text_input :
    (codec : TextCodec) (bs : List ℕ)
    → PayloadVerdict MessageType.tv_text_input bs (decode_tv_text_input codec (whole bs))
unfolding decode_tv_text_input
judge_tv_text_input codec bs =
    judge MessageType.tv_text_input (λ v. decode_tv_text_input codec v) (λ v h. rw h)
      (λ c rest. (_, refl, refl)) bs

-- The same for the whole switch, at type byte `t`.
data SwitchVerdict (t : ℕ) (bs : List ℕ) : Result MessagePayload → Type 0 where
  unknown :
      ((p : MessagePayload) → type_code (payload_type p) ≢ t)
      → SwitchVerdict t bs (throw (unknown_type t))
  known :
      (m : MessageType) {r : Result MessagePayload}
      → type_code m ≡ t
      → PayloadVerdict m bs r
      → SwitchVerdict t bs r

-- The type bytes that no payload has.
known_codes :
    (p : MessagePayload)
    → let t = type_code (payload_type p) in (t ≢ 0) × (t ≢ 3) × (t ≢ 9) × (t ≤ 13)
known_codes (motion p) = omega arith
known_codes (gamepad_full p) = omega arith
known_codes (touchpad p) = omega arith
known_codes (keyboard p) = omega arith
known_codes (media p) = omega arith
known_codes (mode_switch p) = omega arith
known_codes (heartbeat p) = omega arith
known_codes (haptic p) = omega arith
known_codes (slot_assignment p) = omega arith
known_codes (tv_command p) = omega arith
known_codes (tv_text_input p) = omega arith

beyond : (t k : ℕ) → k < t → (t == k) ≡ false
beyond t k h = ground arith

decode_payload-beyond :
    (codec : TextCodec) (t : ℕ) (v : DataView)
    → 13 < t
    → decode_payload codec t v ≡ throw (unknown_type t)
unfolding decode_payload
decode_payload-beyond codec t v h =
    rw
      (
        beyond t 1 (omega arith),
        beyond t 2 (omega arith),
        beyond t 4 (omega arith),
        beyond t 5 (omega arith),
        beyond t 6 (omega arith),
        beyond t 7 (omega arith),
        beyond t 8 (omega arith),
        beyond t 10 (omega arith),
        beyond t 11 (omega arith),
        beyond t 12 (omega arith),
        beyond t 13 (omega arith),
      )
      refl

judge_payload :
    (codec : TextCodec) (t : ℕ) (bs : List ℕ)
    → SwitchVerdict t bs (decode_payload codec t (whole bs))
unfolding decode_payload
judge_payload codec zero bs = unknown (λ p. omega (arith, known_codes p))
judge_payload codec (suc zero) bs = known MessageType.motion refl (judge_motion bs)
judge_payload codec (suc (suc zero)) bs =
    known MessageType.gamepad_full refl (judge_gamepad_full bs)
judge_payload codec (suc (suc (suc zero))) bs = unknown (λ p. omega (arith, known_codes p))
judge_payload codec (suc (suc (suc (suc zero)))) bs =
    known MessageType.touchpad refl (judge_touchpad bs)
judge_payload codec (suc (suc (suc (suc (suc zero))))) bs =
    known MessageType.keyboard refl (judge_keyboard bs)
judge_payload codec (suc (suc (suc (suc (suc (suc zero)))))) bs =
    known MessageType.media refl (judge_media bs)
judge_payload codec (suc (suc (suc (suc (suc (suc (suc zero))))))) bs =
    known MessageType.mode_switch refl (judge_mode_switch bs)
judge_payload codec (suc (suc (suc (suc (suc (suc (suc (suc zero)))))))) bs =
    known MessageType.heartbeat refl (judge_heartbeat bs)
judge_payload codec (suc (suc (suc (suc (suc (suc (suc (suc (suc zero))))))))) bs =
    unknown (λ p. omega (arith, known_codes p))
judge_payload codec (suc (suc (suc (suc (suc (suc (suc (suc (suc (suc zero)))))))))) bs =
    known MessageType.haptic_event refl (judge_haptic_event bs)
judge_payload codec (suc (suc (suc (suc (suc (suc (suc (suc (suc (suc (suc zero))))))))))) bs =
    known MessageType.slot_assignment refl (judge_slot_assignment codec bs)
judge_payload codec (suc (suc (suc (suc (suc (suc (suc (suc (suc (suc (suc (suc zero))))))))))))
      bs =
    known MessageType.tv_command refl (judge_tv_command bs)
judge_payload codec
      (suc (suc (suc (suc (suc (suc (suc (suc (suc (suc (suc (suc (suc zero))))))))))))) bs =
    known MessageType.tv_text_input refl (judge_tv_text_input codec bs)
judge_payload codec
      (suc (suc (suc (suc (suc (suc (suc (suc (suc (suc (suc (suc (suc (suc t)))))))))))))) bs =
    rw
      (decode_payload-beyond codec
        (suc (suc (suc (suc (suc (suc (suc (suc (suc (suc (suc (suc (suc (suc t))))))))))))))
        (whole bs) (omega arith))
      (unknown (λ p. omega (arith, known_codes p)))

abbrev header_of : List ℕ → Header
header_of bs = record {
  version = byte bs 0;
  type = byte bs 1;
  flags = pos (byte bs 2);
  sequence = pos (byte bs 3 + 256 * byte bs 4);
}

-- The header check on five or more bytes.
decode_header-long :
    (bs : List ℕ)
    → 5 ≤ length bs
    → decode_header (whole bs)
      ≡ (if byte bs 0 == 1 then ok (header_of bs) else throw (bad_version (byte bs 0)))
unfolding decode_header
decode_header-long bs h =
    let (c, split) = to_cells 5 bs h in
    subst
      (λ xs.
        decode_header (record { buffer = xs; byte_offset = 0; byte_length = length bs })
        ≡ (if byte xs 0 == 1 then ok (header_of xs) else throw (bad_version (byte xs 0))))
      (sym split)
      (rw
        (
          le→ltb (length bs) 5 h,
          lt→ltb 0 (length bs) (omega arith),
          lt→ltb 1 (length bs) (omega arith),
          lt→ltb 2 (length bs) (omega arith),
          lt→ltb 3 (length bs) (omega arith),
          lt→ltb 4 (length bs) (omega arith),
        )
        refl)

-- The answers of `decodePacket` on the bytes `bs`, one constructor for each, with the condition
-- under which it is given.
pub data Verdict (bs : List ℕ) : Result Packet → Type 0 where
  short : length bs < 5 → Verdict bs (throw (too_short (length bs)))
  version : 5 ≤ length bs → byte bs 0 ≢ 1 → Verdict bs (throw (bad_version (byte bs 0)))
  unknown_byte :
      5 ≤ length bs
      → byte bs 0 ≡ 1
      → ((p : MessagePayload) → type_code (payload_type p) ≢ byte bs 1)
      → Verdict bs (throw (unknown_type (byte bs 1)))
  size :
      (m : MessageType)
      → 5 ≤ length bs
      → byte bs 0 ≡ 1
      → type_code m ≡ byte bs 1
      → length bs ≢ total_size m
      → Verdict bs (throw (bad_size (total_size m) (length bs)))
  accepted :
      (p : Packet)
      → p.header ≡ record {
        version = 1;
        type = type_code (payload_type p.payload);
        flags = pos (byte bs 2);
        sequence = pos (byte bs 3 + 256 * byte bs 4);
      }
      → byte bs 0 ≡ 1
      → byte bs 1 ≡ type_code (payload_type p.payload)
      → length bs ≡ total_size (payload_type p.payload)
      → Verdict bs (ok p)

judge_known :
    (bs : List ℕ) {r : Result MessagePayload}
    → 5 ≤ length bs
    → byte bs 0 ≡ 1
    → SwitchVerdict (byte bs 1) bs r
    → Verdict bs (r >>= λ payload. ok (record { header = header_of bs; payload = payload }))
judge_known bs long one (unknown none_has) = unknown_byte long one none_has
judge_known bs long one (known m code (bad wrong)) = size m long one code wrong
judge_known bs long one (known m code (good p same len)) =
    let type_byte : byte bs 1 ≡ type_code (payload_type p) = sym code ∙ ap type_code (sym same) in
    accepted _ (rw (one, type_byte)) one type_byte (rw same len)

judge_long :
    (codec : TextCodec) (bs : List ℕ) → 5 ≤ length bs → Verdict bs (decode_view codec (whole bs))
unfolding decode_view
judge_long codec bs long = elim (Bool-cases (byte bs 0 == 1)) [
  | inl e ↦
      rw (decode_header-long bs long, e)
        (judge_known bs long ((==_iff _ _).0 e) (judge_payload codec (byte bs 1) bs))
  | inr e ↦ rw (decode_header-long bs long, e) (version long (ground arith))
]

-- On every sequence of bytes `decodePacket` either returns a packet or throws one of its own four
-- errors, never a RangeError: it refuses fewer than 5 bytes, then a version byte other than 1, then
-- a type byte that no payload has, then a length other than the type's frame size; and every packet
-- it returns has the type of the type byte and the flags and sequence number of bytes 2 to 4.
pub decode_packet-Verdict :
    (codec : TextCodec) (bs : List ℕ) → Verdict bs (decode_packet codec (array_buffer bs))
unfolding decode_packet
decode_packet-Verdict codec bs = elim (Bool-cases (ltb (length bs) 5)) [
  | inl e ↦ rw e (short (ltb→lt _ _ e))
  | inr e ↦ judge_long codec bs (ltb→le (length bs) 5 e)
]
