-- ===== src/Context/Switching.antt =====
-- Mode switches between the client and its host.
use lookauniversalremote.Prelude.{
  ℕ, ◌+◌, ◌≡◌, refl, ap, ap₂, ◌∙◌, Bool, true, false, ◌||◌, ℤ, pos, if◌then◌else◌, List, [], ◌∷◌,
  ◌++◌, some, word8, word32,
}
use lookauniversalremote.Protocol.Constants.{
  TargetMode, mode_code, is_manual_override, is_enforced_by_host,
}
use lookauniversalremote.Protocol.Types.{ModeSwitchPayload, MessagePayload}
use lookauniversalremote.Protocol.View.{TextCodec}
use lookauniversalremote.Protocol.Encoder.Frames.{frame}
use lookauniversalremote.Protocol.Decoder.RoundTrip.{decode-frame}
use lookauniversalremote.Bridge.{Bridge}
use lookauniversalremote.Bridge.Send.{IsReady, Request, after}
use lookauniversalremote.Bridge.Send.Stream.{request_frame, send_mode_switch-frame, keep}
use lookauniversalremote.Context.{
  InputMode, input_mode_to_target_mode, target_mode_to_input_mode, SmartContext, handle_packet,
  on_mode_switch, enforced, select_mode,
}
use lookauniversalremote.Context.Modes.{
  on_result, on_frame, follows, on_mode_switch-active, to_input,
}

abbrev pub flag_bits : Bool → Bool → ℕ
flag_bits manual enforce = elim enforce [
  | true ↦ (if manual then is_manual_override else 0) + is_enforced_by_host
  | false ↦ if manual then is_manual_override else 0
]

-- The payload of a switch to `t` with the two flags.
abbrev pub order : TargetMode → Bool → Bool → ModeSwitchPayload
order t manual enforce = record {
  target_mode = pos (mode_code t);
  flags = pos (flag_bits manual enforce);
}

word8_mode : (t : TargetMode) → word8 (pos (mode_code t)) ≡ mode_code t
unfolding word8
word8_mode TargetMode.gamepad = refl
word8_mode _ = refl

-- The payload as it is decoded.
abbrev received : TargetMode → Bool → Bool → ModeSwitchPayload
received t manual enforce =
    let p = order t manual enforce in
    record { target_mode = pos (word8 p.target_mode); flags = pos (word8 p.flags) }

received-enforced :
    (t : TargetMode) (manual enforce : Bool) → enforced (received t manual enforce) ≡ enforce
unfolding word8 word32 enforced
received-enforced t true true = refl
received-enforced t true false = refl
received-enforced t false true = refl
received-enforced t false false = refl

received-mode :
    (m : InputMode) (manual enforce : Bool)
    → target_mode_to_input_mode (received (input_mode_to_target_mode m) manual enforce).target_mode
      ≡ m
received-mode m manual enforce =
    ap (λ n. target_mode_to_input_mode (pos n)) (word8_mode (input_mode_to_target_mode m))
    ∙ to_input m

on_frame-on_mode_switch :
    (codec : TextCodec) (now : ℕ) (seq f : ℤ) (t : TargetMode) (manual enforce : Bool)
    (s : SmartContext)
    → on_frame codec now (frame codec seq f (MessagePayload.mode_switch (order t manual enforce))) s
      ≡ on_mode_switch now (received t manual enforce) s
unfolding handle_packet
on_frame-on_mode_switch codec now seq f t manual enforce s =
    ap (λ r. on_result now r s)
      (decode-frame codec seq f (MessagePayload.mode_switch (order t manual enforce)))

-- A mode switch frame, of any sequence number and header flags, moves the client to the mode that it
-- names exactly if the host enforces it, or automatic switching is on and the manual lock is off;
-- otherwise the client stays where it was. The mode is noted as the last detected one in any case.
pub on_frame-mode_switch :
    (codec : TextCodec) (now : ℕ) (seq f : ℤ) (m : InputMode) (manual enforce : Bool)
    (s : SmartContext)
    → let s' =
        on_frame codec now
          (frame codec seq f
            (MessagePayload.mode_switch (order (input_mode_to_target_mode m) manual enforce)))
          s in
      (s'.active_input_mode ≡ (if enforce || follows s then m else s.active_input_mode))
      × (s'.last_detected_mode ≡ m)
on_frame-mode_switch codec now seq f m manual enforce s =
    let p = received (input_mode_to_target_mode m) manual enforce in
    let same =
      on_frame-on_mode_switch codec now seq f (input_mode_to_target_mode m) manual enforce s in
    let active = on_mode_switch-active now p s in
    let mode = received-mode m manual enforce in
    (
      ap (λ t. t.active_input_mode) same
          ∙ active.0
          ∙ ap₂ (λ e k. if e || follows s then k else s.active_input_mode)
              (received-enforced (input_mode_to_target_mode m) manual enforce) mode,
      ap (λ t. t.last_detected_mode) same ∙ active.1 ∙ mode,
    )

module _ (codec : TextCodec) where
  -- A client that selects a mode, over a usable bridge, is in the mode and has sent one frame. A
  -- client that receives this frame moves to the mode if it switches automatically and is not
  -- locked, and stays where it was otherwise.
  pub select_mode-on_frame :
      (m : InputMode) (is_manual : Bool) (s : SmartContext) (b : Bridge) (frames : List (List ℕ))
      → s.bridge ≡ some b
      → IsReady b
      → (s' : SmartContext) × (bytes : List ℕ) × (select_mode codec keep m is_manual s frames
          ≡ some (s', frames ++ bytes ∷ []))
        × (s'.active_input_mode ≡ m)
        × ((now : ℕ) (other : SmartContext)
            → (on_frame codec now bytes other).active_input_mode
              ≡ (if follows other then m else other.active_input_mode))
  unfolding select_mode
  select_mode-on_frame m is_manual s b frames e ready =
      let p = order (input_mode_to_target_mode m) is_manual false in
      let bytes = request_frame codec keep b (Request.mode_switch p (pos 0)) in
      (
        record s { active_input_mode = m; bridge = some (after codec keep b bytes) },
        bytes,
        rw (e, send_mode_switch-frame codec keep b frames ready p (pos 0), select_mode) refl,
        refl,
        λ now other.
            (on_frame-mode_switch codec now (pos b.sequence_gen.current) (pos 0) m is_manual false
              other).0,
      )
