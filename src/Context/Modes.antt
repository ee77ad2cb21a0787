-- ===== src/Context/Modes.antt =====
-- The modes of the client and of the protocol, and a mode that one client selects on another.
use lookauniversalremote.Prelude.{
  ℕ, ◌+◌, ◌||◌, sym, ◌≡◌, refl, ap, ◌∙◌, arith, Bool, false, ◌&&◌, not, pos, if◌then◌else◌, List,
}
use lookauniversalremote.Protocol.Constants.{TargetMode, mode_code}
use lookauniversalremote.Protocol.Types.{ModeSwitchPayload, Packet}
use lookauniversalremote.Protocol.View.{TextCodec}
use lookauniversalremote.Protocol.Reader.{Result, ok, throw, array_buffer}
use lookauniversalremote.Protocol.Decoder.{decode_packet}
use lookauniversalremote.Context.{
  InputMode, tv, target_mode_to_input_mode, input_mode_to_target_mode, is_other_mode, SmartContext,
  handle_packet, on_mode_switch, enforced, trigger_toast,
}

pub to_input :
    (m : InputMode) → target_mode_to_input_mode (pos (mode_code (input_mode_to_target_mode m))) ≡ m
unfolding target_mode_to_input_mode input_mode_to_target_mode
to_input tv = refl
to_input _ = refl

pub to_target :
    (t : TargetMode) → input_mode_to_target_mode (target_mode_to_input_mode (pos (mode_code t))) ≡ t
unfolding target_mode_to_input_mode input_mode_to_target_mode
to_target TargetMode.gamepad = refl
to_target _ = refl

-- The two translations between the modes of the client and those of the protocol are inverse to
-- each other, through the numbers on the wire; a number from 6 on is taken for the TV remote.
pub target_mode-input_mode :
    (m : InputMode) (t : TargetMode) (n : ℕ)
    → (target_mode_to_input_mode (pos (mode_code (input_mode_to_target_mode m))) ≡ m)
      × (input_mode_to_target_mode (target_mode_to_input_mode (pos (mode_code t))) ≡ t)
      × (target_mode_to_input_mode (pos (n + 6)) ≡ tv)
unfolding target_mode_to_input_mode
target_mode-input_mode m t n = (to_input m, to_target t, ground arith)

-- A client that receives a frame: a packet reaches the listener, an error is only logged.
abbrev pub on_result : ℕ → Result Packet → SmartContext → SmartContext
on_result now (ok packet) s = handle_packet now packet s
on_result now (throw e) s = s

abbrev pub on_frame : TextCodec → ℕ → List ℕ → SmartContext → SmartContext
on_frame codec now bytes s = on_result now (decode_packet codec (array_buffer bytes)) s

-- A client that follows the host: it switches when told, and is not locked.
abbrev pub follows : SmartContext → Bool
follows s = s.settings.auto_switch_enabled && not s.settings.manual_override_lock

is_other_mode-mode : (a b : InputMode) → is_other_mode a b ≡ false → a ≡ b
unfolding is_other_mode input_mode_to_target_mode
is_other_mode-mode a b h =
    let same : mode_code (input_mode_to_target_mode a) ≡ mode_code (input_mode_to_target_mode b) =
      ground arith in
    sym (to_input a) ∙ ap (λ n. target_mode_to_input_mode (pos n)) same ∙ to_input b

trigger_toast-active :
    (now : ℕ) (m : InputMode) (e : Bool) (s : SmartContext)
    → ((trigger_toast now m e s).active_input_mode ≡ s.active_input_mode)
      × ((trigger_toast now m e s).last_detected_mode ≡ s.last_detected_mode)
unfolding trigger_toast
trigger_toast-active now m e s = ground arith

-- Where the switch ends: in the named mode if the host enforces it or the client follows, else
-- where the client was.
pub on_mode_switch-active :
    (now : ℕ) (p : ModeSwitchPayload) (s : SmartContext)
    → ((on_mode_switch now p s).active_input_mode ≡ (
        if enforced p || follows s
        then target_mode_to_input_mode p.target_mode
        else s.active_input_mode))
      × ((on_mode_switch now p s).last_detected_mode ≡ target_mode_to_input_mode p.target_mode)
unfolding on_mode_switch
on_mode_switch-active now p s =
    let m = target_mode_to_input_mode p.target_mode in
    let t = record s { last_detected_mode = m; active_input_mode = m } in
    ground
      (arith, is_other_mode-mode m s.active_input_mode, trigger_toast-active now m (enforced p) t)
