-- ===== src/Context.antt =====
-- apps/web-client/src/features/context/useSmartContext.ts: switching the input mode.
pub mod Modes
pub mod Switching
pub mod Toasts
pub mod Locked
use Prim.Native.String.{String}
use lookauniversalremote.Prelude.{
  ℕ, suc, ◌+◌, ◌==◌, if◌then◌else◌, Bool, true, false, not, ◌&&◌, ◌||◌, ℤ, pos, negsuc, bit_and,
  word32, List, [], ◌∷◌, ◌++◌, Option, none, some,
}
use lookauniversalremote.Protocol.Constants.{
  MessageType, type_code, TargetMode, mode_code, is_manual_override, is_enforced_by_host,
}
use lookauniversalremote.Protocol.Types.{ModeSwitchPayload, MessagePayload, mode_switch, Packet}
use lookauniversalremote.Protocol.View.{TextCodec}
use lookauniversalremote.Bridge.{Bridge, send_mode_switch}
use lookauniversalremote.Bridge.Incoming.{contains, delete}

pub data InputMode : Type 0 where
  tv airmouse gamepad trackpad keyboard media : InputMode

-- A number that is no target mode gives the TV remote.
unfoldable pub target_mode_to_input_mode : ℤ → InputMode
target_mode_to_input_mode (pos n) =
    if n == mode_code TargetMode.tv_remote
    then tv
    else if n == mode_code TargetMode.air_mouse
    then airmouse
    else if n == mode_code TargetMode.gamepad
    then gamepad
    else if n == mode_code TargetMode.trackpad
    then trackpad
    else if n == mode_code TargetMode.keyboard
    then keyboard
    else if n == mode_code TargetMode.media_remote
    then media
    else tv
target_mode_to_input_mode (negsuc n) = tv

unfoldable pub input_mode_to_target_mode : InputMode → TargetMode
input_mode_to_target_mode tv = TargetMode.tv_remote
input_mode_to_target_mode airmouse = TargetMode.air_mouse
input_mode_to_target_mode gamepad = TargetMode.gamepad
input_mode_to_target_mode trackpad = TargetMode.trackpad
input_mode_to_target_mode keyboard = TargetMode.keyboard
input_mode_to_target_mode media = TargetMode.media_remote

-- `a !== b`.
unfoldable pub is_other_mode : InputMode → InputMode → Bool
unfolding input_mode_to_target_mode
is_other_mode a b =
    not (mode_code (input_mode_to_target_mode a) == mode_code (input_mode_to_target_mode b))

pub record DisplayMeta : Type 0 where
  pub title : String
  pub subtitle : String

unfoldable pub get_mode_display_meta : InputMode → DisplayMeta
get_mode_display_meta tv = record {
  title = "UNIVERSAL SMART TV REMOTE";
  subtitle = "Auto-switched for Smart TV, Channel & Navigation controls";
}
get_mode_display_meta airmouse = record {
  title = "AIR MOUSE MAGIC POINTER";
  subtitle = "Gyroscope pointing enabled for Smart TV & Desktop";
}
get_mode_display_meta gamepad = record {
  title = "GAMEPAD MODE DETECTED";
  subtitle = "Auto-switched for gaming & emulator controls";
}
get_mode_display_meta media = record {
  title = "MEDIA REMOTE DETECTED";
  subtitle = "Auto-switched for audio/video media player";
}
get_mode_display_meta keyboard = record {
  title = "KEYBOARD DECK DETECTED";
  subtitle = "Auto-switched for editor & terminal typing";
}
get_mode_display_meta trackpad = record {
  title = "TRACKPAD SURFACE DETECTED";
  subtitle = "Auto-switched for general desktop navigation";
}

pub record ContextToastData : Type 0 where
  pub id : ℕ
  pub mode : InputMode
  pub title : String
  pub subtitle : String
  pub is_enforced : Bool
  pub timestamp : ℕ

-- The settings that the hook reads.
pub record ContextSettings : Type 0 where
  pub auto_switch_enabled : Bool
  pub manual_override_lock : Bool
  pub smart_context_toast_enabled : Bool

-- The hook's state and its props, whose setters write them; the callbacks are taken to have been
-- renewed for the props as they stand. `timers` are the pending timeouts of the browser, by their
-- ids; `next_timer` is the id of the next one; `clicks` counts the calls of `haptics.buttonClick`.
pub record SmartContext : Type 0 where
  pub bridge : Option Bridge
  pub settings : ContextSettings
  pub active_input_mode : InputMode
  pub last_detected_mode : InputMode
  pub toast : Option ContextToastData
  pub toast_timeout : Option ℕ
  pub timers : List ℕ
  pub next_timer : ℕ
  pub clicks : ℕ

-- `if (ref.current) clearTimeout(ref.current)`.
unfoldable pub clear_timeout : Option ℕ → List ℕ → List ℕ
clear_timeout none timers = timers
clear_timeout (some t) timers = delete t timers

unfoldable pub dismiss_toast : SmartContext → SmartContext
unfolding clear_timeout
dismiss_toast s = record s {
  timers = clear_timeout s.toast_timeout s.timers;
  toast_timeout = none;
  toast = none;
}

unfoldable pub trigger_toast : ℕ → InputMode → Bool → SmartContext → SmartContext
unfolding clear_timeout get_mode_display_meta
trigger_toast now mode is_enforced s =
    if not s.settings.smart_context_toast_enabled
    then s
    else let meta = get_mode_display_meta mode in
      record s {
        toast = some (record {
          id = now;
          mode = mode;
          title = meta.title;
          subtitle = meta.subtitle;
          is_enforced = is_enforced;
          timestamp = now;
        });
        timers = clear_timeout s.toast_timeout s.timers ++ s.next_timer ∷ [];
        toast_timeout = some s.next_timer;
        next_timer = suc s.next_timer;
      }

-- The callback of the timeout `t`, which the browser runs if it is pending.
unfoldable pub fire_timeout : ℕ → SmartContext → SmartContext
fire_timeout t s =
    if contains s.timers t
    then record s { timers = delete t s.timers; toast = none; toast_timeout = none }
    else s

-- `(payload.flags & ModeSwitchFlags.IS_ENFORCED_BY_HOST) !== 0`.
unfoldable pub enforced : ModeSwitchPayload → Bool
enforced payload = not (bit_and (word32 payload.flags) is_enforced_by_host == 0)

-- The switch of modes in the listener.
unfoldable pub on_mode_switch : ℕ → ModeSwitchPayload → SmartContext → SmartContext
unfolding enforced target_mode_to_input_mode is_other_mode trigger_toast
on_mode_switch now payload s =
    let new_mode = target_mode_to_input_mode payload.target_mode in
    let is_enforced = enforced payload in
    let t = record s { last_detected_mode = new_mode } in
    let can_auto_switch =
      is_enforced || (s.settings.auto_switch_enabled && not s.settings.manual_override_lock) in
    if can_auto_switch
    then (if is_other_mode new_mode s.active_input_mode
        then (let u =
              trigger_toast now new_mode is_enforced (record t { active_input_mode = new_mode }) in
            record u { clicks = suc u.clicks })
        else t)
    else t

-- The packet listener that the effect subscribes to the bridge. A header of this type comes with
-- such a payload from the decoder.
unfoldable pub handle_packet : ℕ → Packet → SmartContext → SmartContext
unfolding on_mode_switch
handle_packet now packet s =
    if packet.header.type == type_code MessageType.mode_switch
    then (elim packet.payload [ mode_switch payload ↦ on_mode_switch now payload s | _ ↦ s ])
    else s

unfoldable pub toggle_manual_lock : SmartContext → SmartContext
toggle_manual_lock s = record s {
  settings = record s.settings { manual_override_lock = not s.settings.manual_override_lock };
  clicks = suc s.clicks;
}

module _ (codec : TextCodec) {W : Type 0} (send : W → List ℕ → W × Bool) where
  -- `none` is an error of the encoder.
  unfoldable pub select_mode : InputMode → Bool → SmartContext → W → Option (SmartContext × W)
  unfolding input_mode_to_target_mode
  select_mode mode is_manual s w =
      let t = record s { active_input_mode = mode } in
      elim s.bridge [
        | none ↦ some (t, w)
        | some b ↦
            elim (send_mode_switch codec send b w
              (record {
                target_mode = pos (mode_code (input_mode_to_target_mode mode));
                flags = pos (if is_manual then is_manual_override else 0);
              })
              (pos 0)) [
                | none ↦ none
                | some (b', w', sent) ↦ some (record t { bridge = some b' }, w')
              ]
      ]
