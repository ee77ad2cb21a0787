-- ===== src/Tests/Context.antt =====
-- The mode switches, instantiated.
use lookauniversalremote.Prelude.{◌≡◌, refl, true, false, pos, List, [], ◌∷◌, none, some, word32}
use lookauniversalremote.Protocol.Constants.{TargetMode}
use lookauniversalremote.Protocol.Types.{MessagePayload, Packet}
use lookauniversalremote.Protocol.Encoder.Frames.{frame}
use lookauniversalremote.Bridge.Send.Stream.{keep}
use lookauniversalremote.Context.{InputMode, input_mode_to_target_mode, SmartContext, enforced}
use lookauniversalremote.Context.Modes.{on_frame}
use lookauniversalremote.Context.Switching.{order, on_frame-mode_switch}
use lookauniversalremote.Context.Toasts.{Event, run}
use lookauniversalremote.Context.Locked.{IsKept, run-IsKept}
use lookauniversalremote.Tests.Samples.{ascii_codec, bridge}

abbrev client : SmartContext
client = record {
  bridge = some bridge;
  settings = record {
    auto_switch_enabled = true;
    manual_override_lock = false;
    smart_context_toast_enabled = true;
  };
  active_input_mode = InputMode.tv;
  last_detected_mode = InputMode.tv;
  toast = none;
  toast_timeout = none;
  timers = [];
  next_timer = 1;
  clicks = 0;
}

abbrev locked_client : SmartContext
locked_client = record client {
  settings = record {
    auto_switch_enabled = true;
    manual_override_lock = true;
    smart_context_toast_enabled = true;
  };
}

on_frame-mode_switch_example :
    let s' =
      on_frame ascii_codec 5
        (frame ascii_codec
          (pos 1)
          (pos 0)
          (MessagePayload.mode_switch (order TargetMode.gamepad false true)))
        locked_client in
    (s'.active_input_mode ≡ InputMode.gamepad) × (s'.last_detected_mode ≡ InputMode.gamepad)
unfolding input_mode_to_target_mode
on_frame-mode_switch_example =
    on_frame-mode_switch ascii_codec 5 (pos 1) (pos 0) InputMode.gamepad false true locked_client

abbrev to_gamepad : Packet
to_gamepad = record {
  header = record { version = 1; type = 7; flags = pos 0; sequence = pos 0 };
  payload = MessagePayload.mode_switch (record { target_mode = pos 0; flags = pos 0 });
}

abbrev happenings : List Event
happenings = Event.packet 9 to_gamepad ∷ Event.timeout 1 ∷ Event.select InputMode.tv true ∷ []

gamepad_optional : enforced (record { target_mode = pos 0; flags = pos 0 }) ≡ false
unfolding enforced word32
gamepad_optional = refl

abbrev passing : List Event
passing = Event.packet 9 to_gamepad ∷ Event.dismiss ∷ []

run-IsKept_example :
    (s' : SmartContext) × (run ascii_codec keep passing locked_client [] ≡ some (s', []))
    × IsKept locked_client s'
run-IsKept_example =
    run-IsKept ascii_codec keep passing locked_client [] (gamepad_optional, (tt, tt)) refl
