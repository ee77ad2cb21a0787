-- ===== src/Tests/Gamepad.antt =====
-- The gamepad's theorems, instantiated.
use lookauniversalremote.Prelude.{
  ℕ, ◌≡◌, arith, true, pos, negsuc, List, [], ◌∷◌, ◌++◌, All, some, refl, false, ℤ,
}
use lookauniversalremote.Protocol.Types.{gamepad_full, Packet}
use lookauniversalremote.Protocol.Reader.{ok, array_buffer}
use lookauniversalremote.Protocol.Decoder.{decode_packet}
use lookauniversalremote.Bridge.{Bridge}
use lookauniversalremote.Bridge.Send.Stream.{keep}
use lookauniversalremote.Gamepad.State.{initial, get_snapshot, Side}
use lookauniversalremote.Gamepad.Range.{Operation, IsProper, run}
use lookauniversalremote.Gamepad.Joystick.{
  Angles, JoystickProps, PointerEvent, VirtualJoystick, new_joystick,
}
use lookauniversalremote.Gamepad.Centred.{Touch, IsCentred, touch_all, touch_all-IsCentred}
use lookauniversalremote.Tests.Motion.{integers}
use lookauniversalremote.Gamepad.Sampler.{sample_once}
use lookauniversalremote.Gamepad.Sampling.{Control, sample_once-decode}
use lookauniversalremote.Tests.Samples.{ascii_codec, bridge, bridge-IsReady}

abbrev played : List Operation
played =
    Operation.button 0x10 true
    ∷ Operation.dpad 0x5
    ∷ Operation.left_stick (negsuc 32767) (pos 32767)
    ∷ Operation.trigger Side.right (record { num = pos 2551; den = 9 })
    ∷ Operation.bumper Side.left true
    ∷ []

played-IsProper : All IsProper played
played-IsProper =
    (omega arith, (tt, (((omega arith, omega arith), (omega arith, omega arith)), (tt, (tt, tt)))))

abbrev controls : List Control
controls = Control.start_it ∷ Control.set_rate (pos 500) ∷ Control.stop_it ∷ Control.start_it ∷ []

sample_once-decode_example :
    (b' : Bridge) × (bytes : List ℕ) × (packet : Packet) × (sample_once ascii_codec keep
        (get_snapshot (run played initial))
        bridge
        []
      ≡ some (b', [] ++ bytes ∷ [], true))
    × (decode_packet ascii_codec (array_buffer bytes) ≡ ok packet)
    × (packet.payload
        ≡ gamepad_full (record (get_snapshot (run played initial)) { player_index = some (pos 0) }))
sample_once-decode_example =
    sample_once-decode ascii_codec played bridge [] played-IsProper bridge-IsReady

-- Angles that are their own cosine and sine.
abbrev angles : Angles ℤ
angles = record { atan2 = λ y x. x; cos = λ a. a; sin = λ a. a; negate = λ a. pos 0 }

abbrev props : JoystickProps ℤ
props = record {
  radius = pos 65;
  deadzone = pos 0;
  sensitivity = pos 1;
  invert_y = false;
  floating = true;
}

abbrev pointer : ℕ → PointerEvent ℤ
pointer p = record {
  pointer_id = p;
  client_x = pos 30;
  client_y = pos 40;
  center_x = pos 0;
  center_y = pos 0;
}

abbrev touches : List (Touch ℤ)
touches =
    Touch.puts_down true props (pos 1000) (pointer 3)
    ∷ Touch.moves_to props (pointer 3)
    ∷ Touch.takes_up 4
    ∷ Touch.takes_up 3
    ∷ []

abbrev joystick : VirtualJoystick ℤ
joystick = new_joystick integers (record { enabled = true; supported = false; vibrations = [] })

touch_all-IsCentred_example : IsCentred integers angles (touch_all integers angles touches joystick)
unfolding new_joystick
touch_all-IsCentred_example =
    touch_all-IsCentred integers angles touches joystick
      (record { resting = λ e. refl; reports = tt })
