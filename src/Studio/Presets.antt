-- ===== src/Studio/Presets.antt =====
-- presets.ts of features/studio: the layouts that are built in.
use Prim.Native.String.{String}
use lookauniversalremote.Prelude.{ℕ, ◌^◌, bit_or, true, List, [], ◌∷◌, some, none}
use lookauniversalremote.Gamepad.State.{
  Side, Button, button_bit, south, east, west, north, l1, r1, l3, r3, start, select, dpad_down,
  dpad_right,
}
use lookauniversalremote.Studio.Types.{
  TouchElementType, AxisX, AxisY, ElementMapping, StudioElement, Orientation, CustomLayout, Reals,
}

-- `GamepadButtonBit`, and a mapping with no field.
abbrev pub mask : Button → ℕ
mask b = 2 ^ button_bit b

abbrev pub no_mapping : ElementMapping
no_mapping = record {
  button_bit = none;
  axis_x = none;
  axis_y = none;
  turbo_rate_hz = none;
  macro_sequence = none;
  macro_step_delay_ms = none;
  trigger_side = none;
}

module _ {D : Type 0} (n : Reals D) where
  abbrev element :
      String → TouchElementType → String → ℕ → ℕ → ℕ → ℕ → String → ElementMapping → StudioElement D
  element id type label x y width height color mapping = record {
    id = id;
    type = type;
    label = label;
    x = n.whole x;
    y = n.whole y;
    width = n.whole width;
    height = n.whole height;
    color = some color;
    mapping = mapping;
  }

  unfoldable pub default_xbox_layout : CustomLayout D
  default_xbox_layout = record {
    id = "preset-xbox-default";
    name = "Standard Xbox Dual-Stick";
    description = "Classic dual analog sticks, ABXY diamond cluster, D-Pad, Bumpers, and Triggers.";
    orientation = Orientation.landscape;
    grid_snap = n.whole 16;
    is_preset = some true;
    created_at = 1724700000000;
    updated_at = 1724700000000;
    elements =
        element "elem-stick-l" TouchElementType.stick "LS" 48 180 140 140 "#00E5FF"
          (record no_mapping {
            axis_x = some AxisX.stick_lx;
            axis_y = some AxisY.stick_ly;
            button_bit = some (mask l3);
          })
        ∷ element "elem-dpad" TouchElementType.dpad "D-Pad" 190 200 120 120 "#00E5FF" (no_mapping)
        ∷ element "elem-btn-lb" TouchElementType.button "LB" 48 60 90 50 "#00E5FF"
            (record no_mapping { button_bit = some (mask l1) })
        ∷ element "elem-trig-lt" TouchElementType.trigger "LT" 150 60 90 50 "#00E5FF"
            (record no_mapping { trigger_side = some Side.left })
        ∷ element "elem-btn-view" TouchElementType.button "VIEW" 320 60 60 40 "#8B949E"
            (record no_mapping { button_bit = some (mask select) })
        ∷ element "elem-btn-menu" TouchElementType.button "MENU" 420 60 60 40 "#8B949E"
            (record no_mapping { button_bit = some (mask start) })
        ∷ element "elem-stick-r" TouchElementType.stick "RS" 520 200 140 140 "#00E5FF"
            (record no_mapping {
              axis_x = some AxisX.stick_rx;
              axis_y = some AxisY.stick_ry;
              button_bit = some (mask r3);
            })
        ∷ element "elem-trig-rt" TouchElementType.trigger "RT" 560 60 90 50 "#00E5FF"
            (record no_mapping { trigger_side = some Side.right })
        ∷ element "elem-btn-rb" TouchElementType.button "RB" 660 60 90 50 "#00E5FF"
            (record no_mapping { button_bit = some (mask r1) })
        ∷ element "elem-btn-y" TouchElementType.button "Y" 690 140 55 55 "#FFE600"
            (record no_mapping { button_bit = some (mask north) })
        ∷ element "elem-btn-x" TouchElementType.button "X" 630 195 55 55 "#00E5FF"
            (record no_mapping { button_bit = some (mask west) })
        ∷ element "elem-btn-b" TouchElementType.button "B" 750 195 55 55 "#FF007F"
            (record no_mapping { button_bit = some (mask east) })
        ∷ element "elem-btn-a" TouchElementType.button "A" 690 250 55 55 "#00FF66"
            (record no_mapping { button_bit = some (mask south) })
        ∷ [];
  }

  unfoldable pub fps_claw_layout : CustomLayout D
  fps_claw_layout = record {
    id = "preset-fps-claw";
    name = "FPS 4-Finger Claw";
    description =
        "Optimized for high-mobility competitive FPS: rapid Jump/Slide macros and top bumpers.";
    orientation = Orientation.landscape;
    grid_snap = n.whole 16;
    is_preset = some true;
    created_at = 1724700000000;
    updated_at = 1724700000000;
    elements =
        element "elem-stick-l" TouchElementType.stick "Move" 40 170 150 150 "#00E5FF"
          (record no_mapping {
            axis_x = some AxisX.stick_lx;
            axis_y = some AxisY.stick_ly;
            button_bit = some (mask l3);
          })
        ∷ element "elem-btn-lb" TouchElementType.button "Aim (LB)" 40 40 110 60 "#00E5FF"
            (record no_mapping { button_bit = some (mask l1) })
        ∷ element "elem-btn-jump-macro" TouchElementType.macro "⚡ Bunny Hop" 160 40 110 60 "#FFE600"
            (record no_mapping {
              macro_sequence = some (mask south ∷ 0 ∷ mask south ∷ 0 ∷ []);
              macro_step_delay_ms = some 40;
            })
        ∷ element "elem-stick-r" TouchElementType.stick "Look" 500 170 150 150 "#FF007F"
            (record no_mapping {
              axis_x = some AxisX.stick_rx;
              axis_y = some AxisY.stick_ry;
              button_bit = some (mask r3);
            })
        ∷ element "elem-btn-turbo-fire" TouchElementType.turbo "🔥 Turbo Fire" 670 40 110 60
            "#FF0055" (record no_mapping { button_bit = some (mask r1); turbo_rate_hz = some 20 })
        ∷ element "elem-btn-crouch" TouchElementType.button "Slide (B)" 680 150 80 60 "#00FF66"
            (record no_mapping { button_bit = some (mask east) })
        ∷ element "elem-btn-reload" TouchElementType.button "Reload (X)" 680 230 80 60 "#00E5FF"
            (record no_mapping { button_bit = some (mask west) })
        ∷ [];
  }

  unfoldable pub fighting_arcade_layout : CustomLayout D
  fighting_arcade_layout = record {
    id = "preset-fighting-arcade";
    name = "6-Button Arcade Fighter";
    description =
        "Arcade stick + 6 action buttons (LP/MP/HP, LK/MK/HK) and instant Super combo macros.";
    orientation = Orientation.landscape;
    grid_snap = n.whole 16;
    is_preset = some true;
    created_at = 1724700000000;
    updated_at = 1724700000000;
    elements =
        element "elem-dpad" TouchElementType.dpad "Arcade D-Pad" 50 140 160 160 "#FFE600"
          (no_mapping)
        ∷ element "elem-lp" TouchElementType.button "LP (X)" 480 100 70 70 "#00E5FF"
            (record no_mapping { button_bit = some (mask west) })
        ∷ element "elem-mp" TouchElementType.button "MP (Y)" 570 90 70 70 "#FFE600"
            (record no_mapping { button_bit = some (mask north) })
        ∷ element "elem-hp" TouchElementType.button "HP (RB)" 660 100 70 70 "#FF007F"
            (record no_mapping { button_bit = some (mask r1) })
        ∷ element "elem-lk" TouchElementType.button "LK (A)" 480 200 70 70 "#00FF66"
            (record no_mapping { button_bit = some (mask south) })
        ∷ element "elem-mk" TouchElementType.button "MK (B)" 570 190 70 70 "#FF0055"
            (record no_mapping { button_bit = some (mask east) })
        ∷ element "elem-hk" TouchElementType.button "HK (RT)" 660 200 70 70 "#9900FF"
            (record no_mapping { trigger_side = some Side.right })
        ∷ element "elem-hadouken" TouchElementType.macro "⚡ Hadouken Combo" 250 240 140 55 "#00E5FF"
            (record no_mapping {
              macro_sequence = some (
                  mask dpad_down
                  ∷ bit_or (mask dpad_down) (mask dpad_right)
                  ∷ bit_or (mask dpad_right) (mask west)
                  ∷ []);
              macro_step_delay_ms = some 30;
            })
        ∷ [];
  }

  unfoldable pub builtin_presets : List (CustomLayout D)
  builtin_presets = default_xbox_layout ∷ fps_claw_layout ∷ fighting_arcade_layout ∷ []
