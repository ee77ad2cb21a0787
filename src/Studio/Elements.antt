-- ===== src/Studio/Elements.antt =====
-- useCustomLayout.ts of features/studio: the elements of a layout.
use Prim.Native.String.{String}
use text.Mathlib.Text.{◌==◌ as str_eq}
use lookauniversalremote.Prelude.{ℕ, if◌then◌else◌, Bool, false, List, [], ◌∷◌, Option, none, some}
use lookauniversalremote.Gamepad.State.{Side, south, east, l3}
use lookauniversalremote.Studio.Types.{
  TouchElementType, stick, button, dpad, trigger, macro, turbo, touchpad, AxisX, AxisY,
  ElementMapping, StudioElement, CustomLayout, Reals,
}
use lookauniversalremote.Studio.Presets.{mask, no_mapping}
use lookauniversalremote.Studio.Storage.{}

-- `Partial<StudioElement>`.
pub record ElementUpdates (D : Type 0) : Type 0 where
  pub id : Option String
  pub type : Option TouchElementType
  pub label : Option String
  pub x : Option D
  pub y : Option D
  pub width : Option D
  pub height : Option D
  pub color : Option String
  pub mapping : Option ElementMapping

-- A value of an update, or the one before; and a field that may be missing in both.
abbrev pub given {ℓ} : {A : Type ℓ} → Option A → A → A
given none a = a
given (some b) a = b

abbrev pub given? {ℓ} : {A : Type ℓ} → Option A → Option A → Option A
given? none a = a
given? (some b) a = some b

abbrev pub merge_mapping : ElementMapping → Option ElementMapping → ElementMapping
merge_mapping m none = m
merge_mapping m (some u) = record {
  button_bit = given? u.button_bit m.button_bit;
  axis_x = given? u.axis_x m.axis_x;
  axis_y = given? u.axis_y m.axis_y;
  turbo_rate_hz = given? u.turbo_rate_hz m.turbo_rate_hz;
  macro_sequence = given? u.macro_sequence m.macro_sequence;
  macro_step_delay_ms = given? u.macro_step_delay_ms m.macro_step_delay_ms;
  trigger_side = given? u.trigger_side m.trigger_side;
}

-- What a new element of a type starts with.
pub record Template : Type 0 where
  pub label : String
  pub width : ℕ
  pub height : ℕ
  pub color : String
  pub default_mapping : ElementMapping

abbrev pub template : TouchElementType → Template
template stick = record {
  label = "Stick";
  width = 130;
  height = 130;
  color = "#00E5FF";
  default_mapping = record no_mapping {
    axis_x = some AxisX.stick_lx;
    axis_y = some AxisY.stick_ly;
    button_bit = some (mask l3);
  };
}
template dpad = record {
  label = "D-Pad";
  width = 120;
  height = 120;
  color = "#FFE600";
  default_mapping = no_mapping;
}
template trigger = record {
  label = "Trigger";
  width = 80;
  height = 50;
  color = "#00FF66";
  default_mapping = record no_mapping { trigger_side = some Side.right };
}
template turbo = record {
  label = "🔥 Turbo";
  width = 90;
  height = 50;
  color = "#FF0055";
  default_mapping = record no_mapping { button_bit = some (mask south); turbo_rate_hz = some 15 };
}
template macro = record {
  label = "⚡ Macro";
  width = 100;
  height = 50;
  color = "#9900FF";
  default_mapping = record no_mapping {
    macro_sequence = some (mask south ∷ 0 ∷ mask east ∷ []);
    macro_step_delay_ms = some 50;
  };
}
template touchpad = record {
  label = "Touchpad";
  width = 160;
  height = 100;
  color = "#00E5FF";
  default_mapping = no_mapping;
}
template button = record {
  label = "A";
  width = 55;
  height = 55;
  color = "#00E5FF";
  default_mapping = record no_mapping { button_bit = some (mask south) };
}

abbrev pub is_preset_layout : {D : Type 0} → CustomLayout D → Bool
is_preset_layout l = given l.is_preset false

module _ {D : Type 0} (n : Reals D) where
  unfoldable pub snap_value : D → D → D
  snap_value value snap =
      if n.is_positive snap then n.mul (n.round (n.div value snap)) snap else n.round value

  unfoldable pub update_one : D → String → ElementUpdates D → StudioElement D → StudioElement D
  unfolding snap_value
  update_one grid id u e =
      if str_eq e.id id
      then record {
        id = given u.id e.id;
        type = given u.type e.type;
        label = given u.label e.label;
        x = elim u.x [ none ↦ e.x | some v ↦ snap_value v grid ];
        y = elim u.y [ none ↦ e.y | some v ↦ snap_value v grid ];
        width = elim u.width [
          | none ↦ e.width
          | some v ↦ n.max_of (n.whole 30) (snap_value v grid)
        ];
        height = elim u.height [
          | none ↦ e.height
          | some v ↦ n.max_of (n.whole 30) (snap_value v grid)
        ];
        color = given? u.color e.color;
        mapping = merge_mapping e.mapping u.mapping;
      }
      else e

  unfoldable pub new_element : String → TouchElementType → D → D → D → StudioElement D
  unfolding snap_value
  new_element id type x y grid =
      let t = template type in
      record {
        id = id;
        type = type;
        label = t.label;
        x = snap_value x grid;
        y = snap_value y grid;
        width = snap_value (n.whole t.width) grid;
        height = snap_value (n.whole t.height) grid;
        color = some t.color;
        mapping = t.default_mapping;
      }

  abbrev pub without_element : String → List (StudioElement D) → List (StudioElement D)
  without_element id [] = []
  without_element id (e ∷ es) =
      let rest = without_element id es in if str_eq e.id id then rest else e ∷ rest
