-- ===== src/Studio/Types.antt =====
-- types.ts of features/studio: layouts of touch elements.
use Prim.Native.String.{String}
use lookauniversalremote.Prelude.{ℕ, Bool, List, Option}
use lookauniversalremote.Gamepad.State.{Side}

pub data TouchElementType : Type 0 where
  stick button dpad trigger macro turbo touchpad : TouchElementType

pub data AxisX : Type 0 where
  stick_lx stick_rx : AxisX

pub data AxisY : Type 0 where
  stick_ly stick_ry : AxisY

pub record ElementMapping : Type 0 where
  pub button_bit : Option ℕ
  pub axis_x : Option AxisX
  pub axis_y : Option AxisY
  pub turbo_rate_hz : Option ℕ
  pub macro_sequence : Option (List ℕ)
  pub macro_step_delay_ms : Option ℕ
  pub trigger_side : Option Side

-- Positions and sizes are numbers of the type `D`.
pub record StudioElement (D : Type 0) : Type 0 where
  pub id : String
  pub type : TouchElementType
  pub label : String
  pub x : D
  pub y : D
  pub width : D
  pub height : D
  pub color : Option String
  pub mapping : ElementMapping

pub data Orientation : Type 0 where
  landscape portrait : Orientation

pub record CustomLayout (D : Type 0) : Type 0 where
  pub id : String
  pub name : String
  pub description : String
  pub orientation : Orientation
  pub elements : List (StudioElement D)
  pub grid_snap : D
  pub is_preset : Option Bool
  pub created_at : ℕ
  pub updated_at : ℕ

-- The arithmetic of the source's numbers.
pub record Reals (D : Type 0) : Type 0 where
  pub whole : ℕ → D
  pub is_positive : D → Bool
  pub round : D → D
  pub div : D → D → D
  pub mul : D → D → D
  pub max_of : D → D → D
