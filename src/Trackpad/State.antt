-- ===== src/Trackpad/State.antt =====
-- GestureRecognizer.ts: the configuration, the touches and the state of the recognizer.
use lookauniversalremote.Prelude.{
  ℕ, ◌==◌, if◌then◌else◌, Bool, true, false, ℤ, pos, List, [], ◌∷◌, Option, none, some,
}

-- The source's numbers, of the type `D`: positions and distances are floats.
pub record Numbers (D : Type 0) : Type 0 where
  pub whole : ℤ → D
  pub half : D
  pub four_fifths : D
  pub add : D → D → D
  pub sub : D → D → D
  pub mul : D → D → D
  pub div : D → D → D
  pub hypot : D → D → D
  pub min_of : D → D → D
  pub less : D → D → Bool
  pub trunc : D → ℤ

pub record GestureConfig (D : Type 0) : Type 0 where
  pub sensitivity : D
  pub acceleration : D
  pub natural_scroll : Bool
  pub scroll_sensitivity : D
  pub tap_to_click : Bool
  pub double_tap_drag : Bool

-- `Partial<GestureConfig>`.
pub record PartialConfig (D : Type 0) : Type 0 where
  pub sensitivity : Option D
  pub acceleration : Option D
  pub natural_scroll : Option Bool
  pub scroll_sensitivity : Option D
  pub tap_to_click : Option Bool
  pub double_tap_drag : Option Bool

pub record TouchPoint (D : Type 0) : Type 0 where
  pub id : ℕ
  pub x : D
  pub y : D

pub record TouchpadOutput : Type 0 where
  pub dx : ℤ
  pub dy : ℤ
  pub scroll_v : ℤ
  pub scroll_h : ℤ
  pub buttons_mask : ℕ

pub record TouchState (D : Type 0) : Type 0 where
  pub id : ℕ
  pub start_x : D
  pub start_y : D
  pub last_x : D
  pub last_y : D
  pub start_time : ℕ
  pub last_time : ℕ
  pub total_distance : D

-- The callbacks of the two timeouts.
pub data Release : Type 0 where
  tap_release two_finger_release : Release

-- The last two fields are the timeouts that are pending, all of 35 ms, and the calls of callbacks,
-- which are named by numbers.
pub record GestureRecognizer (D : Type 0) : Type 0 where
  pub config : GestureConfig D
  pub touches : List (TouchState D)
  pub callback : Option ℕ
  pub last_tap_time : ℕ
  pub last_tap_x : D
  pub last_tap_y : D
  pub is_dragging : Bool
  pub subpixel_dx : D
  pub subpixel_dy : D
  pub subpixel_scroll_v : D
  pub subpixel_scroll_h : D
  pub timeouts : List Release
  pub emitted : List (ℕ × TouchpadOutput)

-- A value that a partial configuration gives, or the one before.
abbrev pub or_else {ℓ} : {A : Type ℓ} → Option A → A → A
or_else none a = a
or_else (some b) a = b

module _ {D : Type 0} where
  -- `Map` from the id of a touch to its state, in the order of insertion.
  abbrev pub get_touch : ℕ → List (TouchState D) → Option (TouchState D)
  get_touch id [] = none
  get_touch id (t ∷ ts) = if t.id == id then some t else get_touch id ts

  abbrev pub set_touch : TouchState D → List (TouchState D) → List (TouchState D)
  set_touch t [] = t ∷ []
  set_touch t (u ∷ us) = if u.id == t.id then t ∷ us else u ∷ set_touch t us

  abbrev pub delete_touch : ℕ → List (TouchState D) → List (TouchState D)
  delete_touch id [] = []
  delete_touch id (t ∷ ts) = if t.id == id then ts else t ∷ delete_touch id ts

  unfoldable pub merge : GestureConfig D → PartialConfig D → GestureConfig D
  merge c p = record {
    sensitivity = or_else p.sensitivity c.sensitivity;
    acceleration = or_else p.acceleration c.acceleration;
    natural_scroll = or_else p.natural_scroll c.natural_scroll;
    scroll_sensitivity = or_else p.scroll_sensitivity c.scroll_sensitivity;
    tap_to_click = or_else p.tap_to_click c.tap_to_click;
    double_tap_drag = or_else p.double_tap_drag c.double_tap_drag;
  }

  abbrev pub default_gesture_config : Numbers D → GestureConfig D
  default_gesture_config n = record {
    sensitivity = n.whole (pos 1);
    acceleration = n.four_fifths;
    natural_scroll = true;
    scroll_sensitivity = n.whole (pos 1);
    tap_to_click = true;
    double_tap_drag = true;
  }

  unfoldable pub new_recognizer : Numbers D → PartialConfig D → Option ℕ → GestureRecognizer D
  unfolding merge
  new_recognizer n config callback = record {
    config = merge (default_gesture_config n) config;
    touches = [];
    callback = callback;
    last_tap_time = 0;
    last_tap_x = n.whole (pos 0);
    last_tap_y = n.whole (pos 0);
    is_dragging = false;
    subpixel_dx = n.whole (pos 0);
    subpixel_dy = n.whole (pos 0);
    subpixel_scroll_v = n.whole (pos 0);
    subpixel_scroll_h = n.whole (pos 0);
    timeouts = [];
    emitted = [];
  }
