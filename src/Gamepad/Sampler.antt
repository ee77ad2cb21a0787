-- ===== src/Gamepad/Sampler.antt =====
-- apps/web-client/src/features/gamepad/GamepadSampler.ts: the timer that sends snapshots.
use lookauniversalremote.Prelude.{
  ℕ, zero, suc, ◌+◌, ◌*◌, ◌/◌, ◌==◌, max, if◌then◌else◌, Bool, true, false, ℤ, pos, negsuc, min_ℤ,
  max_ℤ, List, [], ◌∷◌, ◌++◌, Option, none, some,
}
use lookauniversalremote.Protocol.View.{TextCodec}
use lookauniversalremote.Protocol.Types.{GamepadFullPayload}
use lookauniversalremote.Bridge.{Bridge, Sent, send_gamepad_full}

-- An interval of the browser: its id and its period, `none` for an infinite one.
pub record Interval : Type 0 where
  pub id : ℕ
  pub period : Option ℕ

-- The sampler, with the active intervals of the browser and the id of the next one. Rates are whole
-- numbers.
pub record GamepadSampler : Type 0 where
  pub timer_id : Option ℕ
  pub running : Bool
  pub sample_rate_hz : ℤ
  pub intervals : List Interval
  pub next_id : ℕ

unfoldable pub new_sampler : ℤ → GamepadSampler
new_sampler hz = record {
  timer_id = none;
  running = false;
  sample_rate_hz = hz;
  intervals = [];
  next_id = 1;
}

unfoldable pub get_sample_rate : GamepadSampler → ℤ
get_sample_rate s = s.sample_rate_hz

unfoldable pub is_running : GamepadSampler → Bool
is_running s = s.running

-- `Math.max(4, Math.round(1000 / rate))`: rounding 1000 / n is (2000 + n) / 2n rounded down, and the
-- quotient by a negative rate is negative.
unfoldable pub interval_ms : ℤ → Option ℕ
interval_ms (pos zero) = none
interval_ms (pos (suc n)) = some (max 4 ((2000 + suc n) / (2 * suc n)))
interval_ms (negsuc n) = some 4

unfoldable pub start : GamepadSampler → GamepadSampler
unfolding interval_ms
start s = if s.running then s else record s {
  running = true;
  timer_id = some s.next_id;
  intervals = s.intervals ++ record { id = s.next_id; period = interval_ms s.sample_rate_hz } ∷ [];
  next_id = suc s.next_id;
}

unfoldable pub clear_interval : ℕ → List Interval → List Interval
clear_interval t [] = []
clear_interval t (i ∷ is) = if i.id == t then is else i ∷ clear_interval t is

unfoldable pub stop : GamepadSampler → GamepadSampler
unfolding clear_interval
stop s = elim s.timer_id [
  | none ↦ record s { running = false }
  | some t ↦ record s { intervals = clear_interval t s.intervals; timer_id = none; running = false }
]

unfoldable pub set_sample_rate : ℤ → GamepadSampler → GamepadSampler
unfolding max_ℤ min_ℤ start stop
set_sample_rate hz s =
    let t = record s { sample_rate_hz = max_ℤ (pos 30) (min_ℤ (pos 240) hz) } in
    if t.running then start (stop t) else t

-- What the interval calls, with the snapshot as it stands.
unfoldable pub sample_once :
    (codec : TextCodec) {W : Type 0} (send : W → List ℕ → W × Bool)
    → GamepadFullPayload
    → Bridge
    → W
    → Sent codec send
sample_once codec send snapshot b w = send_gamepad_full codec send b w snapshot (pos 0)
