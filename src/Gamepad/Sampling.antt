-- ===== src/Gamepad/Sampling.antt =====
-- The sampler keeps one timer, and what it sends is the state.
use lookauniversalremote.Prelude.{
  ℕ, zero, suc, ◌+◌, ◌*◌, ◌/◌, ◌≤◌, ◌<◌, ◌≤ℤ◌, ◌≡◌, refl, arith, true, false, ℤ, pos, negsuc, max_ℤ,
  min_ℤ, List, [], ◌∷◌, ◌++◌, All, Option, none, some,
}
use native.Mathlib.Nat.{div-lt_iff_lt-mul}
use lookauniversalremote.Protocol.Types.{gamepad_full, Packet}
use lookauniversalremote.Protocol.View.{TextCodec}
use lookauniversalremote.Protocol.Reader.{ok, array_buffer}
use lookauniversalremote.Protocol.Decoder.{decode_packet}
use lookauniversalremote.Bridge.{Bridge}
use lookauniversalremote.Bridge.Send.{Request, IsReady}
use lookauniversalremote.Bridge.Send.Stream.{request_frame, send_gamepad_full-frame, keep}
use lookauniversalremote.Gamepad.State.{initial, get_snapshot}
use lookauniversalremote.Gamepad.Range.{Operation, IsProper, run, decode-snapshot}
use lookauniversalremote.Gamepad.Sampler.{
  sample_once, Interval, GamepadSampler, set_sample_rate, start, stop, interval_ms, clear_interval,
}

-- The calls of the sampler's operations that change it.
pub data Control : Type 0 where
  start_it stop_it : Control
  set_rate : ℤ → Control

abbrev pub control : Control → GamepadSampler → GamepadSampler
control start_it s = start s
control stop_it s = stop s
control (set_rate hz) s = set_sample_rate hz s

abbrev pub control_all : List Control → GamepadSampler → GamepadSampler
control_all [] s = s
control_all (c ∷ cs) s = control_all cs (control c s)

-- A stopped sampler has no interval; a running one has exactly one, whose id it holds and whose
-- period is that of its rate.
pub data HasOneTimer : GamepadSampler → Type 0 where
  idle :
      (rate : ℤ) (n : ℕ)
      → HasOneTimer (record {
        timer_id = none;
        running = false;
        sample_rate_hz = rate;
        intervals = [];
        next_id = n;
      })
  ticking :
      (t : ℕ) (rate : ℤ) (n : ℕ)
      → HasOneTimer (record {
        timer_id = some t;
        running = true;
        sample_rate_hz = rate;
        intervals = record { id = t; period = interval_ms rate } ∷ [];
        next_id = n;
      })

cleared : (t : ℕ) (p : Option ℕ) → clear_interval t (record { id = t; period = p } ∷ []) ≡ []
unfolding clear_interval
cleared t p = ground arith

control-HasOneTimer : (c : Control) (s : GamepadSampler) → HasOneTimer s → HasOneTimer (control c s)
unfolding start stop set_sample_rate
control-HasOneTimer start_it s (idle rate n) = ticking n rate (suc n)
control-HasOneTimer start_it s (ticking t rate n) = ticking t rate n
control-HasOneTimer stop_it s (idle rate n) = idle rate n
control-HasOneTimer stop_it s (ticking t rate n) = rw (cleared t (interval_ms rate)) (idle rate n)
control-HasOneTimer (set_rate hz) s (idle rate n) = idle _ n
control-HasOneTimer (set_rate hz) s (ticking t rate n) =
    rw (cleared t (interval_ms rate)) (ticking n _ (suc n))

-- After any calls of start, stop and setSampleRate, in any order, a stopped sampler has no interval
-- and a running one exactly one, whose id it holds and whose period is that of its rate.
pub control_all-HasOneTimer :
    (cs : List Control) (s : GamepadSampler) → HasOneTimer s → HasOneTimer (control_all cs s)
control_all-HasOneTimer [] s one = one
control_all-HasOneTimer (c ∷ cs) s one =
    control_all-HasOneTimer cs (control c s) (control-HasOneTimer c s one)

clamped_quotient : (n : ℕ) → 30 ≤ suc n → (2000 + suc n) / (2 * suc n) < 34
clamped_quotient n lo = (div-lt_iff_lt-mul (omega arith)).1 (omega arith)

-- A period between 4 and 33 milliseconds.
abbrev pub IsPeriod : Option ℕ → Type 0
IsPeriod none = ⊥
IsPeriod (some p) = (4 ≤ p) × (p ≤ 33)

interval_ms-IsPeriod : (r : ℤ) → pos 30 ≤ℤ r → IsPeriod (interval_ms r)
unfolding interval_ms
interval_ms-IsPeriod (pos zero) lo = absurd (omega arith)
interval_ms-IsPeriod (pos (suc n)) lo =
    let q = clamped_quotient n (omega arith) in (omega arith, omega arith)
interval_ms-IsPeriod (negsuc n) lo = absurd (omega arith)

clamped : (hz : ℤ) → pos 30 ≤ℤ max_ℤ (pos 30) (min_ℤ (pos 240) hz)
unfolding max_ℤ min_ℤ
clamped hz = ground arith

-- Setting the rate of a running sampler, to any whole number, leaves it with exactly one interval,
-- whose period is between 4 and 33 milliseconds.
pub set_sample_rate-IsPeriod :
    (hz : ℤ) (s : GamepadSampler)
    → HasOneTimer s
    → s.running ≡ true
    → (i : Interval) × ((set_sample_rate hz s).intervals ≡ i ∷ []) × IsPeriod i.period
unfolding set_sample_rate start stop
set_sample_rate-IsPeriod hz s (idle rate n) running = absurd cc
set_sample_rate-IsPeriod hz s (ticking t rate n) running = (
  record { id = n; period = interval_ms (max_ℤ (pos 30) (min_ℤ (pos 240) hz)) },
  rw (cleared t (interval_ms rate)) refl,
  interval_ms-IsPeriod _ (clamped hz),
)

-- A sample taken after any operations with 16-bit masks and stick positions in the signed 16-bit
-- range, over a usable bridge, sends one frame, which decodes to the numbers of the state.
pub sample_once-decode :
    (codec : TextCodec) (ops : List Operation) (b : Bridge) (frames : List (List ℕ))
    → All IsProper ops
    → IsReady b
    → let snapshot = get_snapshot (run ops initial) in
      (b' : Bridge) × (bytes : List ℕ) × (packet : Packet) × (sample_once codec keep snapshot b
          frames
        ≡ some (b', frames ++ bytes ∷ [], true))
      × (decode_packet codec (array_buffer bytes) ≡ ok packet)
      × (packet.payload ≡ gamepad_full (record snapshot { player_index = some (pos 0) }))
unfolding sample_once
sample_once-decode codec ops b frames proper ready =
    let snapshot = get_snapshot (run ops initial) in
    (
      _,
      request_frame codec keep b (Request.gamepad_full snapshot (pos 0)),
      _,
      send_gamepad_full-frame codec keep b frames ready snapshot (pos 0),
      decode-snapshot codec (pos b.sequence_gen.current) (pos 0) ops proper,
      refl,
    )
