-- ===== src/Motion/Stored.antt =====
-- The bias in the browser's storage, over a reload of the page.
use lookauniversalremote.Prelude.{◌≡◌, inl, inr, refl, Bool-cases, if◌then◌else◌, Bool, true, false}
use lookauniversalremote.Motion.{Floats}
use lookauniversalremote.Motion.Bias.{
  GyroBias, BiasJson, BiasCalibrator, idle, calibrated, zero_bias, set_bias, clear_bias,
  save_to_storage, load_from_storage, new_calibrator,
}

-- A calibrator that has a bias, or that has none.
pub record Has {D R : Type 0} (c : BiasCalibrator D R) (b : GyroBias D) (known : Bool)
    : Type 0 where
  pub bias : c.bias ≡ b
  pub calibrated_is : c.calibrated ≡ known
  pub status : c.status ≡ (if known then calibrated else idle)

module _ {D R : Type 0} (n : Floats D) (json : BiasJson D R) where
  abbrev pub reload : BiasCalibrator D R → BiasCalibrator D R
  reload c = new_calibrator n json c.storage

  -- Where the storage takes it, a bias of finite numbers that is set is found again after a reload.
  pub reload-set_bias :
      (b : GyroBias D) (c : BiasCalibrator D R)
      → json.IsFinite b.bias_yaw
      → json.IsFinite b.bias_pitch
      → json.IsFinite b.bias_roll
      → c.storage.available ≡ true
      → c.storage.has_room ≡ true
      → Has (reload (set_bias json b c)) b true
  unfolding new_calibrator load_from_storage set_bias save_to_storage
  reload-set_bias b c yaw pitch roll there room =
      rw (there, room, there, json.nonempty b, json.parse_stringify b yaw pitch roll)
        (record { bias = refl; calibrated_is = refl; status = refl })

  -- A bias that is cleared is not found again: the calibrator starts at zero, uncalibrated, also
  -- where there is no storage.
  pub reload-clear_bias :
      (c : BiasCalibrator D R) → Has (reload (clear_bias n c)) (zero_bias n) false
  unfolding new_calibrator load_from_storage clear_bias
  reload-clear_bias c = elim (Bool-cases c.storage.available) [
    | inl e ↦ rw e (record { bias = refl; calibrated_is = refl; status = refl })
    | inr e ↦ rw e (record { bias = refl; calibrated_is = refl; status = refl })
  ]
