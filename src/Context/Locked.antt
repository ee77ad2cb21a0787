-- ===== src/Context/Locked.antt =====
-- A locked client stays in its mode until the user or the host insists.
use lookauniversalremote.Prelude.{
  ℕ, ◌==◌, ◌≡◌, refl, ap, ◌∙◌, Bool, false, ◌&&◌, not, List, [], ◌∷◌, some, All, if_either,
}
use lookauniversalremote.Protocol.Types.{ModeSwitchPayload, MessagePayload, motion, mode_switch}
use lookauniversalremote.Protocol.View.{TextCodec}
use lookauniversalremote.Bridge.Incoming.{contains}
use lookauniversalremote.Context.{
  SmartContext, handle_packet, on_mode_switch, enforced, dismiss_toast, fire_timeout,
}
use lookauniversalremote.Context.Modes.{follows}
use lookauniversalremote.Context.Toasts.{
  Event, packet, dismiss, timeout, lock_button, select, settings, step, run,
}

-- Mode switches that the host does not enforce.
abbrev pub IsOptional : MessagePayload → Type 0
IsOptional (mode_switch q) = enforced q ≡ false
IsOptional _ = Unit

-- The events other than the user's choices and the host's orders.
abbrev pub IsPassive : Event → Type 0
IsPassive (packet now p) = IsOptional p.payload
IsPassive dismiss = Unit
IsPassive (timeout t) = Unit
IsPassive _ = ⊥

-- Nothing of what the user sees of the mode has changed.
pub record IsKept (s s' : SmartContext) : Type 0 where
  pub mode_kept : s'.active_input_mode ≡ s.active_input_mode
  pub settings_kept : s'.settings ≡ s.settings
  pub clicks_kept : s'.clicks ≡ s.clicks

unchanged : (s : SmartContext) → IsKept s s
unchanged s = record { mode_kept = refl; settings_kept = refl; clicks_kept = refl }

on_mode_switch-IsKept :
    (now : ℕ) (q : ModeSwitchPayload) (s : SmartContext)
    → enforced q ≡ false
    → follows s ≡ false
    → IsKept s (on_mode_switch now q s)
unfolding on_mode_switch
on_mode_switch-IsKept now q s optional locked =
    rw (optional, locked) (record { mode_kept = refl; settings_kept = refl; clicks_kept = refl })

payload-IsKept :
    (now : ℕ) (p : MessagePayload) (s : SmartContext)
    → IsOptional p
    → follows s ≡ false
    → IsKept s (elim p [ mode_switch q ↦ on_mode_switch now q s | _ ↦ s ])
payload-IsKept now (mode_switch q) s optional locked = on_mode_switch-IsKept now q s optional locked
payload-IsKept now (motion q) s optional locked = unchanged s
payload-IsKept now _ s optional locked = unchanged s

module _ (codec : TextCodec) {W : Type 0} (send : W → List ℕ → W × Bool) where
  step-IsKept :
      (e : Event) (s : SmartContext) (w : W)
      → IsPassive e
      → follows s ≡ false
      → (s' : SmartContext) × (step codec send e s w ≡ some (s', w)) × IsKept s s'
  unfolding step handle_packet dismiss_toast fire_timeout
  step-IsKept (packet now p) s w passive locked = (
    handle_packet now p s,
    refl,
    if_either (IsKept s) (p.header.type == 7) (λ e. payload-IsKept now p.payload s passive locked)
        (λ e. unchanged s),
  )
  step-IsKept dismiss s w passive locked =
      (dismiss_toast s, refl, record { mode_kept = refl; settings_kept = refl; clicks_kept = refl })
  step-IsKept (timeout t) s w passive locked = (
    fire_timeout t s,
    refl,
    if_either (IsKept s) (contains s.timers t)
        (λ e. record { mode_kept = refl; settings_kept = refl; clicks_kept = refl })
        (λ e. unchanged s),
  )
  step-IsKept lock_button s w passive locked = absurd passive
  step-IsKept (select m is_manual) s w passive locked = absurd passive
  step-IsKept (settings new) s w passive locked = absurd passive

  -- While the client is locked, or does not switch automatically, packets that are not enforced mode
  -- switches, dismissals and timeouts, in any number and order, leave its mode and its settings as
  -- they were, make no click and send nothing.
  pub run-IsKept :
      (es : List Event) (s : SmartContext) (w : W)
      → All IsPassive es
      → follows s ≡ false
      → (s' : SmartContext) × (run codec send es s w ≡ some (s', w)) × IsKept s s'
  run-IsKept [] s w passive locked = (s, refl, unchanged s)
  run-IsKept (e ∷ es) s w passive locked =
      let (s1, once, kept) = step-IsKept e s w passive.0 locked in
      let locked1 : follows s1 ≡ false =
        ap (λ t. t.auto_switch_enabled && not t.manual_override_lock) kept.settings_kept ∙ locked in
      let (s', rest, kept1) = run-IsKept es s1 w passive.1 locked1 in
      (
        s',
        rw (once, run) rest,
        record {
          mode_kept = kept1.mode_kept ∙ kept.mode_kept;
          settings_kept = kept1.settings_kept ∙ kept.settings_kept;
          clicks_kept = kept1.clicks_kept ∙ kept.clicks_kept;
        },
      )
