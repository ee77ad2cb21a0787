-- ===== src/Context/Toasts.antt =====
-- Sequences of events on the hook: the toast and its timeout, and the manual lock.
use lookauniversalremote.Prelude.{
  ℕ, suc, ◌==◌, ◌≡◌, refl, ap, sym, ◌∙◌, arith, Bool, true, false, ◌||◌, ◌&&◌, not, pos,
  if◌then◌else◌, List, [], ◌∷◌, ◌++◌, Option, none, some, if_either,
}
use lookauniversalremote.Protocol.Constants.{mode_code, is_manual_override}
use lookauniversalremote.Protocol.Types.{
  ModeSwitchPayload, MessagePayload, motion, mode_switch, Packet,
}
use lookauniversalremote.Protocol.View.{TextCodec}
use lookauniversalremote.Bridge.{Bridge}
use lookauniversalremote.Bridge.Incoming.{contains, delete}
use lookauniversalremote.Bridge.Send.{IsReady, Request, after}
use lookauniversalremote.Bridge.Send.Stream.{request_frame, send_mode_switch-frame, after-IsReady}
use lookauniversalremote.Context.{
  InputMode, input_mode_to_target_mode, target_mode_to_input_mode, SmartContext, ContextSettings,
  handle_packet, on_mode_switch, enforced, select_mode, dismiss_toast, trigger_toast, fire_timeout,
  toggle_manual_lock, clear_timeout, is_other_mode,
}

-- What can happen to the hook: a packet at a time, a dismissal by the user, a timeout of the
-- browser, the lock's button, a selected mode, a change of the settings.
pub data Event : Type 0 where
  packet : ℕ → Packet → Event
  dismiss : Event
  timeout : ℕ → Event
  lock_button : Event
  select : InputMode → Bool → Event
  settings : ContextSettings → Event

-- The pending timeouts are the one that the reference holds, if any, and a toast is shown exactly
-- while it is pending.
abbrev pub held : Option ℕ → List ℕ
held none = []
held (some t) = t ∷ []

abbrev pub is_some {ℓ} : {A : Type ℓ} → Option A → Bool
is_some none = false
is_some (some a) = true

-- The bridge, where there is one, can send.
abbrev pub IsUsable : Option Bridge → Type 0
IsUsable none = Unit
IsUsable (some b) = IsReady b

pub record IsTidy (s : SmartContext) : Type 0 where
  pub pending : s.timers ≡ held s.toast_timeout
  pub shown : is_some s.toast ≡ is_some s.toast_timeout
  pub usable : IsUsable s.bridge

cleared : (r : Option ℕ) → clear_timeout r (held r) ≡ []
unfolding clear_timeout delete
cleared none = refl
cleared (some t) = ground arith

dismiss_toast-IsTidy : (s : SmartContext) → IsTidy s → IsTidy (dismiss_toast s)
unfolding dismiss_toast
dismiss_toast-IsTidy s tidy = record {
  pending = ap (clear_timeout s.toast_timeout) tidy.pending ∙ cleared s.toast_timeout;
  shown = refl;
  usable = tidy.usable;
}

trigger_toast-IsTidy :
    (now : ℕ) (m : InputMode) (e : Bool) (s : SmartContext)
    → IsTidy s
    → IsTidy (trigger_toast now m e s)
unfolding trigger_toast
trigger_toast-IsTidy now m e s tidy =
    if_either IsTidy (not s.settings.smart_context_toast_enabled) (λ off. tidy)
      (λ on. record {
        pending =
            ap (λ ts. ts ++ s.next_timer ∷ [])
              (ap (clear_timeout s.toast_timeout) tidy.pending ∙ cleared s.toast_timeout);
        shown = refl;
        usable = tidy.usable;
      })

fired : (t : ℕ) (r : Option ℕ) → contains (held r) t ≡ true → delete t (held r) ≡ []
unfolding contains delete
fired t none h = refl
fired t (some u) h = ground arith

fire_timeout-IsTidy : (t : ℕ) (s : SmartContext) → IsTidy s → IsTidy (fire_timeout t s)
unfolding fire_timeout
fire_timeout-IsTidy t s tidy =
    if_either IsTidy (contains s.timers t)
      (λ found. record {
        pending =
            ap (delete t) tidy.pending
            ∙ fired t s.toast_timeout (ap (λ ts. contains ts t) (sym tidy.pending) ∙ found);
        shown = refl;
        usable = tidy.usable;
      })
      (λ missing. tidy)

on_mode_switch-IsTidy :
    (now : ℕ) (p : ModeSwitchPayload) (s : SmartContext)
    → IsTidy s
    → IsTidy (on_mode_switch now p s)
unfolding on_mode_switch
on_mode_switch-IsTidy now p s tidy =
    let new_mode = target_mode_to_input_mode p.target_mode in
    let t = record s { last_detected_mode = new_mode } in
    let moved = record t { active_input_mode = new_mode } in
    let noted : IsTidy t = record {
      pending = tidy.pending;
      shown = tidy.shown;
      usable = tidy.usable;
    } in
    let toasted =
      trigger_toast-IsTidy now new_mode (enforced p) moved
        (record { pending = tidy.pending; shown = tidy.shown; usable = tidy.usable }) in
    let can =
      enforced p || (s.settings.auto_switch_enabled && not s.settings.manual_override_lock) in
    let other = is_other_mode new_mode s.active_input_mode in
    let switched : IsTidy (
        if other
        then (let u = trigger_toast now new_mode (enforced p) moved in
            record u { clicks = suc u.clicks })
        else t) =
      if_either IsTidy other
        (λ e. record { pending = toasted.pending; shown = toasted.shown; usable = toasted.usable })
        (λ e. noted) in
    if_either IsTidy can (λ e. switched) (λ e. noted)

payload-IsTidy :
    (now : ℕ) (p : MessagePayload) (s : SmartContext)
    → IsTidy s
    → IsTidy (elim p [ mode_switch q ↦ on_mode_switch now q s | _ ↦ s ])
payload-IsTidy now (mode_switch q) s tidy = on_mode_switch-IsTidy now q s tidy
payload-IsTidy now (motion q) s tidy = tidy
payload-IsTidy now _ s tidy = tidy

handle_packet-IsTidy :
    (now : ℕ) (p : Packet) (s : SmartContext) → IsTidy s → IsTidy (handle_packet now p s)
unfolding handle_packet
handle_packet-IsTidy now p s tidy =
    if_either IsTidy (p.header.type == 7) (λ e. payload-IsTidy now p.payload s tidy) (λ e. tidy)

module _ (codec : TextCodec) {W : Type 0} (send : W → List ℕ → W × Bool) where
  unfoldable pub step : Event → SmartContext → W → Option (SmartContext × W)
  step (packet now p) s w = some (handle_packet now p s, w)
  step dismiss s w = some (dismiss_toast s, w)
  step (timeout t) s w = some (fire_timeout t s, w)
  step lock_button s w = some (toggle_manual_lock s, w)
  step (select m is_manual) s w = select_mode codec send m is_manual s w
  step (settings new) s w = some (record s { settings = new }, w)

  -- The events in order; `none` is an error of the encoder.
  abbrev pub run : List Event → SmartContext → W → Option (SmartContext × W)
  run [] s w = some (s, w)
  run (e ∷ es) s w = elim (step e s w) [ none ↦ none | some (s', w') ↦ run es s' w' ]

  selected :
      (bridge : Option Bridge) (m : InputMode) (is_manual : Bool) (s : SmartContext) (w : W)
      → IsUsable bridge
      → IsTidy s
      → (s' : SmartContext) × (w' : W) × (select_mode codec send m is_manual
            (record s { bridge = bridge })
            w
          ≡ some (s', w'))
        × IsTidy s'
  unfolding select_mode
  selected none m is_manual s w usable tidy = (
    record s { bridge = none; active_input_mode = m },
    w,
    refl,
    record { pending = tidy.pending; shown = tidy.shown; usable = usable },
  )
  selected (some b) m is_manual s w usable tidy =
      let p : ModeSwitchPayload = record {
        target_mode = pos (mode_code (input_mode_to_target_mode m));
        flags = pos (if is_manual then is_manual_override else 0);
      } in
      let bytes = request_frame codec send b (Request.mode_switch p (pos 0)) in
      (
        record s { bridge = some (after codec send b bytes); active_input_mode = m },
        (send w bytes).0,
        rw (send_mode_switch-frame codec send b w usable p (pos 0), select_mode) refl,
        record {
          pending = tidy.pending;
          shown = tidy.shown;
          usable = after-IsReady codec send b bytes usable;
        },
      )

  step-IsTidy :
      (e : Event) (s : SmartContext) (w : W)
      → IsTidy s
      → (s' : SmartContext) × (w' : W) × (step e s w ≡ some (s', w')) × IsTidy s'
  unfolding step toggle_manual_lock
  step-IsTidy (packet now p) s w tidy =
      (handle_packet now p s, w, refl, handle_packet-IsTidy now p s tidy)
  step-IsTidy dismiss s w tidy = (dismiss_toast s, w, refl, dismiss_toast-IsTidy s tidy)
  step-IsTidy (timeout t) s w tidy = (fire_timeout t s, w, refl, fire_timeout-IsTidy t s tidy)
  step-IsTidy lock_button s w tidy = (
    toggle_manual_lock s,
    w,
    refl,
    record { pending = tidy.pending; shown = tidy.shown; usable = tidy.usable },
  )
  step-IsTidy (select m is_manual) s w tidy = selected s.bridge m is_manual s w tidy.usable tidy
  step-IsTidy (settings new) s w tidy = (
    record s { settings = new },
    w,
    refl,
    record { pending = tidy.pending; shown = tidy.shown; usable = tidy.usable },
  )

  -- Whatever happens to the hook, in any order, nothing throws, and afterwards at most one timeout
  -- is pending, it is the one that the reference holds, and a toast is shown exactly while it is
  -- pending: a toast never outlives its timeout and no old timeout takes a newer toast away.
  pub run-IsTidy :
      (es : List Event) (s : SmartContext) (w : W)
      → IsTidy s
      → (s' : SmartContext) × (w' : W) × (run es s w ≡ some (s', w')) × IsTidy s'
  run-IsTidy [] s w tidy = (s, w, refl, tidy)
  run-IsTidy (e ∷ es) s w tidy =
      let (s1, w1, once, tidy1) = step-IsTidy e s w tidy in
      let (s', w', rest, tidy') = run-IsTidy es s1 w1 tidy1 in (s', w', rw (once, run) rest, tidy')
