-- ===== src/Motion/Attached.antt =====
-- The pipeline listens to the device exactly while it runs.
use lookauniversalremote.Prelude.{◌≡◌, refl, arith, Bool, true, false, not, if_either}
use lookauniversalremote.Motion.{
  ImuPermissionStatus, unsupported, granted, denied, listening, error, Platform, no_window,
  no_motion_event, asking, free, ImuSensorPipeline,
}
use lookauniversalremote.Motion.Pipeline.{
  is_status, Response, grants, refuses, fails, set_status, request_permission, has_device_motion,
  start, stop,
}

pub undo_not : (b : Bool) → not b ≡ false → b ≡ true
undo_not true e = refl
undo_not false e = absurd cc

detached-false :
    (x : Platform) (b : Bool)
    → has_device_motion x ≡ true
    → (elim x [ no_window ↦ b | _ ↦ false ]) ≡ false
detached-false no_window b e = absurd cc
detached-false no_motion_event b e = refl
detached-false asking b e = refl
detached-false free b e = refl

module _ {D : Type 0} where
  pub record IsAttached (p : ImuSensorPipeline D) : Type 0 where
    pub attached : p.attached ≡ p.is_running
    pub running : is_status p.status listening ≡ true → p.is_running ≡ true
    pub window : p.is_running ≡ true → has_device_motion p.platform ≡ true

  -- The listeners of samples and the identity of the next one stay.
  pub record Keeps (p q : ImuSensorPipeline D) : Type 0 where
    pub listeners : q.listeners ≡ p.listeners
    pub next : q.next_listener ≡ p.next_listener

  set_status-Keeps :
      (new : ImuPermissionStatus) (p : ImuSensorPipeline D) → Keeps p (set_status new p)
  unfolding set_status
  set_status-Keeps new p =
      if_either (Keeps p) (is_status p.status new) (λ e. record { listeners = refl; next = refl })
        (λ e. record { listeners = refl; next = refl })

  -- A status other than `listening` can be set at any time.
  set_status-IsAttached :
      (new : ImuPermissionStatus) (p : ImuSensorPipeline D)
      → is_status new listening ≡ false
      → IsAttached p
      → IsAttached (set_status new p)
  unfolding set_status
  set_status-IsAttached new p other ok =
      if_either IsAttached (is_status p.status new) (λ e. ok)
        (λ e. record {
          attached = ok.attached;
          running = λ h. absurd (ground arith);
          window = ok.window;
        })

  attached_listening :
      (p : ImuSensorPipeline D)
      → has_device_motion p.platform ≡ true
      → IsAttached (set_status listening (record p { attached = true; is_running = true }))
  unfolding set_status
  attached_listening p window =
      if_either IsAttached (is_status p.status listening)
        (λ e. record { attached = refl; running = λ h. refl; window = λ h. window })
        (λ e. record { attached = refl; running = λ h. refl; window = λ h. window })

  -- Asking for permission sets a status other than `listening`.
  request_permission-cases :
      (P : ImuSensorPipeline D → Type 0) (a : Response) (p : ImuSensorPipeline D)
      → ((new : ImuPermissionStatus) → is_status new listening ≡ false → P (set_status new p))
      → P (request_permission a p).0
  unfolding request_permission
  request_permission-cases P a p set = go p.platform a set
    where
      go :
          (x : Platform) (a : Response)
          → let q = record p { platform = x } in
            ((new : ImuPermissionStatus) → is_status new listening ≡ false → P (set_status new q))
            → P (request_permission a q).0
      go no_window a set = set unsupported refl
      go no_motion_event a set = set granted refl
      go asking grants set = set granted refl
      go asking refuses set = set denied refl
      go asking fails set = set error refl
      go free a set = set granted refl

  -- Starting keeps the pipeline, sets a status other than `listening`, or attaches the handler.
  start-cases :
      (P : ImuSensorPipeline D → Type 0) (p : ImuSensorPipeline D)
      → P p
      → ((new : ImuPermissionStatus) → is_status new listening ≡ false → P (set_status new p))
      → (has_device_motion p.platform ≡ true
          → P (set_status listening (record p { attached = true; is_running = true })))
      → P (start p).0
  unfolding start
  start-cases P p same set attach =
      if_either (λ (r : ImuSensorPipeline D × Bool). P r.0) p.is_running (λ e. same)
        λ e.
          if_either (λ (r : ImuSensorPipeline D × Bool). P r.0) (not (has_device_motion p.platform))
            (λ e. set unsupported refl)
            λ window.
              if_either (λ (r : ImuSensorPipeline D × Bool). P r.0) (is_status p.status denied)
                (λ e. same)
                λ e.
                  if_either (λ (r : ImuSensorPipeline D × Bool). P r.0)
                    (is_status p.status unsupported) (λ e. same)
                    λ e.
                      if_either (λ (r : ImuSensorPipeline D × Bool). P r.0) p.attachable
                        (λ e. attach (undo_not _ window)) (λ e. set error refl)

  pub request_permission-Keeps :
      (a : Response) (p : ImuSensorPipeline D) → Keeps p (request_permission a p).0
  request_permission-Keeps a p =
      request_permission-cases (Keeps p) a p (λ new e. set_status-Keeps new p)

  pub request_permission-IsAttached :
      (a : Response) (p : ImuSensorPipeline D)
      → IsAttached p
      → IsAttached (request_permission a p).0
  request_permission-IsAttached a p ok =
      request_permission-cases IsAttached a p (λ new e. set_status-IsAttached new p e ok)

  pub start-Keeps : (p : ImuSensorPipeline D) → Keeps p (start p).0
  start-Keeps p =
      start-cases (Keeps p) p (record { listeners = refl; next = refl })
        (λ new e. set_status-Keeps new p)
        (λ window.
          let k = set_status-Keeps listening (record p { attached = true; is_running = true }) in
          record { listeners = k.listeners; next = k.next })

  pub start-IsAttached : (p : ImuSensorPipeline D) → IsAttached p → IsAttached (start p).0
  start-IsAttached p ok =
      start-cases IsAttached p ok (λ new e. set_status-IsAttached new p e ok)
        λ window. attached_listening p window

  -- The pipeline when `stop` has removed the handler.
  abbrev detached : ImuSensorPipeline D → ImuSensorPipeline D
  detached p = record p {
    attached = elim p.platform [ no_window ↦ p.attached | _ ↦ false ];
    is_running = false;
  }

  stop-cases :
      (P : ImuSensorPipeline D → Type 0) (p : ImuSensorPipeline D)
      → P p
      → (p.is_running ≡ true → P (set_status granted (detached p)))
      → (p.is_running ≡ true → is_status p.status listening ≡ false → P (detached p))
      → P (stop p)
  unfolding stop
  stop-cases P p same set keep =
      if_either P (not p.is_running) (λ e. same)
        λ e.
          if_either P (is_status p.status listening) (λ h. set (undo_not _ e))
            (λ h. keep (undo_not _ e) h)

  pub stop-Keeps : (p : ImuSensorPipeline D) → Keeps p (stop p)
  stop-Keeps p =
      stop-cases (Keeps p) p (record { listeners = refl; next = refl })
        (λ run.
          let k = set_status-Keeps granted (detached p) in
          record { listeners = k.listeners; next = k.next })
        (λ run h. record { listeners = refl; next = refl })

  set_granted-IsAttached :
      (p : ImuSensorPipeline D)
      → p.attached ≡ false
      → p.is_running ≡ false
      → IsAttached (set_status granted p)
  unfolding set_status
  set_granted-IsAttached p off halted =
      if_either IsAttached (is_status p.status granted)
        (λ e. record {
          attached = cc;
          running = λ h. absurd (ground arith);
          window = λ h. absurd cc;
        })
        (λ e. record { attached = cc; running = λ h. absurd cc; window = λ h. absurd cc })

  pub stop-IsAttached : (p : ImuSensorPipeline D) → IsAttached p → IsAttached (stop p)
  stop-IsAttached p ok =
      stop-cases IsAttached p ok
        (λ run.
          set_granted-IsAttached (detached p) (detached-false p.platform p.attached (ok.window run))
            refl)
        (λ run h. record {
          attached = detached-false p.platform p.attached (ok.window run);
          running = λ e. absurd cc;
          window = λ e. absurd cc;
        })
