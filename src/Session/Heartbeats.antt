-- ===== src/Session/Heartbeats.antt =====
-- The interval of the heartbeat, over calls of connect and disconnect.
use lookauniversalremote.Prelude.{
  ℕ, ◌≡◌, refl, ◌∙◌, arith, Bool, true, false, List, [], ◌∷◌, Option, none, some, if_either,
}
use lookauniversalremote.Bridge.Incoming.{contains, delete}
use lookauniversalremote.Transport.State.{
  TransportState, disconnected, connected, TransportStats, is_state,
}
use lookauniversalremote.Session.{
  PairingSession, WebRtcHook, clear_interval, connect, disconnect, on_connected, on_connect_failed,
  on_transport_state, on_transport_stats, on_interval, stop_transport, send_heartbeat,
}

-- What happens between calls of connect and disconnect.
pub data Event (D : Type 0) : Type 0 where
  reports : ℕ → TransportState → Event D
  counts : ℕ → TransportStats D → Event D
  ticks : ℕ → Event D

-- A call of connect, what happens while it waits, and whether it succeeds; a call of disconnect; or
-- another event.
pub data Episode (D : Type 0) : Type 0 where
  connects : PairingSession → List (Event D) → Bool → Episode D
  leaves : Episode D
  meanwhile : Event D → Episode D

abbrev pub held : Option ℕ → List ℕ
held none = []
held (some t) = t ∷ []

cleared : (o : Option ℕ) → clear_interval o (held o) ≡ []
unfolding clear_interval delete
cleared none = refl
cleared (some t) = ground arith

module _ {D : Type 0} where
  abbrev pub happen : Event D → WebRtcHook D → WebRtcHook D
  happen (reports k st) s = on_transport_state k st s
  happen (counts now stats) s = on_transport_stats now stats s
  happen (ticks i) s = on_interval i s

  abbrev pub happen_all : List (Event D) → WebRtcHook D → WebRtcHook D
  happen_all [] s = s
  happen_all (e ∷ es) s = happen_all es (happen e s)

  abbrev pub settle : Bool → WebRtcHook D → WebRtcHook D
  settle true s = on_connected s
  settle false s = on_connect_failed s

  abbrev pub live : Episode D → WebRtcHook D → WebRtcHook D
  live (connects session es ok) s = settle ok (happen_all es (connect session s))
  live leaves s = disconnect s
  live (meanwhile e) s = happen e s

  abbrev pub live_all : List (Episode D) → WebRtcHook D → WebRtcHook D
  live_all [] s = s
  live_all (e ∷ es) s = live_all es (live e s)

  -- The active intervals are those that the ref holds, at most one; and the state that the telemetry
  -- shows is the hook's.
  pub record IsTidy (s : WebRtcHook D) : Type 0 where
    pub pending : s.intervals ≡ held s.heartbeat_timer_ref
    pub shown : s.telemetry.state ≡ s.state

  -- The timer and the intervals stay.
  record Keeps (s t : WebRtcHook D) : Type 0 where
    intervals : t.intervals ≡ s.intervals
    timer : t.heartbeat_timer_ref ≡ s.heartbeat_timer_ref
    next : t.next_interval ≡ s.next_interval
    shown : s.telemetry.state ≡ s.state → t.telemetry.state ≡ t.state

  send_heartbeat-Keeps : (b k : Option ℕ) (s : WebRtcHook D) → Keeps s (send_heartbeat b k s)
  send_heartbeat-Keeps none k s = record {
    intervals = refl;
    timer = refl;
    next = refl;
    shown = λ h. h;
  }
  send_heartbeat-Keeps (some b) none s = record {
    intervals = refl;
    timer = refl;
    next = refl;
    shown = λ h. h;
  }
  send_heartbeat-Keeps (some b) (some k) s =
      if_either (Keeps s) (is_state (s.transport_states k) connected)
        (λ e. record { intervals = refl; timer = refl; next = refl; shown = λ h. h })
        (λ e. record { intervals = refl; timer = refl; next = refl; shown = λ h. h })

  happen-Keeps : (e : Event D) (s : WebRtcHook D) → Keeps s (happen e s)
  unfolding on_transport_state on_transport_stats on_interval
  happen-Keeps (reports k st) s = record {
    intervals = refl;
    timer = refl;
    next = refl;
    shown = λ h. refl;
  }
  happen-Keeps (counts now stats) s = record {
    intervals = refl;
    timer = refl;
    next = refl;
    shown = λ h. h;
  }
  happen-Keeps (ticks i) s =
      if_either (Keeps s) (contains s.intervals i)
        (λ e. send_heartbeat-Keeps s.bridge_ref s.transport_ref s)
        (λ e. record { intervals = refl; timer = refl; next = refl; shown = λ h. h })

  happen-IsTidy : (e : Event D) (s : WebRtcHook D) → IsTidy s → IsTidy (happen e s)
  happen-IsTidy e s tidy =
      let k = happen-Keeps e s in
      record { pending = rw (k.intervals, k.timer) tidy.pending; shown = k.shown tidy.shown }

  stop_transport-Keeps : (o : Option ℕ) (s : WebRtcHook D) → Keeps s (stop_transport o s)
  unfolding stop_transport on_transport_state
  stop_transport-Keeps none s = record {
    intervals = refl;
    timer = refl;
    next = refl;
    shown = λ h. h;
  }
  stop_transport-Keeps (some k) s =
      if_either (Keeps s) (is_state (s.transport_states k) disconnected)
        (λ e. record { intervals = refl; timer = refl; next = refl; shown = λ h. h })
        (λ e. record { intervals = refl; timer = refl; next = refl; shown = λ h. refl })

  -- What `disconnect` makes of the interval and the ref.
  record IsStopped (s t : WebRtcHook D) : Type 0 where
    intervals : t.intervals ≡ clear_interval s.heartbeat_timer_ref s.intervals
    timer : t.heartbeat_timer_ref ≡ none
    next : t.next_interval ≡ s.next_interval
    shown : t.telemetry.state ≡ t.state

  disconnect-IsStopped : (s : WebRtcHook D) → IsStopped s (disconnect s)
  unfolding disconnect
  disconnect-IsStopped s =
      let k = stop_transport-Keeps s.transport_ref _ in
      record { intervals = k.intervals; timer = k.timer; next = k.next; shown = refl }

  connect-IsStopped : (p : PairingSession) (s : WebRtcHook D) → IsStopped s (connect p s)
  unfolding connect
  connect-IsStopped p s =
      let k = disconnect-IsStopped s in
      record { intervals = k.intervals; timer = k.timer; next = k.next; shown = refl }

  -- A tidy hook that is stopped has no interval and an empty ref, and events keep it so.
  record IsEmpty (s : WebRtcHook D) : Type 0 where
    none_left : s.intervals ≡ []
    timer : s.heartbeat_timer_ref ≡ none
    shown : s.telemetry.state ≡ s.state

  stopped-IsEmpty : (s t : WebRtcHook D) → IsTidy s → IsStopped s t → IsEmpty t
  stopped-IsEmpty s t tidy stop = record {
    none_left = stop.intervals ∙ rw tidy.pending (cleared s.heartbeat_timer_ref);
    timer = stop.timer;
    shown = stop.shown;
  }

  happen_all-IsEmpty :
      (es : List (Event D)) (s : WebRtcHook D) → IsEmpty s → IsEmpty (happen_all es s)
  happen_all-IsEmpty [] s h = h
  happen_all-IsEmpty (e ∷ es) s h =
      let k = happen-Keeps e s in
      happen_all-IsEmpty es (happen e s) (record {
        none_left = k.intervals ∙ h.none_left;
        timer = k.timer ∙ h.timer;
        shown = k.shown h.shown;
      })

  settle-IsTidy : (ok : Bool) (s : WebRtcHook D) → IsEmpty s → IsTidy (settle ok s)
  unfolding on_connected on_connect_failed
  settle-IsTidy true s h = record { pending = rw h.none_left refl; shown = h.shown }
  settle-IsTidy false s h = record { pending = rw (h.none_left, h.timer) refl; shown = refl }

  live-IsTidy : (e : Episode D) (s : WebRtcHook D) → IsTidy s → IsTidy (live e s)
  live-IsTidy (connects p es ok) s tidy = settle-IsTidy ok (happen_all es (connect p s)) (
      happen_all-IsEmpty es (connect p s)
        (stopped-IsEmpty s (connect p s) tidy (connect-IsStopped p s)))
  live-IsTidy leaves s tidy =
      let h = stopped-IsEmpty s (disconnect s) tidy (disconnect-IsStopped s) in
      record { pending = rw (h.none_left, h.timer) refl; shown = h.shown }
  live-IsTidy (meanwhile e) s tidy = happen-IsTidy e s tidy

  -- As long as each connect settles before connect or disconnect is called again, whatever happens
  -- and whether it succeeds, the browser has exactly the interval that the ref holds, or none, and
  -- the telemetry shows the state of the hook.
  pub live_all-IsTidy :
      (es : List (Episode D)) (s : WebRtcHook D) → IsTidy s → IsTidy (live_all es s)
  live_all-IsTidy [] s tidy = tidy
  live_all-IsTidy (e ∷ es) s tidy = live_all-IsTidy es (live e s) (live-IsTidy e s tidy)
