-- ===== src/Signaling/Late.antt =====
-- The close event of a socket that has been replaced.
use lookauniversalremote.Prelude.{
  ℕ, ◌≡◌, refl, ap, ◌∙◌, arith, ◌==◌, leb, if◌then◌else◌, if_either, Bool, true, false, not, ◌&&◌,
  map, none, some,
}
use lookauniversalremote.Signaling.{
  SignalingClient, closed, is_open, is_connected, on_close, schedule_reconnect, stop_ping_interval,
  status_call, notify_status,
}

module _ {M : Type 0} where
  -- What a scheduled reconnection leaves as it was.
  pub record IsSameConnection (s t : SignalingClient M) : Type 0 where
    pub socket : t.ws ≡ s.ws
    pub states : t.ready ≡ s.ready
    pub ping : t.ping_timer ≡ s.ping_timer

  schedule_reconnect-IsSameConnection :
      (s : SignalingClient M) → IsSameConnection s (schedule_reconnect s)
  unfolding schedule_reconnect
  schedule_reconnect-IsSameConnection s =
      let max_attempts : ℕ = elim s.options.max_reconnect_attempts [ none ↦ 5 | some n ↦ n ] in
      if_either (IsSameConnection s) (leb max_attempts s.reconnect_attempts)
        (λ full. record { socket = refl; states = refl; ping = refl })
        (λ again. record { socket = refl; states = refl; ping = refl })

  stopped :
      (s : SignalingClient M)
      → ((stop_ping_interval s).ping_timer ≡ none)
        × ((stop_ping_interval s).ws ≡ s.ws)
        × ((stop_ping_interval s).ready ≡ s.ready)
        × ((stop_ping_interval s).status_handlers ≡ s.status_handlers)
  unfolding stop_ping_interval
  stopped s = ground arith

  connected :
      (j : ℕ) (s : SignalingClient M)
      → s.ws ≡ some j
      → is_open (s.ready j) ≡ true
      → is_connected s ≡ true
  unfolding is_connected
  connected j s current on = rw current on

  -- A close event of another socket than the connected one, such as the one that `close` has let go,
  -- leaves the client connected, but without its ping interval, and tells every status listener
  -- that it is not connected.
  pub on_close-late :
      (j k : ℕ) (s : SignalingClient M)
      → s.ws ≡ some j
      → is_open (s.ready j) ≡ true
      → (j == k) ≡ false
      → let (s', calls) = on_close k s in
        (is_connected s' ≡ true)
        × (s'.ping_timer ≡ none)
        × (calls ≡ map (λ h. status_call h false) s.status_handlers)
  unfolding on_close is_connected notify_status
  on_close-late j k s current on other =
      let t = record s {
        ready = λ i. if i == k then closed else s.ready i;
        is_connecting = false;
      } in
      let (no_ping, socket, states, handlers) = stopped t in
      let u = stop_ping_interval t in
      let reconnecting : Bool = elim u.options.auto_reconnect [ none ↦ true | some b ↦ b ] in
      let again = not u.is_explicitly_closed && reconnecting in
      let kept : IsSameConnection u (if again then schedule_reconnect u else u) =
        if_either (IsSameConnection u) again (λ e. schedule_reconnect-IsSameConnection u)
          (λ e. record { socket = refl; states = refl; ping = refl }) in
      let still_open : is_open (t.ready j) ≡ true = rw other on in
      (
        connected j (if again then schedule_reconnect u else u) (kept.socket ∙ socket ∙ current)
            (ap (λ f. is_open (f j)) (kept.states ∙ states) ∙ still_open),
        kept.ping ∙ no_ping,
        ap (map (λ h. status_call h false)) handlers,
      )
