-- ===== src/Tests/Signaling.antt =====
-- The signaling client, instantiated with numbers for messages.
use lookauniversalremote.Prelude.{ℕ, ◌≡◌, refl, true, false, [], ◌∷◌, ◌++◌, map, none, some}
use lookauniversalremote.Signaling.{
  SignalingClient, connecting, opened, is_open, is_connected, on_open, on_close, status_call,
}
use lookauniversalremote.Signaling.Queue.{send_all, frames, on_open-send_all}
use lookauniversalremote.Signaling.Late.{on_close-late}

abbrev dialling : SignalingClient ℕ
dialling = record {
  options = record {
    auto_reconnect = none;
    max_reconnect_attempts = none;
    reconnect_interval_ms = none;
  };
  ws = some 1;
  message_queue = 10 ∷ [];
  message_handlers = [];
  status_handlers = 5 ∷ [];
  is_connecting = true;
  is_explicitly_closed = false;
  reconnect_attempts = 0;
  ping_timer = some 3;
  ready = λ k. connecting;
  next_socket = 2;
  sent = [];
  pings = [];
  next_timer = 4;
  reconnects = [];
}

on_open-send_all_example :
    let s' = (on_open 1 (send_all (11 ∷ 12 ∷ []) dialling)).0 in
    (s'.sent ≡ [] ++ frames 1 (10 ∷ 11 ∷ 12 ∷ [])) × (s'.message_queue ≡ [])
unfolding is_connected is_open
on_open-send_all_example = on_open-send_all 1 (11 ∷ 12 ∷ []) dialling refl refl

abbrev connected_client : SignalingClient ℕ
connected_client = record dialling { ready = λ k. opened }

on_close-late_example :
    let (s', calls) = on_close 0 connected_client in
    (is_connected s' ≡ true)
    × (s'.ping_timer ≡ none)
    × (calls ≡ map (λ h. status_call h false) (5 ∷ []))
unfolding is_open
on_close-late_example = on_close-late 1 0 connected_client refl refl refl
