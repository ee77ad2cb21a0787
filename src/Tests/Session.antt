-- ===== src/Tests/Session.antt =====
-- The hook that makes the transport, instantiated.
use lookauniversalremote.Prelude.{ℕ, refl, true, false, pos, List, [], ◌∷◌, none}
use lookauniversalremote.Transport.State.{TransportState}
use lookauniversalremote.Connection.{new_manager}
use lookauniversalremote.Session.{PairingSession, WebRtcHook, AppConnectionState, initial_telemetry}
use lookauniversalremote.Session.Heartbeats.{Episode, Event, IsTidy, live_all, live_all-IsTidy}

abbrev fresh : WebRtcHook ℕ
fresh = record {
  state = AppConnectionState.idle;
  telemetry = initial_telemetry 0;
  transport_ref = none;
  bridge_ref = none;
  heartbeat_timer_ref = none;
  last_sent = 0;
  last_ts = 0;
  manager = new_manager;
  next_transport = 0;
  transport_states = λ k. TransportState.disconnected;
  intervals = [];
  next_interval = 1;
  heartbeats = [];
  destroyed = [];
}

-- The host tv, and the session a.
abbrev session : PairingSession
session = record { host = 116 ∷ 118 ∷ []; port = pos 8765; session_id = 97 ∷ [] }

abbrev evening : List (Episode ℕ)
evening =
    Episode.connects session
      (Event.reports 0 TransportState.connecting ∷ Event.reports 0 TransportState.connected ∷ [])
      true
    ∷ Episode.meanwhile (Event.ticks 1)
    ∷ Episode.leaves
    ∷ Episode.connects session [] false
    ∷ []

fresh-IsTidy : IsTidy fresh
unfolding initial_telemetry
fresh-IsTidy = record { pending = refl; shown = refl }

live_all-IsTidy_example : IsTidy (live_all evening fresh)
live_all-IsTidy_example = live_all-IsTidy evening fresh fresh-IsTidy
