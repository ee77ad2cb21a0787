-- ===== src/Session.antt =====
-- apps/web-client/src/features/connection/useWebRtc.ts and ConnectionState.ts: the hook that makes a
-- transport and a bridge for a session and keeps the heartbeat. A transport and the bridge on it are
-- named by one number; what the transport reports is an event. The callback of the round trip
-- time, which hands it on to the transport, is left out.
pub mod Heartbeats
use lookauniversalremote.Prelude.{
  ℕ, suc, ◌+◌, ◌-◌, ◌*◌, ◌/◌, ◌==◌, ltb, leb, if◌then◌else◌, Bool, true, false, ℤ, pos, List, [],
  ◌∷◌, ◌++◌, Option, none, some,
}
use lookauniversalremote.Protocol.Types.{Text}
use lookauniversalremote.Bridge.Incoming.{contains, delete}
use lookauniversalremote.Transport.State.{TransportState, is_state, TransportStats}
use lookauniversalremote.Connection.{HostConnectionManager, set_active_host}
use lookauniversalremote.Connection.Texts.{text_of_port}

pub data AppConnectionState : Type 0 where
  idle scanning pairing connecting connected reconnecting degraded error disconnected :
      AppConnectionState

-- The rate of packets is a whole number.
pub record TelemetryData (D : Type 0) : Type 0 where
  pub rtt_ms : D
  pub jitter_ms : D
  pub packets_sent : ℕ
  pub packets_received : ℕ
  pub pps : ℕ
  pub bytes_sent : ℕ
  pub bytes_received : ℕ
  pub watchdog_active : Bool
  pub state : AppConnectionState
  pub host_ip : Option Text
  pub session_id : Option Text

-- What the hook reads of a `PairingSession`.
pub record PairingSession : Type 0 where
  pub host : Text
  pub port : ℤ
  pub session_id : Text

-- The refs and the state, but for `activeBridge` and `activeTransport`, which are set with the refs;
-- with the active intervals of the browser, the states of the transports and
-- what was done to them: the heartbeats sent, by bridge, and the bridges destroyed.
pub record WebRtcHook (D : Type 0) : Type 0 where
  pub state : AppConnectionState
  pub telemetry : TelemetryData D
  pub transport_ref : Option ℕ
  pub bridge_ref : Option ℕ
  pub heartbeat_timer_ref : Option ℕ
  pub last_sent : ℕ
  pub last_ts : ℕ
  pub manager : HostConnectionManager
  pub next_transport : ℕ
  pub transport_states : ℕ → TransportState
  pub intervals : List ℕ
  pub next_interval : ℕ
  pub heartbeats : List ℕ
  pub destroyed : List ℕ

-- The translation in the state handler.
unfoldable pub app_state : TransportState → AppConnectionState
app_state TransportState.disconnected = disconnected
app_state TransportState.connecting = connecting
app_state TransportState.connected = connected
app_state TransportState.reconnecting = reconnecting
app_state TransportState.failed = error

-- `clearInterval`.
unfoldable pub clear_interval : Option ℕ → List ℕ → List ℕ
unfolding delete
clear_interval none is = is
clear_interval (some t) is = delete t is

-- `Math.round(sentDelta / deltaSec)` after at least a second, where it is positive.
unfoldable pub packet_rate : ℕ → ℕ → ℕ → ℕ
packet_rate sent last ms = if leb 1000 ms then (2 * (1000 * (sent - last)) + ms) / (2 * ms) else 0

-- `bridge.destroy()`.
abbrev pub destroy_bridge : Option ℕ → List ℕ → List ℕ
destroy_bridge none bs = bs
destroy_bridge (some b) bs = bs ++ b ∷ []

module _ {D : Type 0} where
  unfoldable pub initial_telemetry : D → TelemetryData D
  initial_telemetry zero_ms = record {
    rtt_ms = zero_ms;
    jitter_ms = zero_ms;
    packets_sent = 0;
    packets_received = 0;
    pps = 0;
    bytes_sent = 0;
    bytes_received = 0;
    watchdog_active = false;
    state = idle;
    host_ip = none;
    session_id = none;
  }

  -- `setState` and the same state in the telemetry.
  abbrev pub show : AppConnectionState → WebRtcHook D → WebRtcHook D
  show st s = record s { state = st; telemetry = record s.telemetry { state = st } }

  -- The state handler that `connect` gives to the transport `k`.
  unfoldable pub on_transport_state : ℕ → TransportState → WebRtcHook D → WebRtcHook D
  unfolding app_state
  on_transport_state k new s = record s {
    transport_states = λ j. if j == k then new else s.transport_states j;
    state = app_state new;
    telemetry = record s.telemetry {
      state = app_state new;
      watchdog_active = is_state new TransportState.connected;
    };
  }

  -- The statistics handler of a transport, at time `now`.
  unfoldable pub on_transport_stats : ℕ → TransportStats D → WebRtcHook D → WebRtcHook D
  unfolding packet_rate
  on_transport_stats now stats s =
      let pps = packet_rate stats.packets_sent s.last_sent (now - s.last_ts) in
      let due = leb 1000 (now - s.last_ts) in
      record s {
        last_sent = if due then stats.packets_sent else s.last_sent;
        last_ts = if due then now else s.last_ts;
        telemetry = record s.telemetry {
          rtt_ms = stats.rtt_ms;
          jitter_ms = stats.jitter_ms;
          packets_sent = stats.packets_sent;
          packets_received = stats.packets_received;
          bytes_sent = stats.bytes_sent;
          bytes_received = stats.bytes_received;
          pps = if ltb 0 pps then pps else s.telemetry.pps;
        };
      }

  -- `transport.disconnect()`, which reports the state if it is a new one.
  unfoldable pub stop_transport : Option ℕ → WebRtcHook D → WebRtcHook D
  unfolding on_transport_state
  stop_transport none s = s
  stop_transport (some k) s =
      if is_state (s.transport_states k) TransportState.disconnected
      then s
      else on_transport_state k TransportState.disconnected s

  unfoldable pub disconnect : WebRtcHook D → WebRtcHook D
  unfolding clear_interval stop_transport
  disconnect s =
      let t = record s {
        intervals = clear_interval s.heartbeat_timer_ref s.intervals;
        heartbeat_timer_ref = none;
        destroyed = destroy_bridge s.bridge_ref s.destroyed;
        bridge_ref = none;
      } in
      show disconnected (record (stop_transport t.transport_ref t) { transport_ref = none })

  -- Up to `await transport.connect()`.
  unfoldable pub connect : PairingSession → WebRtcHook D → WebRtcHook D
  unfolding disconnect set_active_host
  connect session s =
      let t = disconnect s in
      record t {
        manager = set_active_host session.host session.port;
        state = connecting;
        telemetry = record t.telemetry {
          state = connecting;
          host_ip = some (session.host ++ 58 ∷ text_of_port session.port);
          session_id = some session.session_id;
        };
        transport_ref = some t.next_transport;
        bridge_ref = some t.next_transport;
        next_transport = suc t.next_transport;
      }

  -- After it: the interval of the heartbeat, or the error.
  unfoldable pub on_connected : WebRtcHook D → WebRtcHook D
  on_connected s = record s {
    intervals = s.intervals ++ s.next_interval ∷ [];
    heartbeat_timer_ref = some s.next_interval;
    next_interval = suc s.next_interval;
  }

  unfoldable pub on_connect_failed : WebRtcHook D → WebRtcHook D
  on_connect_failed s = show error s

  -- The callback of the interval `i`, which the browser runs while it is active.
  abbrev pub send_heartbeat : Option ℕ → Option ℕ → WebRtcHook D → WebRtcHook D
  send_heartbeat (some b) (some k) s =
      if is_state (s.transport_states k) TransportState.connected
      then record s { heartbeats = s.heartbeats ++ b ∷ [] }
      else s
  send_heartbeat _ _ s = s

  unfoldable pub on_interval : ℕ → WebRtcHook D → WebRtcHook D
  unfolding contains
  on_interval i s =
      if contains s.intervals i then send_heartbeat s.bridge_ref s.transport_ref s else s
