-- ===== src/Transport/State.antt =====
-- WebRtcTransport.ts and ITransport.ts: the state of the transport and the browser's part of it.
use lookauniversalremote.Prelude.{
  ℕ, ◌*◌, ◌^◌, ◌==◌, leb, if◌then◌else◌, Bool, true, false, pos, List, [], Option, none,
}
use lookauniversalremote.Prelude.Ratio.{Ratio}
use lookauniversalremote.Protocol.Types.{Text}
use lookauniversalremote.Signaling.{SignalingClient}

pub data TransportState : Type 0 where
  disconnected connecting connected reconnecting failed : TransportState

abbrev pub state_code : TransportState → ℕ
state_code disconnected = 0
state_code connecting = 1
state_code connected = 2
state_code reconnecting = 3
state_code failed = 4

-- `===` on states.
abbrev pub is_state : TransportState → TransportState → Bool
is_state a b = state_code a == state_code b

-- `SignalingMessage`, and `RTCIceCandidateInit`.
pub record Candidate : Type 0 where
  pub candidate : Text
  pub sdp_mid : Option Text
  pub sdp_mline_index : Option ℕ

pub data SignalingMessage : Type 0 where
  offer answer : Text → SignalingMessage
  ice_candidate : Candidate → SignalingMessage
  ping pong : SignalingMessage
  state_message error_message : Text → SignalingMessage

-- The numbers of milliseconds that are not whole are floats, of the type `D`.
pub record TransportStats (D : Type 0) : Type 0 where
  pub rtt_ms : D
  pub packets_sent : ℕ
  pub packets_received : ℕ
  pub bytes_sent : ℕ
  pub bytes_received : ℕ
  pub jitter_ms : D
  pub packet_loss_ratio : D
  pub last_heartbeat_ts : ℕ

-- Float operations: `x === 0`, `Math.abs(x - y)`, and `x * 0.8 + y * 0.2`.
pub record Millis (D : Type 0) : Type 0 where
  pub nought : D
  pub is_nought : D → Bool
  pub distance : D → D → D
  pub smooth : D → D → D

-- A call of a handler; the handlers are named by numbers.
pub data Call (D : Type 0) : Type 0 where
  state_call : ℕ → TransportState → Call D
  data_call : ℕ → List ℕ → Call D
  error_call : ℕ → Call D
  stats_call : ℕ → TransportStats D → Call D

pub data ChannelState : Type 0 where
  opening opened closing closed : ChannelState

unfoldable pub is_open : ChannelState → Bool
is_open opened = true
is_open _ = false

-- What `close` makes of it.
abbrev pub close_state : ChannelState → ChannelState
close_state closed = closed
close_state _ = closing

-- The last fields, from `channels` on, are the browser's and the log: the state of each data channel, the numbers
-- of peer connections and channels, what was sent on which channel, whether the current peer
-- connection has a remote description and with which candidates its addIceCandidate was called, in order, the delays of the pending
-- reconnections, the signaling clients that were closed and let go, and the calls of handlers.
pub record WebRtcTransport (D : Type 0) : Type 0 where
  pub max_reconnect_attempts : Option ℕ
  pub state : TransportState
  pub pc : Option ℕ
  pub data_channel : Option ℕ
  pub signaling : Option (SignalingClient SignalingMessage)
  pub state_handlers : List ℕ
  pub data_handlers : List ℕ
  pub error_handlers : List ℕ
  pub stats_handlers : List ℕ
  pub stats : TransportStats D
  pub pending_candidates : List Candidate
  pub remote_description_set : Bool
  pub is_reconnecting : Bool
  pub reconnect_attempts : ℕ
  pub is_explicitly_closed : Bool
  pub channels : ℕ → ChannelState
  pub next_pc : ℕ
  pub next_channel : ℕ
  pub channel_sent : List (ℕ × List ℕ)
  pub has_remote_description : Bool
  pub added : List Candidate
  pub timeouts : List Ratio
  pub dropped : List (SignalingClient SignalingMessage)
  pub calls : List (Call D)

abbrev pub with_channel : ℕ → ChannelState → (ℕ → ChannelState) → ℕ → ChannelState
with_channel k c channels j = if j == k then c else channels j

-- `1000 * 1.5 ** n` and 8000, whichever is less.
unfoldable pub backoff_ms : ℕ → Ratio
backoff_ms n =
    if leb (1000 * 3 ^ n) (8000 * 2 ^ n)
    then record { num = pos (1000 * 3 ^ n); den = 2 ^ n }
    else record { num = pos 8000; den = 1 }

unfoldable pub new_transport : {D : Type 0} → Millis D → Option ℕ → WebRtcTransport D
new_transport m max_attempts = record {
  max_reconnect_attempts = max_attempts;
  state = disconnected;
  pc = none;
  data_channel = none;
  signaling = none;
  state_handlers = [];
  data_handlers = [];
  error_handlers = [];
  stats_handlers = [];
  stats = record {
    rtt_ms = m.nought;
    packets_sent = 0;
    packets_received = 0;
    bytes_sent = 0;
    bytes_received = 0;
    jitter_ms = m.nought;
    packet_loss_ratio = m.nought;
    last_heartbeat_ts = 0;
  };
  pending_candidates = [];
  remote_description_set = false;
  is_reconnecting = false;
  reconnect_attempts = 0;
  is_explicitly_closed = false;
  channels = λ k. closed;
  next_pc = 0;
  next_channel = 0;
  channel_sent = [];
  has_remote_description = false;
  added = [];
  timeouts = [];
  dropped = [];
  calls = [];
}
