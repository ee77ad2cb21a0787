-- ===== src/Transport/Run.antt =====
-- WebRtcTransport.ts: sequences of events.
use lookauniversalremote.Prelude.{ℕ, Bool, List, [], ◌∷◌, Option}
use lookauniversalremote.Protocol.Types.{Text}
use lookauniversalremote.Transport.State.{Candidate, SignalingMessage, WebRtcTransport}
use lookauniversalremote.Transport.Peer.{
  recreate_peer_connection, on_offer_created, on_ice_candidate, connect, connect_failed,
  on_socket_open, on_reconnect_timeout, on_reconnect_done, on_reconnect_failed, on_ice_state, send,
  disconnect,
}
use lookauniversalremote.Transport.Events.{
  on_channel_open, on_channel_close, on_channel_error, on_channel_message, on_answer_settled,
  on_candidate_settled, handle_signaling_message,
}

-- What can happen to the transport: calls of its operations, continuations of its asynchronous
-- functions, and events of the browser.
pub data Event : Type 0 where
  connects : Bool → Event
  connect_resumes connect_fails : Event
  offer_created : Option Text → Event
  ice_found : Option Candidate → Event
  ice_changes : Bool → Event
  socket_opens : ℕ → Event
  timeout_fires : Event
  reconnect_done : Option Text → Event
  reconnect_fails : Event
  channel_opens channel_closes : ℕ → Event
  channel_fails : Event
  channel_receives : Option (List ℕ) → Event
  signaled : (Candidate → Bool) → SignalingMessage → Event
  answer_settles candidate_settles : (Candidate → Bool) → Bool → Event
  sends : Bool → Bool → List ℕ → Event
  disconnects : Event

module _ {D : Type 0} where
  unfoldable pub step : Event → WebRtcTransport D → WebRtcTransport D
  step (connects creates) s = connect creates s
  step connect_resumes s = recreate_peer_connection s
  step connect_fails s = connect_failed s
  step (offer_created sdp) s = on_offer_created sdp s
  step (ice_found c) s = on_ice_candidate c s
  step (ice_changes lost) s = on_ice_state lost s
  step (socket_opens k) s = on_socket_open k s
  step timeout_fires s = on_reconnect_timeout s
  step (reconnect_done sdp) s = on_reconnect_done sdp s
  step reconnect_fails s = on_reconnect_failed s
  step (channel_opens k) s = on_channel_open k s
  step (channel_closes k) s = on_channel_close k s
  step channel_fails s = on_channel_error s
  step (channel_receives message) s = on_channel_message message s
  step (signaled constructs message) s = handle_signaling_message constructs message s
  step (answer_settles constructs described) s = on_answer_settled constructs described s
  step (candidate_settles constructs taken) s = on_candidate_settled constructs taken s
  step (sends takes accepts bytes) s = (send takes accepts bytes s).0
  step disconnects s = disconnect s

  abbrev pub run : List Event → WebRtcTransport D → WebRtcTransport D
  run [] s = s
  run (e ∷ es) s = run es (step e s)
