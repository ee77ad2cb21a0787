-- ===== src/Transport/Peer.antt =====
-- WebRtcTransport.ts: the operations. An asynchronous function stands in parts: what runs up to an
-- `await`, and what runs when that is settled.
use lookauniversalremote.Prelude.{
  ℕ, suc, ◌+◌, leb, if◌then◌else◌, Bool, true, false, not, ◌&&◌, ◌||◌, List, [], ◌∷◌, ◌++◌, map,
  length, Option, none, some,
}
use lookauniversalremote.Protocol.Types.{Text}
use lookauniversalremote.Signaling.{SignalingClient, new_client}
use lookauniversalremote.Signaling
use lookauniversalremote.Transport.State.{
  TransportState, disconnected, connecting, connected, reconnecting, failed, is_state, Candidate,
  SignalingMessage, state_call, data_call, error_call, stats_call, opening, close_state, is_open,
  with_channel, backoff_ms, WebRtcTransport,
}

module _ {D : Type 0} where
  unfoldable pub set_state : TransportState → WebRtcTransport D → WebRtcTransport D
  set_state new s =
      if is_state s.state new
      then s
      else record s { state = new; calls = s.calls ++ map (λ h. state_call h new) s.state_handlers }

  unfoldable pub notify_data : List ℕ → WebRtcTransport D → WebRtcTransport D
  notify_data bytes s = record s { calls = s.calls ++ map (λ h. data_call h bytes) s.data_handlers }

  unfoldable pub notify_error : WebRtcTransport D → WebRtcTransport D
  notify_error s = record s { calls = s.calls ++ map error_call s.error_handlers }

  unfoldable pub notify_stats : WebRtcTransport D → WebRtcTransport D
  notify_stats s = record s { calls = s.calls ++ map (λ h. stats_call h s.stats) s.stats_handlers }

  -- Closing the data channel and the peer connection.
  unfoldable pub close_channel : WebRtcTransport D → WebRtcTransport D
  close_channel s = elim s.data_channel [
    | none ↦ s
    | some k ↦ record s {
      channels = with_channel k (close_state (s.channels k)) s.channels;
      data_channel = none;
    }
  ]

  unfoldable pub close_pc : WebRtcTransport D → WebRtcTransport D
  close_pc s = elim s.pc [ none ↦ s | some p ↦ record s { pc = none } ]

  -- `recreatePeerConnection` up to the first `await`.
  unfoldable pub recreate_peer_connection : WebRtcTransport D → WebRtcTransport D
  unfolding close_channel close_pc
  recreate_peer_connection s =
      let t = close_pc (close_channel s) in
      record t {
        remote_description_set = false;
        pending_candidates = [];
        pc = some t.next_pc;
        next_pc = suc t.next_pc;
        data_channel = some t.next_channel;
        channels = with_channel t.next_channel opening t.channels;
        next_channel = suc t.next_channel;
        has_remote_description = false;
        added = [];
      }

  -- `this.signaling.send(msg)`, if there is a signaling client.
  unfoldable pub signal : SignalingMessage → WebRtcTransport D → WebRtcTransport D
  signal msg s = elim s.signaling [
    | none ↦ s
    | some c ↦ record s { signaling = some (Signaling.send msg c) }
  ]

  -- The rest of it: the offer is made and set. `none` is an offer without sdp.
  unfoldable pub on_offer_created : Option Text → WebRtcTransport D → WebRtcTransport D
  unfolding signal
  on_offer_created none s = s
  on_offer_created (some sdp) s = signal (SignalingMessage.offer sdp) s

  -- `onicecandidate`, `none` for the end of the candidates.
  unfoldable pub on_ice_candidate : Option Candidate → WebRtcTransport D → WebRtcTransport D
  unfolding signal
  on_ice_candidate none s = s
  on_ice_candidate (some c) s = signal (SignalingMessage.ice_candidate c) s

  -- `connect` up to `await this.signaling.connect()`. Its handlers are number 0 of the client's.
  unfoldable pub connect : Bool → WebRtcTransport D → WebRtcTransport D
  unfolding set_state
  connect creates s =
      if is_state s.state connected || (is_state s.state connecting && not s.is_reconnecting)
      then s
      else (let t = set_state connecting (record s { is_explicitly_closed = false }) in
          let client : SignalingClient SignalingMessage = elim t.signaling [
            | none ↦ Signaling.on_status 0 (
                Signaling.on_message 0 (
                  new_client SignalingMessage (record {
                    auto_reconnect = some true;
                    max_reconnect_attempts = none;
                    reconnect_interval_ms = none;
                  })))
            | some c ↦ c
          ] in
          record t { signaling = some (Signaling.connect creates client) })

  -- The `catch` of `connect`.
  unfoldable pub connect_failed : WebRtcTransport D → WebRtcTransport D
  unfolding set_state notify_error
  connect_failed s = notify_error (set_state failed s)

  unfoldable pub reconnect_peer_connection : WebRtcTransport D → WebRtcTransport D
  unfolding set_state recreate_peer_connection
  reconnect_peer_connection s =
      if s.is_explicitly_closed then s else recreate_peer_connection (set_state reconnecting s)

  -- The status handler of the signaling client.
  unfoldable pub on_signaling_status : Bool → WebRtcTransport D → WebRtcTransport D
  unfolding reconnect_peer_connection
  on_signaling_status up s =
      if up && (not (is_state s.state connected) && not s.is_explicitly_closed)
      then reconnect_peer_connection s
      else s

  -- The socket of the signaling client opens: its `onopen`, which calls that handler.
  unfoldable pub on_socket_open : ℕ → WebRtcTransport D → WebRtcTransport D
  unfolding on_signaling_status
  on_socket_open k s = elim s.signaling [
    | none ↦ s
    | some c ↦ on_signaling_status true (record s { signaling = some (Signaling.on_open k c).0 })
  ]

  unfoldable pub max_attempts : WebRtcTransport D → ℕ
  max_attempts s = elim s.max_reconnect_attempts [ none ↦ 5 | some n ↦ n ]

  unfoldable pub schedule_peer_reconnect : WebRtcTransport D → WebRtcTransport D
  unfolding set_state max_attempts
  schedule_peer_reconnect s =
      if s.is_reconnecting || s.is_explicitly_closed
      then s
      else (let t = set_state reconnecting (record s { is_reconnecting = true }) in
          if leb (max_attempts t) t.reconnect_attempts
          then record (set_state failed t) { is_reconnecting = false }
          else record t {
            reconnect_attempts = suc t.reconnect_attempts;
            timeouts = t.timeouts ++ backoff_ms (suc t.reconnect_attempts) ∷ [];
          })

  -- The callback of the timeout, up to its `await`; what follows when that succeeds, and when it fails.
  unfoldable pub on_reconnect_timeout : WebRtcTransport D → WebRtcTransport D
  unfolding recreate_peer_connection
  on_reconnect_timeout s =
      if s.is_explicitly_closed
      then record s { is_reconnecting = false }
      else recreate_peer_connection s

  unfoldable pub on_reconnect_done : Option Text → WebRtcTransport D → WebRtcTransport D
  unfolding on_offer_created
  on_reconnect_done sdp s = record (on_offer_created sdp s) { is_reconnecting = false }

  unfoldable pub on_reconnect_failed : WebRtcTransport D → WebRtcTransport D
  unfolding schedule_peer_reconnect
  on_reconnect_failed s = schedule_peer_reconnect (record s { is_reconnecting = false })

  -- `oniceconnectionstatechange`; `lost` says that the state is failed or disconnected.
  unfoldable pub on_ice_state : Bool → WebRtcTransport D → WebRtcTransport D
  unfolding schedule_peer_reconnect
  on_ice_state lost s = elim s.pc [
    | none ↦ s
    | some p ↦
        if lost && (is_state s.state connected && not s.is_explicitly_closed)
        then schedule_peer_reconnect s
        else s
  ]

  -- What `send` counts.
  count_sent : List ℕ → WebRtcTransport D → WebRtcTransport D
  unfolding notify_stats
  count_sent bytes s = notify_stats (record s {
    stats = record s.stats {
      packets_sent = suc s.stats.packets_sent;
      bytes_sent = s.stats.bytes_sent + length bytes;
    };
  })

  -- The WebSocket part of `send`; `accepts` says that `sendRaw` does not throw.
  unfoldable pub send_signaling : Bool → List ℕ → WebRtcTransport D → WebRtcTransport D × Bool
  unfolding count_sent
  send_signaling accepts bytes s = elim s.signaling [
    | none ↦ (s, false)
    | some c ↦
        if Signaling.is_connected c && accepts
        then (count_sent bytes (record s { signaling = some (Signaling.send_raw bytes c) }), true)
        else (s, false)
  ]

  -- `takes` says that `dataChannel.send` does not throw.
  unfoldable pub send : Bool → Bool → List ℕ → WebRtcTransport D → WebRtcTransport D × Bool
  unfolding count_sent send_signaling
  send takes accepts bytes s = elim s.data_channel [
    | none ↦ send_signaling accepts bytes s
    | some k ↦
        if is_open (s.channels k) && takes
        then (
          count_sent bytes (record s { channel_sent = s.channel_sent ++ (k, bytes) ∷ [] }),
          true,
        )
        else send_signaling accepts bytes s
  ]

  -- Closing the signaling client; its status handlers are told false, which does nothing here.
  unfoldable pub drop_signaling : WebRtcTransport D → WebRtcTransport D
  drop_signaling s = elim s.signaling [
    | none ↦ s
    | some c ↦ record s { signaling = none; dropped = s.dropped ++ (Signaling.close c).0 ∷ [] }
  ]

  unfoldable pub disconnect : WebRtcTransport D → WebRtcTransport D
  unfolding close_channel close_pc drop_signaling set_state
  disconnect s =
      let t = close_pc (
        close_channel (record s {
          is_explicitly_closed = true;
          is_reconnecting = false;
          reconnect_attempts = 0;
        })) in
      set_state disconnected
        (record (drop_signaling t) { remote_description_set = false; pending_candidates = [] })
