-- ===== src/Transport/Events.antt =====
-- WebRtcTransport.ts: the handlers of the data channel and of signaling messages. The handling of an
-- answer stands in parts: up to its first `await`, and from one `await` to the next, between which
-- other events come. The continuations belong to the current peer connection: the browser does not
-- settle these promises of a closed one.
use lookauniversalremote.Prelude.{
  ℕ, suc, ◌+◌, if◌then◌else◌, Bool, true, false, not, ◌&&◌, List, [], ◌∷◌, ◌++◌, length, Option,
  none, some,
}
use lookauniversalremote.Transport.State.{
  disconnected, connected, is_state, Candidate, SignalingMessage, opened, closed, with_channel,
  WebRtcTransport,
}
use lookauniversalremote.Transport.Peer.{
  set_state, notify_data, notify_error, schedule_peer_reconnect,
}

module _ {D : Type 0} where
  -- The handlers that `setupDataChannelEvents` puts on the channel `k`.
  unfoldable pub on_channel_open : ℕ → WebRtcTransport D → WebRtcTransport D
  unfolding set_state
  on_channel_open k s = set_state connected (record s {
    channels = with_channel k opened s.channels;
    reconnect_attempts = 0;
    is_reconnecting = false;
  })

  unfoldable pub on_channel_close : ℕ → WebRtcTransport D → WebRtcTransport D
  unfolding schedule_peer_reconnect set_state
  on_channel_close k s =
      let t = record s { channels = with_channel k closed s.channels } in
      if is_state t.state connected && not t.is_explicitly_closed
      then schedule_peer_reconnect t
      else if t.is_explicitly_closed
      then set_state disconnected t
      else t

  unfoldable pub on_channel_error : WebRtcTransport D → WebRtcTransport D
  unfolding notify_error
  on_channel_error s = notify_error s

  -- `none` is data that is no ArrayBuffer.
  unfoldable pub on_channel_message : Option (List ℕ) → WebRtcTransport D → WebRtcTransport D
  unfolding notify_data
  on_channel_message none s = s
  on_channel_message (some bytes) s = notify_data bytes (record s {
    stats = record s.stats {
      packets_received = suc s.stats.packets_received;
      bytes_received = s.stats.bytes_received + length bytes;
    };
  })

  -- `constructs` says of which candidates the constructor of RTCIceCandidate does not throw.
  module _ (constructs : Candidate → Bool) where
    -- One turn of the loop over the queued candidates, up to its `await`. Without a peer connection
    -- the call throws.
    unfoldable pub drain : WebRtcTransport D → WebRtcTransport D
    unfolding notify_error
    drain s = elim s.pending_candidates [
      | [] ↦ s
      | c ∷ cs ↦
          let t = record s { pending_candidates = cs } in
          elim s.pc [
            | none ↦ notify_error t
            | some p ↦
                if constructs c then record t { added = s.added ++ c ∷ [] } else notify_error t
          ]
    ]

    -- `setRemoteDescription` of an answer is settled; `described` says that it succeeds.
    unfoldable pub on_answer_settled : Bool → WebRtcTransport D → WebRtcTransport D
    unfolding drain notify_error
    on_answer_settled described s =
        if described
        then drain (record s { remote_description_set = true; has_remote_description = true })
        else notify_error s

    -- `addIceCandidate` in the loop is settled; `taken` says that it succeeds.
    unfoldable pub on_candidate_settled : Bool → WebRtcTransport D → WebRtcTransport D
    unfolding drain notify_error
    on_candidate_settled taken s = if taken then drain s else notify_error s

    -- A candidate, up to the `await`, after which nothing more is done but to log a failure.
    unfoldable pub on_candidate : Candidate → WebRtcTransport D → WebRtcTransport D
    on_candidate c s =
        if s.remote_description_set && s.has_remote_description
        then (if constructs c then record s { added = s.added ++ c ∷ [] } else s)
        else record s { pending_candidates = s.pending_candidates ++ c ∷ [] }

    -- An answer is handed to `setRemoteDescription`; the rest waits until that is settled.
    on_message_of_peer : SignalingMessage → WebRtcTransport D → WebRtcTransport D
    unfolding on_candidate notify_error
    on_message_of_peer (SignalingMessage.answer sdp) s = s
    on_message_of_peer (SignalingMessage.ice_candidate c) s = on_candidate c s
    on_message_of_peer (SignalingMessage.error_message text) s = notify_error s
    on_message_of_peer _ s = s

    -- The first part of the handler, up to an `await`.
    unfoldable pub handle_signaling_message :
        SignalingMessage → WebRtcTransport D → WebRtcTransport D
    unfolding on_message_of_peer
    handle_signaling_message msg s = elim s.pc [ none ↦ s | some p ↦ on_message_of_peer msg s ]
