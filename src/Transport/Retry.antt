-- ===== src/Transport/Retry.antt =====
-- WebRtcTransport.ts: a reconnection that leads nowhere.
use lookauniversalremote.Prelude.{
  ℕ, suc, ◌≡◌, refl, true, false, List, [], ◌∷◌, All, none, some, arith,
}
use lookauniversalremote.Transport.State.{disconnected, reconnecting, WebRtcTransport}
use lookauniversalremote.Transport.Peer.{
  recreate_peer_connection, on_offer_created, on_ice_candidate, connect, on_socket_open,
  on_reconnect_done, on_ice_state, send,
}
use lookauniversalremote.Transport.Events.{
  on_channel_close, on_channel_error, on_channel_message, handle_signaling_message,
  on_answer_settled, on_candidate_settled,
}
use lookauniversalremote.Transport.Run.{
  Event, connects, connect_resumes, connect_fails, offer_created, ice_found, ice_changes,
  socket_opens, timeout_fires, reconnect_done, reconnect_fails, channel_opens, channel_closes,
  channel_fails, channel_receives, signaled, answer_settles, candidate_settles, sends, disconnects,
  step, run,
}

-- What the browser may report while a reconnection is on its way: everything but that a channel or
-- the socket has opened and that the peer connection could not be made.
abbrev pub IsReport : Event → Type 0
IsReport (offer_created sdp) = Unit
IsReport (ice_found c) = Unit
IsReport (ice_changes lost) = Unit
IsReport (reconnect_done sdp) = Unit
IsReport (channel_closes k) = Unit
IsReport channel_fails = Unit
IsReport (channel_receives message) = Unit
IsReport (signaled constructs message) = Unit
IsReport (answer_settles constructs described) = Unit
IsReport (candidate_settles constructs taken) = Unit
IsReport (sends takes accepts bytes) = Unit
IsReport _ = ⊥

module _ {D : Type 0} where
  -- The transport waits for its reconnection: state, schedule and attempts stay.
  pub record IsStuck (s t : WebRtcTransport D) : Type 0 where
    pub state_kept : t.state ≡ reconnecting
    pub open_kept : t.is_explicitly_closed ≡ false
    pub schedule_kept : t.timeouts ≡ s.timeouts
    pub attempts_kept : t.reconnect_attempts ≡ s.reconnect_attempts

  step-IsStuck :
      (e : Event) (r s : WebRtcTransport D) → IsReport e → IsStuck r s → IsStuck r (step e s)
  unfolding step on_offer_created on_ice_candidate on_ice_state on_reconnect_done on_channel_close
      on_channel_error on_channel_message send handle_signaling_message on_answer_settled
      on_candidate_settled
  step-IsStuck (connects creates) r s report h = absurd report
  step-IsStuck connect_resumes r s report h = absurd report
  step-IsStuck connect_fails r s report h = absurd report
  step-IsStuck (socket_opens k) r s report h = absurd report
  step-IsStuck timeout_fires r s report h = absurd report
  step-IsStuck reconnect_fails r s report h = absurd report
  step-IsStuck (channel_opens k) r s report h = absurd report
  step-IsStuck disconnects r s report h = absurd report
  step-IsStuck _ r s report h = ground arith

  -- While the transport is reconnecting, no report of the browser that the connection or the channel
  -- is lost, and nothing else but an opening or a failure to make the peer connection, starts another
  -- attempt: it stays reconnecting, with the schedule and the count of attempts as they were.
  pub run-IsStuck :
      (es : List Event) (s : WebRtcTransport D)
      → All IsReport es
      → s.state ≡ reconnecting
      → s.is_explicitly_closed ≡ false
      → IsStuck s (run es s)
  run-IsStuck es s reports state live =
      stuck es s s reports (record {
        state_kept = state;
        open_kept = live;
        schedule_kept = refl;
        attempts_kept = refl;
      })
    where
      stuck :
          (es : List Event) (r s : WebRtcTransport D)
          → All IsReport es
          → IsStuck r s
          → IsStuck r (run es s)
      stuck [] r s reports h = h
      stuck (e ∷ es) r s reports h =
          stuck es r (step e s) reports.1 (step-IsStuck e r s reports.0 h)

-- A transport that has never been connected starts to connect; its socket opens. This is taken for a
-- recovery: the state is reconnecting, and a second peer connection replaces the first as soon as
-- `connect` goes on.
pub connect-twice :
    {D : Type 0} (s : WebRtcTransport D) (k : ℕ)
    → s.state ≡ disconnected
    → s.signaling ≡ none
    → let opened = run (connects true ∷ socket_opens k ∷ []) s in
      (opened.state ≡ reconnecting)
      × (opened.pc ≡ some s.next_pc)
      × ((step connect_resumes opened).pc ≡ some (suc s.next_pc))
unfolding step connect on_socket_open recreate_peer_connection
connect-twice s k state first = ground arith
