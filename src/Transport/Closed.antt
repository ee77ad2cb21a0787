-- ===== src/Transport/Closed.antt =====
-- WebRtcTransport.ts: after `disconnect`.
use lookauniversalremote.Prelude.{◌≡◌, refl, ◌∙◌, true, List, [], ◌∷◌, All, none, arith}
use lookauniversalremote.Transport.State.{disconnected, WebRtcTransport}
use lookauniversalremote.Transport.Peer.{
  on_offer_created, on_ice_candidate, on_socket_open, on_reconnect_timeout, on_reconnect_done,
  on_reconnect_failed, on_ice_state, send, send_signaling, disconnect,
}
use lookauniversalremote.Transport.Events.{
  on_channel_close, on_channel_error, on_channel_message, handle_signaling_message,
  on_answer_settled, on_candidate_settled,
}
use lookauniversalremote.Transport.Run.{
  Event, connects, connect_resumes, connect_fails, channel_opens, step, run,
}

-- Events after a `disconnect`, but for a call of `connect`, the continuations of a `connect` that was
-- under way, and the opening of a data channel.
abbrev pub IsLate : Event → Type 0
IsLate (connects creates) = ⊥
IsLate connect_resumes = ⊥
IsLate connect_fails = ⊥
IsLate (channel_opens k) = ⊥
IsLate _ = Unit

module _ {D : Type 0} where
  pub record IsClosed (s : WebRtcTransport D) : Type 0 where
    pub explicitly : s.is_explicitly_closed ≡ true
    pub state_kept : s.state ≡ disconnected
    pub no_pc : s.pc ≡ none
    pub no_channel : s.data_channel ≡ none
    pub no_signaling : s.signaling ≡ none

  -- Nothing more is sent or scheduled.
  abbrev pub IsQuiet : WebRtcTransport D → WebRtcTransport D → Type 0
  IsQuiet s t = (t.channel_sent ≡ s.channel_sent) × (t.timeouts ≡ s.timeouts)

  disconnect-IsClosed : (s : WebRtcTransport D) → IsClosed (disconnect s) × IsQuiet s (disconnect s)
  unfolding disconnect
  disconnect-IsClosed s = ground arith

  step-IsClosed :
      (e : Event) (s : WebRtcTransport D)
      → IsLate e
      → IsClosed s
      → IsClosed (step e s) × IsQuiet s (step e s)
  unfolding step on_offer_created on_ice_candidate on_ice_state on_socket_open on_reconnect_timeout
      on_reconnect_done on_reconnect_failed on_channel_close on_channel_error on_channel_message
      send send_signaling disconnect handle_signaling_message on_answer_settled on_candidate_settled
  step-IsClosed (connects creates) s late h = absurd late
  step-IsClosed connect_resumes s late h = absurd late
  step-IsClosed connect_fails s late h = absurd late
  step-IsClosed (channel_opens k) s late h = absurd late
  step-IsClosed _ s late h = ground arith

  stays-IsClosed :
      (es : List Event) (s : WebRtcTransport D)
      → All IsLate es
      → IsClosed s
      → IsClosed (run es s) × IsQuiet s (run es s)
  stays-IsClosed [] s late h = (h, (refl, refl))
  stays-IsClosed (e ∷ es) s late h =
      let (closed, (sent, scheduled)) = step-IsClosed e s late.0 h in
      let (closed', (sent', scheduled')) = stays-IsClosed es (step e s) late.1 closed in
      (closed', (sent' ∙ sent, scheduled' ∙ scheduled))

  -- From any state, `disconnect` leaves the transport disconnected, with no peer connection, no data
  -- channel and no signaling client; and whatever events come after that, but for a call of `connect`,
  -- the rest of a `connect` that was under way (whether its await succeeds or fails) and the opening
  -- of a data channel, it stays so, sends nothing on a data channel and schedules no reconnection.
  pub run-disconnect :
      (es : List Event) (s : WebRtcTransport D)
      → All IsLate es
      → IsClosed (run es (disconnect s)) × IsQuiet s (run es (disconnect s))
  run-disconnect es s late =
      let (closed, (sent, scheduled)) = disconnect-IsClosed s in
      let (closed', (sent', scheduled')) = stays-IsClosed es (disconnect s) late closed in
      (closed', (sent' ∙ sent, scheduled' ∙ scheduled))
