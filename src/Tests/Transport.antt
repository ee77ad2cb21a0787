-- ===== src/Tests/Transport.antt =====
-- The transport, instantiated with whole milliseconds.
use lookauniversalremote.Prelude.{
  ℕ, ◌≤◌, ◌≡◌, refl, arith, true, false, List, [], ◌∷◌, pos, some, none, ◌||◌, suc, ◌==◌, ◌-◌, ◌/◌,
  ◌+◌, ◌*◌,
}
use lookauniversalremote.Bridge.{Bridge}
use lookauniversalremote.Bridge.Send.{Request, message, message_flags, perform}
use lookauniversalremote.Protocol.Reader.{ok, array_buffer}
use lookauniversalremote.Protocol.Decoder.{decode_packet}
use lookauniversalremote.Protocol.Decoder.RoundTrip.{sent_packet}
use lookauniversalremote.Transport.State.{
  reconnecting, Candidate, SignalingMessage, Millis, WebRtcTransport, new_transport,
}
use lookauniversalremote.Transport.Peer.{
  send, connect, disconnect, recreate_peer_connection, max_attempts,
}
use lookauniversalremote.Transport.Events.{
  on_channel_open, on_answer_settled, on_candidate_settled, handle_signaling_message,
}
use lookauniversalremote.Transport.Run.{
  Event, connects, connect_resumes, channel_opens, channel_closes, ice_changes, signaled,
  answer_settles, candidate_settles, socket_opens, timeout_fires, reconnect_done, step, run,
}
use lookauniversalremote.Transport.Candidates.{
  Turn, arrives, settles, IsShared, negotiate, negotiate-IsShared,
}
use lookauniversalremote.Transport.Delivery.{channel_can, socket_can, IsSent, perform-IsSent}
use lookauniversalremote.Transport.Attempts.{IsBounded, scheduled, run-IsBounded}
use lookauniversalremote.Transport.Closed.{IsClosed, IsQuiet, run-disconnect}
use lookauniversalremote.Transport.Retry.{IsStuck, run-IsStuck, connect-twice}
use lookauniversalremote.Tests.Samples.{ascii_codec, move, bridge, bridge-IsReady}

abbrev whole : Millis ℕ
whole = record {
  nought = 0;
  is_nought = λ n. n == 0;
  distance = λ m n. (m - n) + (n - m);
  smooth = λ m n. (m * 4 + n) / 5;
}

abbrev fresh : WebRtcTransport ℕ
fresh = new_transport whole (some 2)

abbrev near : Candidate
near = record { candidate = 49 ∷ []; sdp_mid = none; sdp_mline_index = some 0 }

abbrev far : Candidate
far = record { candidate = 50 ∷ []; sdp_mid = none; sdp_mline_index = some 0 }

abbrev third : Candidate
third = record { candidate = 51 ∷ []; sdp_mid = none; sdp_mline_index = some 0 }

-- The second of two queued candidates is still waiting when a third arrives, which overtakes it.
abbrev before : List SignalingMessage
before =
    SignalingMessage.ice_candidate near
    ∷ SignalingMessage.answer []
    ∷ SignalingMessage.ice_candidate far
    ∷ []

abbrev after : List Turn
after = arrives (SignalingMessage.ice_candidate third) ∷ settles ∷ []

overtaken :
    (negotiate before after (recreate_peer_connection fresh)).added ≡ near ∷ third ∷ far ∷ []
unfolding on_answer_settled on_candidate_settled handle_signaling_message recreate_peer_connection
    new_transport
overtaken = refl

negotiate-IsShared_example :
    IsShared 2
      (near ∷ far ∷ [])
      (third ∷ [])
      (negotiate before after (recreate_peer_connection fresh))
negotiate-IsShared_example = negotiate-IsShared before after fresh

-- Connected, by a peer connection whose data channel is open.
abbrev linked : WebRtcTransport ℕ
linked = run (connects true ∷ connect_resumes ∷ channel_opens 0 ∷ []) fresh

perform-IsSent_example :
    (b' : Bridge) × (t' : WebRtcTransport ℕ) × (bytes : List ℕ) × (perform ascii_codec
        (λ u bs. send true false bs u)
        (Request.touchpad move (pos 0))
        bridge
        linked
      ≡ some (b', t', channel_can true linked || socket_can false linked))
    × IsSent (channel_can true linked) (socket_can false linked) linked t' bytes
    × (decode_packet ascii_codec (array_buffer bytes)
        ≡ ok (
            sent_packet ascii_codec
              (pos bridge.sequence_gen.current)
              (message_flags (Request.touchpad move (pos 0)))
              (message (Request.touchpad move (pos 0)))))
perform-IsSent_example =
    perform-IsSent ascii_codec true false (Request.touchpad move (pos 0)) bridge linked
      bridge-IsReady

fresh-IsBounded : IsBounded 2 fresh
unfolding new_transport max_attempts
fresh-IsBounded = record { bound = refl; within = omega arith; short = tt }

abbrev unlucky : List Event
unlucky =
    connects true
    ∷ connect_resumes
    ∷ channel_opens 0
    ∷ channel_closes 0
    ∷ timeout_fires
    ∷ reconnect_done none
    ∷ ice_changes true
    ∷ []

run-IsBounded_example : (scheduled unlucky fresh 0 ≤ 2) × IsBounded 2 (run unlucky fresh)
unfolding new_transport
run-IsBounded_example = run-IsBounded 2 0 unlucky fresh fresh-IsBounded (omega arith)

abbrev late : List Event
late =
    timeout_fires
    ∷ channel_closes 0
    ∷ ice_changes true
    ∷ signaled (λ c. true) (SignalingMessage.answer [])
    ∷ answer_settles (λ c. true) true
    ∷ candidate_settles (λ c. true) false
    ∷ []

run-disconnect_example :
    IsClosed (run late (disconnect linked)) × IsQuiet linked (run late (disconnect linked))
run-disconnect_example = run-disconnect late linked (tt, (tt, (tt, (tt, (tt, (tt, tt))))))

abbrev recovering : WebRtcTransport ℕ
recovering = record linked { state = reconnecting; is_reconnecting = false; reconnect_attempts = 1 }

abbrev losses : List Event
losses = channel_closes 1 ∷ ice_changes true ∷ channel_closes 1 ∷ []

linked-live : recovering.is_explicitly_closed ≡ false
unfolding step new_transport on_channel_open recreate_peer_connection connect
linked-live = refl

run-IsStuck_example : IsStuck recovering (run losses recovering)
run-IsStuck_example = run-IsStuck losses recovering (tt, (tt, (tt, tt))) refl linked-live

connect-twice_example :
    let opened = run (connects true ∷ socket_opens 0 ∷ []) fresh in
    (opened.state ≡ reconnecting)
    × (opened.pc ≡ some fresh.next_pc)
    × ((step connect_resumes opened).pc ≡ some (suc fresh.next_pc))
unfolding new_transport
connect-twice_example = connect-twice fresh 0 refl refl
