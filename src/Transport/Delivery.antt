-- ===== src/Transport/Delivery.antt =====
-- The bridge over this transport: what a send operation puts on the wire.
use lookauniversalremote.Prelude.{
  ℕ, suc, ◌≡◌, refl, ap, ◌∙◌, Bool, true, false, ◌&&◌, ◌||◌, inl, inr, pos, List, [], ◌∷◌, ◌++◌,
  Option, none, some, arith, Bool-cases,
}
use lookauniversalremote.Protocol.View.{TextCodec}
use lookauniversalremote.Protocol.Reader.{ok, array_buffer}
use lookauniversalremote.Protocol.Decoder.{decode_packet}
use lookauniversalremote.Protocol.Decoder.RoundTrip.{sent_packet, decode-frame}
use lookauniversalremote.Bridge.{Bridge}
use lookauniversalremote.Bridge.Send.{Request, message, message_flags, IsReady, perform, after}
use lookauniversalremote.Bridge.Send.Stream.{request_frame, perform-frame}
use lookauniversalremote.Signaling.{SignalingClient, is_connected, send_raw, raw}
use lookauniversalremote.Transport.State.{is_open, SignalingMessage, WebRtcTransport}
use lookauniversalremote.Transport.Peer.{send, send_signaling}

module _ {M : Type 0} where
  socket_sent :
      (w : Option ℕ) (c : SignalingClient M) (bytes : List ℕ)
      → is_connected (record c { ws = w }) ≡ true
      → (k : ℕ) × (w ≡ some k)
        × ((send_raw bytes (record c { ws = w })).sent ≡ c.sent ++ (k, raw bytes) ∷ [])
  unfolding send_raw is_connected
  socket_sent none c bytes on = absurd (cc)
  socket_sent (some k) c bytes on = (k, refl, rw on refl)

module _ {D : Type 0} where
  -- Whether a frame can be sent: on an open data channel that takes it, or on a connected socket that
  -- does.
  abbrev pub channel_can : Bool → WebRtcTransport D → Bool
  channel_can takes t = elim t.data_channel [
    | none ↦ false
    | some k ↦ is_open (t.channels k) && takes
  ]

  abbrev pub socket_can : Bool → WebRtcTransport D → Bool
  socket_can accepts t = elim t.signaling [ none ↦ false | some c ↦ is_connected c && accepts ]

  -- The bytes are the last that was sent on the data channel, or on the socket.
  abbrev pub IsOnChannel : WebRtcTransport D → WebRtcTransport D → List ℕ → Type 0
  IsOnChannel t t' bytes =
      (k : ℕ) × (t.data_channel ≡ some k)
      × (t'.channel_sent ≡ t.channel_sent ++ (k, bytes) ∷ [])
      × (t'.signaling ≡ t.signaling)

  abbrev pub IsOnSocket : WebRtcTransport D → WebRtcTransport D → List ℕ → Type 0
  IsOnSocket t t' bytes =
      (c : SignalingClient SignalingMessage) × (k : ℕ) × (c' : SignalingClient SignalingMessage)
      × (t.signaling ≡ some c)
      × (c.ws ≡ some k)
      × (t'.signaling ≡ some c')
      × (c'.sent ≡ c.sent ++ (k, raw bytes) ∷ [])
      × (t'.channel_sent ≡ t.channel_sent)

  abbrev pub IsSent : Bool → Bool → WebRtcTransport D → WebRtcTransport D → List ℕ → Type 0
  IsSent true socket t t' bytes =
      IsOnChannel t t' bytes × (t'.stats.packets_sent ≡ suc t.stats.packets_sent)
  IsSent false true t t' bytes =
      IsOnSocket t t' bytes × (t'.stats.packets_sent ≡ suc t.stats.packets_sent)
  IsSent false false t t' bytes = t' ≡ t

  send_signaling-IsSent :
      (accepts : Bool) (bytes : List ℕ) (t : WebRtcTransport D)
      → let (t', sent) = send_signaling accepts bytes t in
        (sent ≡ socket_can accepts t) × IsSent false (socket_can accepts t) t t' bytes
  unfolding send_signaling
  send_signaling-IsSent accepts bytes t = by_client t.signaling t
    where
      by_client :
          (g : Option (SignalingClient SignalingMessage)) (t : WebRtcTransport D)
          → let u = record t { signaling = g } in
            let (t', sent) = send_signaling accepts bytes u in
            (sent ≡ socket_can accepts u) × IsSent false (socket_can accepts u) u t' bytes
      by_client none t = (refl, refl)
      by_client (some c) t = elim (Bool-cases (is_connected c && accepts)) [
        | inl on ↦
            let connected : is_connected c ≡ true = ground arith in
            let (k, socket, sent) = socket_sent c.ws c bytes connected in
            rw on (refl, ((c, k, send_raw bytes c, refl, socket, refl, sent, refl), refl))
        | inr off ↦ rw off (refl, refl)
      ]

  -- Where a frame goes: on the data channel if that can take it, else on the socket, else nowhere.
  send-IsSent :
      (takes accepts : Bool) (bytes : List ℕ) (t : WebRtcTransport D)
      → let (t', sent) = send takes accepts bytes t in
        (sent ≡ channel_can takes t || socket_can accepts t)
        × IsSent (channel_can takes t) (socket_can accepts t) t t' bytes
  unfolding send
  send-IsSent takes accepts bytes t = by_channel t.data_channel t
    where
      by_channel :
          (d : Option ℕ) (t : WebRtcTransport D)
          → let u = record t { data_channel = d } in
            let (t', sent) = send takes accepts bytes u in
            (sent ≡ channel_can takes u || socket_can accepts u)
            × IsSent (channel_can takes u) (socket_can accepts u) u t' bytes
      by_channel none t = send_signaling-IsSent accepts bytes (record t { data_channel = none })
      by_channel (some k) t = elim (Bool-cases (is_open (t.channels k) && takes)) [
        | inl on ↦ rw on (refl, ((k, refl, refl, refl), refl))
        | inr off ↦
            rw off (send_signaling-IsSent accepts bytes (record t { data_channel = some k }))
      ]

module _ (codec : TextCodec) {D : Type 0} (takes accepts : Bool) where
  -- A send operation of a usable bridge over this transport hands it one frame, which decodes to the
  -- message under the current sequence number. The frame is the last on the data channel if that is
  -- open and takes it, else the last on the socket if that is connected and takes it, and is counted;
  -- else the transport stays as it was. The answer is whether it was sent.
  pub perform-IsSent :
      (r : Request) (b : Bridge) (t : WebRtcTransport D)
      → IsReady b
      → (b' : Bridge) × (t' : WebRtcTransport D) × (bytes : List ℕ) × (perform codec
            (λ u bs. send takes accepts bs u)
            r
            b
            t
          ≡ some (b', t', channel_can takes t || socket_can accepts t))
        × IsSent (channel_can takes t) (socket_can accepts t) t t' bytes
        × (decode_packet codec (array_buffer bytes)
            ≡ ok (sent_packet codec (pos b.sequence_gen.current) (message_flags r) (message r)))
  perform-IsSent r b t ready =
      let over : WebRtcTransport D → List ℕ → WebRtcTransport D × Bool =
        λ u bs. send takes accepts bs u in
      let bytes = request_frame codec over b r in
      let (answer, sent) = send-IsSent takes accepts bytes t in
      (
        after codec over b bytes,
        (send takes accepts bytes t).0,
        bytes,
        perform-frame codec over r b t ready
            ∙ ap (λ a. some (after codec over b bytes, (send takes accepts bytes t).0, a)) answer,
        sent,
        decode-frame codec (pos b.sequence_gen.current) (message_flags r) (message r),
      )
