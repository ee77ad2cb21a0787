-- ===== src/Signaling/Queue.antt =====
-- Messages that wait for the socket.
use lookauniversalremote.Prelude.{
  ℕ, ◌≡◌, refl, ap, sym, ◌∙◌, arith, ◌==◌, if◌then◌else◌, true, false, List, [], ◌∷◌, ◌++◌, map,
  some,
}
use mathlib.Core.List.{append-nil, append_assoc}
use lookauniversalremote.Signaling.{
  SignalingClient, Frame, text, opened, is_open, is_connected, send, write, write_all, flush_queue,
  on_open, start_ping_interval,
}

module _ {M : Type 0} where
  -- Calls of `send` in order.
  abbrev pub send_all : List M → SignalingClient M → SignalingClient M
  send_all [] s = s
  send_all (m ∷ ms) s = send_all ms (send m s)

  waiting :
      (ms : List M) (s : SignalingClient M)
      → is_connected s ≡ false
      → send_all ms s ≡ record s { message_queue = s.message_queue ++ ms }
  unfolding send is_connected
  waiting [] s off = ap (λ q. record s { message_queue = q }) (sym (append-nil s.message_queue))
  waiting (m ∷ ms) s off = rw off (
      waiting ms (record s { message_queue = s.message_queue ++ m ∷ [] }) off
      ∙ ap (λ q. record s { message_queue = q }) (append_assoc s.message_queue (m ∷ []) ms))

  -- The frames of messages on a socket.
  abbrev pub frames : ℕ → List M → List (ℕ × Frame M)
  frames k ms = map (λ m. (k, text m)) ms

  written :
      (k : ℕ) (ms : List M) (s : SignalingClient M)
      → write_all ms (record s { ws = some k })
        ≡ record s { ws = some k; sent = s.sent ++ frames k ms }
  unfolding write_all write
  written k [] s = ap (λ q. record s { ws = some k; sent = q }) (sym (append-nil s.sent))
  written k (m ∷ ms) s =
      written k ms (record s { sent = s.sent ++ (k, text m) ∷ [] })
      ∙ ap (λ q. record s { ws = some k; sent = q })
          (append_assoc s.sent ((k, text m) ∷ []) (frames k ms))

  flush_queue-open :
      (k : ℕ) (s : SignalingClient M)
      → is_connected (record s { ws = some k }) ≡ true
      → flush_queue (record s { ws = some k })
        ≡ record s { ws = some k; message_queue = []; sent = s.sent ++ frames k s.message_queue }
  unfolding flush_queue
  flush_queue-open k s on = rw on (written k s.message_queue (record s { message_queue = [] }))

  start_ping_interval-kept :
      (s : SignalingClient M)
      → ((start_ping_interval s).sent ≡ s.sent)
        × ((start_ping_interval s).message_queue ≡ s.message_queue)
  unfolding start_ping_interval
  start_ping_interval-kept s = ground arith

  on_open-queue :
      (k : ℕ) (q : List M) (s : SignalingClient M)
      → let s' = (on_open k (record s { ws = some k; message_queue = q })).0 in
        (s'.sent ≡ s.sent ++ frames k q) × (s'.message_queue ≡ [])
  unfolding on_open is_connected is_open
  on_open-queue k q s =
      let t = record s {
        message_queue = q;
        ready = λ j. if j == k then opened else s.ready j;
        is_connecting = false;
        reconnect_attempts = 0;
      } in
      let self : (k == k) ≡ true = ground arith in
      let on : is_connected (record t { ws = some k }) ≡ true = rw self refl in
      let flushed = flush_queue-open k t on in
      let kept = start_ping_interval-kept (flush_queue (record t { ws = some k })) in
      (kept.0 ∙ ap (λ r. r.sent) flushed, kept.1 ∙ ap (λ r. r.message_queue) flushed)

  -- While the client is not connected, calls of `send` only queue. When then its socket opens, what
  -- had been queued and what the calls sent is written to the socket, each message once and in
  -- order, and the queue is empty.
  pub on_open-send_all :
      (k : ℕ) (ms : List M) (s : SignalingClient M)
      → s.ws ≡ some k
      → is_connected s ≡ false
      → let s' = (on_open k (send_all ms s)).0 in
        (s'.sent ≡ s.sent ++ frames k (s.message_queue ++ ms)) × (s'.message_queue ≡ [])
  on_open-send_all k ms s current off =
      let q = s.message_queue ++ ms in
      let same : send_all ms s ≡ record s { ws = some k; message_queue = q } =
        waiting ms s off ∙ ap (λ w. record s { ws = w; message_queue = q }) current in
      let (wrote, emptied) = on_open-queue k q s in
      (
        ap (λ t. (on_open k t).0.sent) same ∙ wrote,
        ap (λ t. (on_open k t).0.message_queue) same ∙ emptied,
      )
