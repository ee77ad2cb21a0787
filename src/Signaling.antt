-- ===== src/Signaling.antt =====
-- apps/web-client/src/transport/SignalingClient.ts: the WebSocket client for signaling. The type `M`
-- of messages is a parameter; the sockets and timers of the browser are part of the state.
pub mod Queue
pub mod Late
use lookauniversalremote.Prelude.{
  ℕ, suc, ◌+◌, ◌==◌, leb, if◌then◌else◌, Bool, true, false, not, ◌&&◌, ◌||◌, List, [], ◌∷◌, ◌++◌,
  map, Option, none, some,
}
use lookauniversalremote.Bridge.Incoming.{add, delete}

pub data ReadyState : Type 0 where
  connecting opened closing closed : ReadyState

unfoldable pub is_open : ReadyState → Bool
is_open opened = true
is_open _ = false

unfoldable pub is_live : ReadyState → Bool
is_live connecting = true
is_live opened = true
is_live _ = false

-- What is written to a socket.
pub data Frame (M : Type 0) : Type 0 where
  text : M → Frame M
  raw : List ℕ → Frame M

pub data Call (M : Type 0) : Type 0 where
  message_call : ℕ → M → Call M
  status_call : ℕ → Bool → Call M

pub record SignalingClientOptions : Type 0 where
  pub auto_reconnect : Option Bool
  pub max_reconnect_attempts : Option ℕ
  pub reconnect_interval_ms : Option ℕ

-- The last six fields are the browser's: the state of each socket, the number of sockets, what was
-- written to which socket, the active ping intervals, the next timer, the pending timeouts of
-- reconnections with their delays.
pub record SignalingClient (M : Type 0) : Type 0 where
  pub options : SignalingClientOptions
  pub ws : Option ℕ
  pub message_queue : List M
  pub message_handlers : List ℕ
  pub status_handlers : List ℕ
  pub is_connecting : Bool
  pub is_explicitly_closed : Bool
  pub reconnect_attempts : ℕ
  pub ping_timer : Option ℕ
  pub ready : ℕ → ReadyState
  pub next_socket : ℕ
  pub sent : List (ℕ × Frame M)
  pub pings : List ℕ
  pub next_timer : ℕ
  pub reconnects : List ℕ

unfoldable pub new_client : (M : Type 0) → SignalingClientOptions → SignalingClient M
new_client M options = record {
  options = options;
  ws = none;
  message_queue = [];
  message_handlers = [];
  status_handlers = [];
  is_connecting = false;
  is_explicitly_closed = false;
  reconnect_attempts = 0;
  ping_timer = none;
  ready = λ k. closed;
  next_socket = 0;
  sent = [];
  pings = [];
  next_timer = 1;
  reconnects = [];
}

module _ {M : Type 0} where
  unfoldable pub is_connected : SignalingClient M → Bool
  unfolding is_open
  is_connected s = elim s.ws [ none ↦ false | some k ↦ is_open (s.ready k) ]

  -- `this.ws.send(..)`.
  unfoldable pub write : Frame M → SignalingClient M → SignalingClient M
  write f s = elim s.ws [ none ↦ s | some k ↦ record s { sent = s.sent ++ (k, f) ∷ [] } ]

  unfoldable pub send : M → SignalingClient M → SignalingClient M
  unfolding is_connected write
  send msg s =
      if is_connected s
      then write (text msg) s
      else record s { message_queue = s.message_queue ++ msg ∷ [] }

  unfoldable pub send_raw : List ℕ → SignalingClient M → SignalingClient M
  unfolding is_connected write
  send_raw bytes s = if is_connected s then write (raw bytes) s else s

  -- The loop of `flushQueue`.
  unfoldable pub write_all : List M → SignalingClient M → SignalingClient M
  unfolding write
  write_all [] s = s
  write_all (msg ∷ msgs) s = write_all msgs (write (text msg) s)

  unfoldable pub flush_queue : SignalingClient M → SignalingClient M
  unfolding is_connected write_all
  flush_queue s =
      if is_connected s then write_all s.message_queue (record s { message_queue = [] }) else s

  unfoldable pub notify_status : Bool → SignalingClient M → List (Call M)
  notify_status connected s = map (λ h. status_call h connected) s.status_handlers

  unfoldable pub notify_message : M → SignalingClient M → List (Call M)
  notify_message msg s = map (λ h. message_call h msg) s.message_handlers

  unfoldable pub stop_ping_interval : SignalingClient M → SignalingClient M
  stop_ping_interval s = elim s.ping_timer [
    | none ↦ s
    | some t ↦ record s { pings = delete t s.pings; ping_timer = none }
  ]

  unfoldable pub start_ping_interval : SignalingClient M → SignalingClient M
  unfolding stop_ping_interval
  start_ping_interval s =
      let t = stop_ping_interval s in
      record t {
        ping_timer = some t.next_timer;
        pings = t.pings ++ t.next_timer ∷ [];
        next_timer = suc t.next_timer;
      }

  unfoldable pub schedule_reconnect : SignalingClient M → SignalingClient M
  schedule_reconnect s =
      let max_attempts : ℕ = elim s.options.max_reconnect_attempts [ none ↦ 5 | some n ↦ n ] in
      let interval : ℕ = elim s.options.reconnect_interval_ms [ none ↦ 2000 | some n ↦ n ] in
      if leb max_attempts s.reconnect_attempts then s else record s {
        reconnect_attempts = suc s.reconnect_attempts;
        reconnects = s.reconnects ++ interval ∷ [];
      }

  -- The first part of `connect`; the promise is settled by the handlers of the socket. `creates` says
  -- whether the constructor of the WebSocket does not throw.
  unfoldable pub connect : Bool → SignalingClient M → SignalingClient M
  unfolding is_live
  connect creates s =
      let t = record s { is_explicitly_closed = false } in
      if elim s.ws [ none ↦ false | some k ↦ is_live (s.ready k) ]
      then t
      else (if creates
          then record t {
            is_connecting = true;
            ws = some s.next_socket;
            next_socket = suc s.next_socket;
            ready = λ j. if j == s.next_socket then connecting else s.ready j;
          }
          else record t { is_connecting = false })

  -- The browser opens the socket `k` and runs `onopen`.
  unfoldable pub on_open : ℕ → SignalingClient M → SignalingClient M × List (Call M)
  unfolding flush_queue start_ping_interval notify_status
  on_open k s =
      let t = record s {
        ready = λ j. if j == k then opened else s.ready j;
        is_connecting = false;
        reconnect_attempts = 0;
      } in
      (start_ping_interval (flush_queue t), notify_status true t)

  -- The browser closes the socket `k` and runs `onclose`.
  unfoldable pub on_close : ℕ → SignalingClient M → SignalingClient M × List (Call M)
  unfolding stop_ping_interval notify_status schedule_reconnect
  on_close k s =
      let t =
        stop_ping_interval
          (record s { ready = λ j. if j == k then closed else s.ready j; is_connecting = false }) in
      let reconnecting : Bool = elim t.options.auto_reconnect [ none ↦ true | some b ↦ b ] in
      (
        if not t.is_explicitly_closed && reconnecting then schedule_reconnect t else t,
        notify_status false t,
      )

  unfoldable pub close : SignalingClient M → SignalingClient M × List (Call M)
  unfolding stop_ping_interval notify_status
  close s =
      let t = stop_ping_interval (record s { is_explicitly_closed = true }) in
      let u : SignalingClient M = elim t.ws [
        | none ↦ t
        | some k ↦ record t { ready = λ j. if j == k then closing else t.ready j; ws = none }
      ] in
      (record u { message_queue = [] }, notify_status false u)

  unfoldable pub on_status : ℕ → SignalingClient M → SignalingClient M
  on_status h s = record s { status_handlers = add h s.status_handlers }

  unfoldable pub on_message : ℕ → SignalingClient M → SignalingClient M
  on_message h s = record s { message_handlers = add h s.message_handlers }

  -- The functions that the two above return.
  unfoldable pub off_status : ℕ → SignalingClient M → SignalingClient M
  off_status h s = record s { status_handlers = delete h s.status_handlers }

  unfoldable pub off_message : ℕ → SignalingClient M → SignalingClient M
  off_message h s = record s { message_handlers = delete h s.message_handlers }

  -- `onmessage` with what JSON.parse made of the data, `none` if it threw.
  unfoldable pub on_socket_message : Option M → SignalingClient M → List (Call M)
  unfolding notify_message
  on_socket_message none s = []
  on_socket_message (some msg) s = notify_message msg s

  -- The callback of a reconnection's timeout.
  unfoldable pub reconnect : Bool → SignalingClient M → SignalingClient M
  unfolding connect
  reconnect creates s = if not s.is_explicitly_closed then connect creates s else s

  -- The callback of a ping interval; `ping` is the message of that type.
  unfoldable pub ping_tick : M → SignalingClient M → SignalingClient M
  unfolding send
  ping_tick ping s = send ping s
