-- ===== src/Tv.antt =====
-- apps/web-client/src/features/tv/TvCommandService.ts: TV commands through the bridge, and the
-- history of the last ones.
pub mod History
use lookauniversalremote.Prelude.{
  ℕ, suc, ◌-◌, ◌==◌, ltb, if◌then◌else◌, Bool, true, false, ℤ, pos, List, [], ◌∷◌, ◌++◌, map,
  length, drop, Option, none, some,
}
use lookauniversalremote.Protocol.Types.{Text}
use lookauniversalremote.Protocol.View.{TextCodec}
use lookauniversalremote.Bridge.{Bridge, send_tv_command, send_tv_text_input}
use lookauniversalremote.Bridge.Incoming.{add, delete}

-- The reason is 'ProtocolBridge not connected', or absent.
pub record CommandDispatchRecord : Type 0 where
  pub command_code : ℤ
  pub target_device : ℤ
  pub timestamp : ℕ
  pub success : Bool
  pub not_connected : Bool

-- `minIntervalMs` is not stored: the code compares with it and does nothing.
pub record TvCommandService : Type 0 where
  pub bridge : Option Bridge
  pub command_history : List CommandDispatchRecord
  pub listeners : List ℕ
  pub last_dispatched_at : ℕ

unfoldable pub new_service : Option Bridge → TvCommandService
new_service bridge = record {
  bridge = bridge;
  command_history = [];
  listeners = [];
  last_dispatched_at = 0;
}

unfoldable pub set_bridge : Option Bridge → TvCommandService → TvCommandService
set_bridge bridge s = record s { bridge = bridge }

unfoldable pub on_dispatch : ℕ → TvCommandService → TvCommandService
on_dispatch h s = record s { listeners = add h s.listeners }

-- The function that `onDispatch` returns.
unfoldable pub off_dispatch : ℕ → TvCommandService → TvCommandService
off_dispatch h s = record s { listeners = delete h s.listeners }

-- `shift` if the history has become longer than 50.
trim : List CommandDispatchRecord → List CommandDispatchRecord
trim history = if ltb 50 (length history) then drop 1 history else history

-- The calls of the listeners, in order: one that throws is caught.
pub record ListenerCall : Type 0 where
  pub listener : ℕ
  pub dispatched : CommandDispatchRecord

unfoldable pub record_dispatch :
    CommandDispatchRecord → TvCommandService → TvCommandService × List ListenerCall
unfolding trim
record_dispatch r s = (
  record s { command_history = trim (s.command_history ++ r ∷ []) },
  map (λ l. record { listener = l; dispatched = r }) s.listeners,
)

unfoldable pub get_recent_history : TvCommandService → List CommandDispatchRecord
get_recent_history s = s.command_history

-- What `String.trim` leaves: it is a parameter, being the platform's.
module _ (codec : TextCodec) (trim_text : Text → Text) {W : Type 0}
    (send : W → List ℕ → W × Bool) where
  -- The service, the transport, the calls of the listeners and the answer. `none` is an error of
  -- the encoder.
  abbrev pub Dispatched : Type 0
  Dispatched = Option (TvCommandService × W × List ListenerCall × Bool)

  -- The comparison of `now` with the last dispatch has an empty body.
  unfoldable pub send_command : ℕ → ℤ → ℤ → TvCommandService → W → Dispatched
  unfolding record_dispatch
  send_command now code device s w =
      let t = record s { last_dispatched_at = now } in
      elim s.bridge [
        | none ↦
            let (t', calls) =
              record_dispatch
                (record {
                  command_code = code;
                  target_device = device;
                  timestamp = now;
                  success = false;
                  not_connected = true;
                })
                t in
            some (t', w, calls, false)
        | some b ↦
            elim (send_tv_command codec send b w
              (record { command_code = code; target_device = some device; flags = none }) (pos 0)) [
                | none ↦ none
                | some (b', w', sent) ↦
                    let (t', calls) =
                      record_dispatch
                        (record {
                          command_code = code;
                          target_device = device;
                          timestamp = now;
                          success = sent;
                          not_connected = false;
                        })
                        (record t { bridge = some b' }) in
                    some (t', w', calls, sent)
              ]
      ]

  -- An empty text, or one of white space only, is not sent.
  unfoldable pub send_text_input :
      Text → TvCommandService → W → Option (TvCommandService × W × Bool)
  send_text_input text s w = elim s.bridge [
    | none ↦ some (s, w, false)
    | some b ↦
        if length (trim_text text) == 0
        then some (s, w, false)
        else (elim (send_tv_text_input codec send b w (trim_text text) (pos 0)) [
          | none ↦ none
          | some (b', w', sent) ↦ some (record s { bridge = some b' }, w', sent)
        ])
  ]
