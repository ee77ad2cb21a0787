-- ===== src/Tests/Tv.antt =====
-- The TV command service, instantiated.
use lookauniversalremote.Prelude.{◌≡◌, arith, pos, [], ◌∷◌, some}
use lookauniversalremote.Bridge.Send.Stream.{keep}
use lookauniversalremote.Tv.{TvCommandService, send_command}
use lookauniversalremote.Tv.History.{Command, outcome, send_command-outcome}
use lookauniversalremote.Tests.Samples.{ascii_codec, bridge, bridge-IsReady}

abbrev service : TvCommandService
service = record {
  bridge = some bridge;
  command_history = [];
  listeners = 3 ∷ [];
  last_dispatched_at = 0;
}

abbrev mute : Command
mute = record { at = 1000; code = pos 7; device = pos 0 }

send_command-outcome_example :
    send_command ascii_codec (λ t. t) keep 1000 (pos 7) (pos 0) service []
    ≡ outcome ascii_codec (λ t. t) keep mute service []
send_command-outcome_example =
    send_command-outcome ascii_codec (λ t. t) keep mute service [] bridge-IsReady (omega arith)
