-- ===== src/Tv/History.antt =====
-- The history of the TV commands, and what each dispatch does.
use lookauniversalremote.Prelude.{
  ℕ, suc, ◌-◌, ◌≤◌, ◌<◌, ◌≡◌, refl, ap, ap₂, ◌∙◌, sym, arith, Bool, true, false, ℤ, pos, List, [],
  ◌∷◌, ◌++◌, map, length, drop, drop-append, drop_one-drop, Option, none, some, length-append,
  length-drop,
}
use native.Mathlib.Decide.{dec_le}
use mathlib.Core.List.{append-nil, append_assoc}
use lookauniversalremote.Protocol.View.{TextCodec}
use lookauniversalremote.Bridge.{Bridge}
use lookauniversalremote.Bridge.Send.{Request, IsReady, after}
use lookauniversalremote.Bridge.Send.Stream.{request_frame, send_tv_command-frame, after-IsReady}
use lookauniversalremote.Tv.{
  CommandDispatchRecord, TvCommandService, trim, record_dispatch, send_command, get_recent_history,
  Dispatched,
}

-- The last 50 entries, or all when there are fewer.
abbrev pub last_50 {ℓ} : {A : Type ℓ} → List A → List A
last_50 xs = drop (length xs - 50) xs

trim_short : (h : List CommandDispatchRecord) → length h ≤ 50 → trim h ≡ h
unfolding trim
trim_short h le = ground arith

trim_long : (h : List CommandDispatchRecord) → 50 < length h → trim h ≡ drop 1 h
unfolding trim
trim_long h gt = ground arith

-- Appending an entry and shifting one out, when there are more than 50, keeps the last 50.
trim-last_50 :
    (old : List CommandDispatchRecord) (r : CommandDispatchRecord)
    → trim (last_50 old ++ r ∷ []) ≡ last_50 (old ++ r ∷ [])
trim-last_50 old r =
    let n = length old - 50 in
    let k = length-append old (r ∷ []) in
    let joined = drop-append n old (r ∷ []) (omega arith) in
    let skip : (m : ℕ)
        → m ≡ length (old ++ r ∷ []) - 50
        → drop m (old ++ r ∷ []) ≡ last_50 (old ++ r ∷ []) =
      λ m e. ap (λ i. drop i (old ++ r ∷ [])) e in
    elim (dec_le 50 (length old)) [
      | yes le ↦
          trim_long (last_50 old ++ r ∷ [])
            (omega (arith, length-append (last_50 old) (r ∷ []), length-drop n old))
          ∙ ap (drop 1) (sym joined)
          ∙ drop_one-drop n (old ++ r ∷ [])
          ∙ skip (suc n) (omega arith)
      | no gt ↦
          trim_short (last_50 old ++ r ∷ [])
            (omega (arith, length-append (last_50 old) (r ∷ []), length-drop n old))
          ∙ sym joined
          ∙ skip n (omega arith)
    ]

trim-append :
    (h : List CommandDispatchRecord) (r : CommandDispatchRecord)
    → length h ≤ 50
    → trim (h ++ r ∷ []) ≡ last_50 (h ++ r ∷ [])
trim-append h r le =
    let whole : last_50 h ≡ h = ap (λ m. drop m h) {y = 0} (omega arith) in
    ap (λ t. trim (t ++ r ∷ [])) (sym whole) ∙ trim-last_50 h r

-- A call of `sendCommand`: the time, the command code and the target device.
pub record Command : Type 0 where
  pub at : ℕ
  pub code : ℤ
  pub device : ℤ

-- The bridge, where there is one, can send.
abbrev pub IsUsable : Option Bridge → Type 0
IsUsable none = Unit
IsUsable (some b) = IsReady b

abbrev pub request : Command → Request
request c =
    Request.tv_command
      (record { command_code = c.code; target_device = some c.device; flags = none }) (pos 0)

abbrev pub entry : Option Bridge → Command → Bool → CommandDispatchRecord
entry none c sent = record {
  command_code = c.code;
  target_device = c.device;
  timestamp = c.at;
  success = sent;
  not_connected = true;
}
entry (some b) c sent = record {
  command_code = c.code;
  target_device = c.device;
  timestamp = c.at;
  success = sent;
  not_connected = false;
}

module _ (codec : TextCodec) (trim_text : List ℕ → List ℕ) {W : Type 0}
    (send : W → List ℕ → W × Bool) where
  -- What happens on the transport: nothing without a bridge, one frame with one.
  abbrev pub on_transport : Option Bridge → Command → W → W × Bool
  on_transport none c w = (w, false)
  on_transport (some b) c w = send w (request_frame codec send b (request c))

  abbrev pub bridge_after : Option Bridge → Command → Option Bridge
  bridge_after none c = none
  bridge_after (some b) c = some (after codec send b (request_frame codec send b (request c)))

  abbrev pub outcome : Command → TvCommandService → W → Dispatched codec trim_text send
  outcome c s w =
      let (w', sent) = on_transport s.bridge c w in
      some (
        record s {
          bridge = bridge_after s.bridge c;
          command_history = last_50 (s.command_history ++ entry s.bridge c sent ∷ []);
          last_dispatched_at = c.at;
        },
        w',
        map (λ l. record { listener = l; dispatched = entry s.bridge c sent }) s.listeners,
        sent,
      )

  with_bridge :
      (bridge : Option Bridge) (c : Command) (s : TvCommandService) (w : W)
      → IsUsable bridge
      → length s.command_history ≤ 50
      → send_command codec trim_text send c.at c.code c.device (record s { bridge = bridge }) w
        ≡ outcome c (record s { bridge = bridge }) w
  unfolding send_command record_dispatch
  with_bridge none c s w usable h = rw (trim-append s.command_history (entry none c false) h) refl
  with_bridge (some b) c s w usable h =
      rw
        (
          send_tv_command-frame codec send b w usable
              (record { command_code = c.code; target_device = some c.device; flags = none })
              (pos 0),
          send_command,
        )
        (rw (trim-append s.command_history (entry (some b) c _) h) refl)

  -- A dispatch does not throw. Without a bridge the transport is untouched and the answer is false;
  -- with a usable one the transport gets one frame, that of the command for the device, and its
  -- answer is the answer. In both cases the entry with this answer is appended to the history, of
  -- which the last 50 entries stay, and every listener is called with it, in order.
  pub send_command-outcome :
      (c : Command) (s : TvCommandService) (w : W)
      → IsUsable s.bridge
      → length s.command_history ≤ 50
      → send_command codec trim_text send c.at c.code c.device s w ≡ outcome c s w
  send_command-outcome c s w usable h = with_bridge s.bridge c s w usable h

  -- Calls of `sendCommand` in order, and their answers.
  abbrev pub dispatch_all :
      List Command → TvCommandService → W → Option (TvCommandService × W × List Bool)
  dispatch_all [] s w = some (s, w, [])
  dispatch_all (c ∷ cs) s w = elim (send_command codec trim_text send c.at c.code c.device s w) [
    | none ↦ none
    | some (s', w', calls, answer) ↦ elim (dispatch_all cs s' w') [
      | none ↦ none
      | some (s'', w'', answers) ↦ some (s'', w'', answer ∷ answers)
    ]
  ]

  bridge_after-IsUsable :
      (bridge : Option Bridge) (c : Command) → IsUsable bridge → IsUsable (bridge_after bridge c)
  bridge_after-IsUsable none c usable = tt
  bridge_after-IsUsable (some b) c usable =
      after-IsReady codec send b (request_frame codec send b (request c)) usable

-- The entries of the commands with the answers that they got.
abbrev pub entries : Option Bridge → List Command → List Bool → List CommandDispatchRecord
entries bridge [] answers = []
entries bridge (c ∷ cs) [] = []
entries bridge (c ∷ cs) (a ∷ answers) = entry bridge c a ∷ entries bridge cs answers

length-last_50 : {A : Type 0} (xs : List A) → length (last_50 xs) ≤ 50
length-last_50 xs = omega (arith, length-drop (length xs - 50) xs)

next_last_50 :
    (h old : List CommandDispatchRecord) (r : CommandDispatchRecord)
    → h ≡ last_50 old
    → last_50 (h ++ r ∷ []) ≡ last_50 (old ++ r ∷ [])
next_last_50 h old r e =
    ap (λ t. last_50 (t ++ r ∷ [])) e
    ∙ sym (trim-append (last_50 old) r (length-last_50 old))
    ∙ trim-last_50 old r

module _ (codec : TextCodec) (trim_text : List ℕ → List ℕ) {W : Type 0}
    (send : W → List ℕ → W × Bool) where
  entry_after :
      (bridge : Option Bridge) (c d : Command) (sent : Bool)
      → entry (bridge_after codec trim_text send bridge c) d sent ≡ entry bridge d sent
  entry_after none c d sent = refl
  entry_after (some b) c d sent = refl

  entries_after :
      (bridge : Option Bridge) (c : Command) (cs : List Command) (answers : List Bool)
      → entries (bridge_after codec trim_text send bridge c) cs answers ≡ entries bridge cs answers
  entries_after bridge c [] answers = refl
  entries_after bridge c (d ∷ cs) [] = refl
  entries_after bridge c (d ∷ cs) (a ∷ answers) =
      ap₂ ◌∷◌ (entry_after bridge c d a) (entries_after bridge c cs answers)

  -- Over any sequence of dispatches, with a usable bridge or none, none throws, there is an answer
  -- for each, and the history that a view reads consists of the last 50 entries of all that were
  -- dispatched, each with the answer its dispatch gave.
  pub dispatch_all-history :
      (cs : List Command) (s : TvCommandService) (w : W) (old : List CommandDispatchRecord)
      → IsUsable s.bridge
      → s.command_history ≡ last_50 old
      → (s' : TvCommandService) × (w' : W) × (answers : List Bool) × (dispatch_all codec trim_text
            send cs s w
          ≡ some (s', w', answers))
        × (length answers ≡ length cs)
        × (get_recent_history s' ≡ last_50 (old ++ entries s.bridge cs answers))
  unfolding get_recent_history
  dispatch_all-history [] s w old usable kept =
      (s, w, [], refl, refl, kept ∙ ap last_50 (sym (append-nil old)))
  dispatch_all-history (c ∷ cs) s w old usable kept =
      let (w1, sent) = on_transport codec trim_text send s.bridge c w in
      let e = entry s.bridge c sent in
      let b1 = bridge_after codec trim_text send s.bridge c in
      let s1 = record s {
        bridge = b1;
        command_history = last_50 (s.command_history ++ e ∷ []);
        last_dispatched_at = c.at;
      } in
      let short : length s.command_history ≤ 50 = rw kept (length-last_50 old) in
      let once = send_command-outcome codec trim_text send c s w usable short in
      let kept' : s1.command_history ≡ last_50 (old ++ e ∷ []) =
        next_last_50 s.command_history old e kept in
      let (s', w', answers, run, count, history) =
        dispatch_all-history cs s1 w1 (old ++ e ∷ [])
          (bridge_after-IsUsable codec trim_text send s.bridge c usable) kept' in
      (
        s',
        w',
        sent ∷ answers,
        rw (once, run, dispatch_all) refl,
        ap suc count,
        history
            ∙ ap last_50 (
                append_assoc old (e ∷ []) (entries b1 cs answers)
                ∙ ap (λ t. old ++ e ∷ t) (entries_after s.bridge c cs answers)),
      )
