-- ===== src/Bridge/Incoming.antt =====
-- ProtocolBridge.ts: the listeners and `handleIncomingData`. What it does is the list of its calls,
-- in order. A listener that throws is caught, so the calls after it are made all the same; a
-- listener that subscribes or unsubscribes another during the loop is not modelled.
use lookauniversalremote.Prelude.{
  ℕ, ◌==◌, if◌then◌else◌, Bool, true, false, ℤ, pos, ◌-ℤ◌, max_ℤ, leb_ℤ, word32, signed32, List, [],
  ◌∷◌, ◌++◌, map,
}
use lookauniversalremote.Protocol.Types.{
  HapticEventPayload, SlotAssignmentPayload, MessagePayload, heartbeat, haptic, slot_assignment,
  Packet,
}
use lookauniversalremote.Protocol.View.{TextCodec}
use lookauniversalremote.Protocol.Reader.{Result, ok, throw, Input, DecodeError}
use lookauniversalremote.Protocol.Decoder.{decode_packet}
use lookauniversalremote.Bridge.{Bridge, epoch_ms}

-- `Set.add` and `Set.delete`, in order of insertion.
unfoldable pub contains : List ℕ → ℕ → Bool
contains [] h = false
contains (x ∷ xs) h = if x == h then true else contains xs h

unfoldable pub add : ℕ → List ℕ → List ℕ
unfolding contains
add h xs = if contains xs h then xs else xs ++ h ∷ []

unfoldable pub delete : ℕ → List ℕ → List ℕ
delete h [] = []
delete h (x ∷ xs) = if x == h then xs else x ∷ delete h xs

unfoldable pub on_packet : ℕ → Bridge → Bridge
unfolding add
on_packet h b = record b { packet_handlers = add h b.packet_handlers }

unfoldable pub on_rtt : ℕ → Bridge → Bridge
unfolding add
on_rtt h b = record b { rtt_handlers = add h b.rtt_handlers }

unfoldable pub on_slot_assignment : ℕ → Bridge → Bridge
unfolding add
on_slot_assignment h b = record b { slot_handlers = add h b.slot_handlers }

-- The functions that the three above return: they unsubscribe the listener.
unfoldable pub off_packet : ℕ → Bridge → Bridge
unfolding delete
off_packet h b = record b { packet_handlers = delete h b.packet_handlers }

unfoldable pub off_rtt : ℕ → Bridge → Bridge
unfolding delete
off_rtt h b = record b { rtt_handlers = delete h b.rtt_handlers }

unfoldable pub off_slot_assignment : ℕ → Bridge → Bridge
unfolding delete
off_slot_assignment h b = record b { slot_handlers = delete h b.slot_handlers }

-- The motor names of the haptic engine.
pub data MotorName : Type 0 where
  left right both : MotorName

pub data Call : Type 0 where
  rtt_call : ℕ → ℤ → ℤ → Call
  motor_feedback : MotorName → ℤ → ℤ → Call
  slot_call : ℕ → SlotAssignmentPayload → Call
  packet_call : ℕ → Packet → Call
  -- the console warning about a frame that does not decode
  warn : DecodeError → Call

-- `Math.max(0, (now - hb.clientEpochMs) & 0xffffffff)`
unfoldable pub rtt_ms : ℕ → ℤ → ℤ
rtt_ms now client_epoch_ms = max_ℤ (pos 0) (signed32 (word32 (epoch_ms now -ℤ client_epoch_ms)))

-- `haptic.motorIndex === 1 ? 'left' : haptic.motorIndex === 2 ? 'right' : 'both'`
unfoldable pub motor_type : ℤ → MotorName
motor_type (pos i) = if i == 1 then left else if i == 2 then right else both
motor_type other = both

unfoldable pub haptic_calls : HapticEventPayload → List Call
unfolding motor_type
haptic_calls p =
    if leb_ℤ p.duration_ms (pos 0)
    then []
    else motor_feedback (motor_type p.motor_index) p.intensity p.duration_ms ∷ []

-- The three blocks that look at the packet's type. The type of a decoded header is that of its
-- payload (`Protocol.Decoder.Verdict`), so the casts of the source are matches here.
unfoldable pub typed_calls : Bridge → ℕ → MessagePayload → List Call
typed_calls b now (heartbeat p) =
    map (λ h. rtt_call h (rtt_ms now p.client_epoch_ms) p.echo_token) b.rtt_handlers
typed_calls b now (haptic p) = haptic_calls p
typed_calls b now (slot_assignment p) = map (λ h. slot_call h p) b.slot_handlers
typed_calls b now _ = []

handle_result : Bridge → ℕ → Result Packet → List Call
unfolding typed_calls
handle_result b now (ok packet) =
    typed_calls b now packet.payload ++ map (λ h. packet_call h packet) b.packet_handlers
handle_result b now (throw e) = warn e ∷ []

unfoldable pub handle_incoming_data : TextCodec → Bridge → ℕ → Input → List Call
unfolding handle_result
handle_incoming_data codec b now input = handle_result b now (decode_packet codec input)

-- What a frame from the transport causes: nothing once the bridge is destroyed.
unfoldable pub receive : TextCodec → Bridge → ℕ → Input → List Call
unfolding handle_incoming_data
receive codec b now input = if b.bound then handle_incoming_data codec b now input else []
