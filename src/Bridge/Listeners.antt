-- ===== src/Bridge/Listeners.antt =====
-- The packet listeners: how often a decoded packet reaches each.
use lookauniversalremote.Prelude.{
  ℕ, suc, ◌+◌, ◌≤◌, ◌≡◌, refl, ◌∙◌, arith, ◌==◌, if◌then◌else◌, true, false, List, [], ◌∷◌, ◌++◌,
  map,
}
use lookauniversalremote.Protocol.Types.{
  MessagePayload, heartbeat, haptic, slot_assignment, HapticEventPayload, Packet,
}
use lookauniversalremote.Protocol.View.{TextCodec}
use lookauniversalremote.Protocol.Reader.{Input, ok}
use lookauniversalremote.Protocol.Decoder.{decode_packet}
use lookauniversalremote.Bridge.{Bridge}
use lookauniversalremote.Bridge.Incoming.{
  Call, rtt_call, packet_call, add, delete, contains, on_packet, off_packet, typed_calls,
  haptic_calls, handle_incoming_data,
}

-- How often a listener stands in a list.
abbrev pub count : ℕ → List ℕ → ℕ
count h [] = 0
count h (x ∷ xs) = let rest = count h xs in if x == h then suc rest else rest

count-snoc :
    (h k : ℕ) (xs : List ℕ)
    → count h (xs ++ k ∷ []) ≡ (if k == h then suc (count h xs) else count h xs)
count-snoc h k [] = refl
count-snoc h k (x ∷ xs) = ground (arith, count-snoc h k xs)

contains-count : (h : ℕ) (xs : List ℕ) → contains xs h ≡ false → count h xs ≡ 0
unfolding contains
contains-count h [] e = refl
contains-count h (x ∷ xs) e = ground (arith, contains-count h xs)

count-contains : (h : ℕ) (xs : List ℕ) → contains xs h ≡ true → 1 ≤ count h xs
unfolding contains
count-contains h [] e = cc
count-contains h (x ∷ xs) e = ground (arith, count-contains h xs)

-- Adding an entry leaves every other one as it was, and has this one exactly once.
pub add-count :
    (h k : ℕ) (xs : List ℕ)
    → count h xs ≤ 1
    → count k (add h xs) ≡ (if h == k then 1 else count k xs)
unfolding add
add-count h k xs once = ground (arith, contains-count h xs, count-contains h xs, count-snoc k h xs)

-- Taking an entry out leaves every other one as it was.
pub delete-count :
    (h k : ℕ) (xs : List ℕ)
    → count h xs ≤ 1
    → count k (delete h xs) ≡ (if h == k then 0 else count k xs)
unfolding delete
delete-count h k [] once = ground arith
delete-count h k (x ∷ xs) once = ground (arith, delete-count h k xs)

-- How often `h` is called with a packet.
abbrev pub calls_to : ℕ → List Call → ℕ
calls_to h [] = 0
calls_to h (packet_call k p ∷ cs) = let rest = calls_to h cs in if k == h then suc rest else rest
calls_to h (_ ∷ cs) = calls_to h cs

calls_to-append :
    (h : ℕ) (cs ds : List Call) → calls_to h (cs ++ ds) ≡ calls_to h cs + calls_to h ds
calls_to-append h [] ds = omega arith
calls_to-append h (rtt_call k r t ∷ cs) ds = calls_to-append h cs ds
calls_to-append h (packet_call k p ∷ cs) ds = ground (arith, calls_to-append h cs ds)
calls_to-append h (_ ∷ cs) ds = calls_to-append h cs ds

calls_to-listeners :
    (h : ℕ) (p : Packet) (xs : List ℕ) → calls_to h (map (λ k. packet_call k p) xs) ≡ count h xs
calls_to-listeners h p [] = refl
calls_to-listeners h p (x ∷ xs) = ground (arith, calls_to-listeners h p xs)

-- Calls of another kind.
calls_to-others :
    (h : ℕ) (f : ℕ → Call) (xs : List ℕ)
    → ((k : ℕ) (cs : List Call) → calls_to h (f k ∷ cs) ≡ calls_to h cs)
    → calls_to h (map f xs) ≡ 0
calls_to-others h f [] other = refl
calls_to-others h f (x ∷ xs) other = other x (map f xs) ∙ calls_to-others h f xs other

calls_to-haptic : (h : ℕ) (p : HapticEventPayload) → calls_to h (haptic_calls p) ≡ 0
unfolding haptic_calls
calls_to-haptic h p = ground arith

calls_to-typed :
    (h : ℕ) (b : Bridge) (now : ℕ) (p : MessagePayload) → calls_to h (typed_calls b now p) ≡ 0
unfolding typed_calls
calls_to-typed h b now (heartbeat p) = calls_to-others h _ b.rtt_handlers (λ k cs. refl)
calls_to-typed h b now (haptic p) = calls_to-haptic h p
calls_to-typed h b now (slot_assignment p) = calls_to-others h _ b.slot_handlers (λ k cs. refl)
calls_to-typed h b now _ = refl

calls_to-handled :
    (codec : TextCodec) (h : ℕ) (b : Bridge) (now : ℕ) (input : Input) (packet : Packet)
    → decode_packet codec input ≡ ok packet
    → calls_to h (handle_incoming_data codec b now input) ≡ count h b.packet_handlers
unfolding handle_incoming_data
calls_to-handled codec h b now input packet decoded = rw decoded (
    rw
      (
        calls_to-append h (typed_calls b now packet.payload)
            (map (λ k. packet_call k packet) b.packet_handlers),
        calls_to-typed h b now packet.payload,
        calls_to-listeners h packet b.packet_handlers,
      )
      (omega arith))

-- A listener that subscribes to packets is called exactly once for each frame that decodes, however
-- often it subscribed; once it has unsubscribed it is not called any more. Neither changes how
-- often any other listener is called.
pub on_packet-calls_to :
    (codec : TextCodec) (h k : ℕ) (b : Bridge) (now : ℕ) (input : Input) (packet : Packet)
    → decode_packet codec input ≡ ok packet
    → count h b.packet_handlers ≤ 1
    → (calls_to k (handle_incoming_data codec (on_packet h b) now input)
        ≡ (if h == k then 1 else calls_to k (handle_incoming_data codec b now input)))
      × (calls_to k (handle_incoming_data codec (off_packet h b) now input)
          ≡ (if h == k then 0 else calls_to k (handle_incoming_data codec b now input)))
unfolding on_packet off_packet
on_packet-calls_to codec h k b now input packet decoded once = (
  rw
      (
        calls_to-handled codec k (on_packet h b) now input packet decoded,
        calls_to-handled codec k b now input packet decoded,
      )
      (add-count h k b.packet_handlers once),
  rw
      (
        calls_to-handled codec k (off_packet h b) now input packet decoded,
        calls_to-handled codec k b now input packet decoded,
      )
      (delete-count h k b.packet_handlers once),
)
