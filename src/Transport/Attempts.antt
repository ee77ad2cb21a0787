-- ===== src/Transport/Attempts.antt =====
-- WebRtcTransport.ts: how often and how soon it reconnects.
use lookauniversalremote.Prelude.{
  All-snoc, ◌*◌, ◌^◌, ◌⊎◌, inl, inr, subst, pos, ◌≤ℤ◌, leb→le, ℕ, suc, ◌+◌, ◌-◌, ◌≤◌, ◌≡◌, sym,
  if◌then◌else◌, if_either, Bool, true, false, length, length-append, leb, List, [], ◌∷◌, ◌++◌, All,
  arith,
}
use lookauniversalremote.Prelude.Ratio.{Ratio}
use lookauniversalremote.Transport.State.{backoff_ms, WebRtcTransport}
use lookauniversalremote.Transport.Peer.{
  recreate_peer_connection, on_offer_created, on_ice_candidate, connect, connect_failed,
  on_socket_open, max_attempts, on_reconnect_timeout, on_reconnect_done, on_reconnect_failed,
  on_ice_state, send, disconnect,
}
use lookauniversalremote.Transport.Events.{
  on_channel_open, on_channel_close, on_channel_error, on_channel_message, on_answer_settled,
  on_candidate_settled, handle_signaling_message,
}
use lookauniversalremote.Transport.Run.{Event, connects, channel_opens, disconnects, step, run}

-- A delay of at most 8 seconds.
abbrev pub IsShort : Ratio → Type 0
IsShort r = r.num ≤ℤ pos (8000 * r.den)

backoff_ms-IsShort : (n : ℕ) → IsShort (backoff_ms n)
unfolding backoff_ms
backoff_ms-IsShort n =
    if_either IsShort (leb (1000 * 3 ^ n) (8000 * 2 ^ n))
      (λ below. omega (arith, leb→le (1000 * 3 ^ n) (8000 * 2 ^ n) below)) (λ above. omega arith)

-- The events that start the count again.
abbrev pub resets : Event → Bool
resets (channel_opens k) = true
resets disconnects = true
resets _ = false

module _ {D : Type 0} where
  -- The counter stays at most `n`, and no reconnection is scheduled after a longer delay.
  pub record IsBounded (n : ℕ) (s : WebRtcTransport D) : Type 0 where
    pub bound : max_attempts s ≡ n
    pub within : s.reconnect_attempts ≤ n
    pub short : All IsShort s.timeouts

  -- How many timeouts of reconnections are set by the events, counted from the last opening of a
  -- channel or call of `disconnect` on; `k` were set before.
  abbrev pub counted : Event → WebRtcTransport D → ℕ → ℕ
  counted e s k = if resets e then 0 else k + (length (step e s).timeouts - length s.timeouts)

  abbrev pub scheduled : List Event → WebRtcTransport D → ℕ → ℕ
  scheduled [] s k = k
  scheduled (e ∷ es) s k = scheduled es (step e s) (counted e s k)

  -- A step schedules at most one reconnection, and counts it.
  record IsStep (n : ℕ) (s t : WebRtcTransport D) : Type 0 where
    bound : max_attempts t ≡ n
    within : t.reconnect_attempts ≤ n
    timeouts :
        (t.timeouts ≡ s.timeouts)
        ⊎ (t.timeouts ≡ s.timeouts ++ backoff_ms (suc s.reconnect_attempts) ∷ [])

  -- The attempts that the step counts are at least those that are scheduled.
  abbrev IsCounted : WebRtcTransport D → WebRtcTransport D → Type 0
  IsCounted s t =
      ((t.timeouts ≡ s.timeouts) × (t.reconnect_attempts ≡ s.reconnect_attempts))
      ⊎ ((t.timeouts ≡ s.timeouts ++ backoff_ms (suc s.reconnect_attempts) ∷ [])
          × (t.reconnect_attempts ≡ suc s.reconnect_attempts))

  step-IsStep :
      (n : ℕ) (e : Event) (s : WebRtcTransport D)
      → max_attempts s ≡ n
      → s.reconnect_attempts ≤ n
      → IsStep n s (step e s)
  unfolding step max_attempts connect recreate_peer_connection connect_failed on_offer_created
      on_ice_candidate on_ice_state on_socket_open on_reconnect_timeout on_reconnect_done
      on_reconnect_failed on_channel_open on_channel_close on_channel_error on_channel_message send
      disconnect handle_signaling_message on_answer_settled on_candidate_settled
  step-IsStep n (connects creates) s b h = ground arith
  step-IsStep n _ s b h = ground arith

  step-IsCounted : (e : Event) (s : WebRtcTransport D) → resets e ≡ false → IsCounted s (step e s)
  unfolding step connect recreate_peer_connection connect_failed on_offer_created on_ice_candidate
      on_ice_state on_socket_open on_reconnect_timeout on_reconnect_done on_reconnect_failed
      on_channel_close on_channel_error on_channel_message send handle_signaling_message
      on_answer_settled on_candidate_settled
  step-IsCounted (channel_opens k) s e = absurd cc
  step-IsCounted disconnects s e = absurd cc
  step-IsCounted _ s e = ground arith

  counted_le :
      (e : Event) (s : WebRtcTransport D) (k : ℕ)
      → k ≤ s.reconnect_attempts
      → counted e s k ≤ (step e s).reconnect_attempts
  counted_le e s k h =
      if_either (λ c. c ≤ (step e s).reconnect_attempts) (resets e) (λ yes. omega arith)
        (λ no. elim (step-IsCounted e s no) [
          | inl (same, kept) ↦ rw same (omega (arith, kept))
          | inr (more, next) ↦ rw more (
              omega (
                arith,
                next,
                length-append s.timeouts (backoff_ms (suc s.reconnect_attempts) ∷ []),
              ))
        ])

  step-IsBounded :
      (n : ℕ) (e : Event) (s : WebRtcTransport D) → IsBounded n s → IsBounded n (step e s)
  step-IsBounded n e s h =
      let next = step-IsStep n e s h.bound h.within in
      record {
        bound = next.bound;
        within = next.within;
        short = elim next.timeouts [
          | inl same ↦ subst (All IsShort) (sym same) h.short
          | inr more ↦ subst (All IsShort) (sym more) (
              All-snoc IsShort s.timeouts _ h.short (backoff_ms-IsShort (suc s.reconnect_attempts)))
        ];
      }

  -- From a transport whose count of attempts is at most `n`, which is what the option says, 5 without
  -- it, and whose timeouts are of at most 8 seconds, whatever happens in any order: since the last
  -- opening of a channel or call of `disconnect` at most `n` timeouts of reconnections were set; while
  -- there was none, at most `n` together with `k` earlier ones that the count includes. The count
  -- stays at most `n`, and each timeout is of at most 8 seconds.
  pub run-IsBounded :
      (n k : ℕ) (es : List Event) (s : WebRtcTransport D)
      → IsBounded n s
      → k ≤ s.reconnect_attempts
      → (scheduled es s k ≤ n) × IsBounded n (run es s)
  run-IsBounded n k [] s h counts = (omega (arith, h.within), h)
  run-IsBounded n k (e ∷ es) s h counts =
      run-IsBounded n (counted e s k) es (step e s) (step-IsBounded n e s h)
        (counted_le e s k counts)
