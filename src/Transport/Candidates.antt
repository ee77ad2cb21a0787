-- ===== src/Transport/Candidates.antt =====
-- WebRtcTransport.ts: ICE candidates reach the peer connection, each once, however the answer and the
-- queued candidates are settled between the messages.
use lookauniversalremote.Prelude.{
  ℕ, zero, suc, ◌≡◌, refl, subst, true, false, List, [], ◌∷◌, ◌++◌, take, drop, some,
}
use mathlib.Core.List.{append-nil, append_assoc}
use lookauniversalremote.Transport.State.{Candidate, SignalingMessage, WebRtcTransport}
use lookauniversalremote.Transport.Peer.{
  recreate_peer_connection, close_pc, close_channel, notify_error,
}
use lookauniversalremote.Transport.Events.{
  on_answer_settled, on_candidate_settled, handle_signaling_message,
}

-- The candidates among messages, in order.
abbrev pub candidates : List SignalingMessage → List Candidate
candidates [] = []
candidates (SignalingMessage.ice_candidate c ∷ ms) = c ∷ candidates ms
candidates (_ ∷ ms) = candidates ms

-- What happens after an answer is set: a message arrives, or the candidate that the loop waits for is
-- settled.
pub data Turn : Type 0 where
  arrives : SignalingMessage → Turn
  settles : Turn

-- The candidates that arrive, in order, and how many turns of the loop follow.
abbrev pub arriving : List Turn → List SignalingMessage
arriving [] = []
arriving (arrives m ∷ ts) = m ∷ arriving ts
arriving (settles ∷ ts) = arriving ts

abbrev pub settlements : List Turn → ℕ
settlements [] = 0
settlements (arrives m ∷ ts) = settlements ts
settlements (settles ∷ ts) = suc (settlements ts)

-- The third list has the items of the first two, each once; those of each are in their order.
pub data IsMerge {A : Type 0} : List A → List A → List A → Type 0 where
  nothing : IsMerge [] [] []
  from_first :
      {xs ys zs : List A} → IsMerge xs ys zs → (x : A) → IsMerge (xs ++ x ∷ []) ys (zs ++ x ∷ [])
  from_second :
      {xs ys zs : List A} → IsMerge xs ys zs → (y : A) → IsMerge xs (ys ++ y ∷ []) (zs ++ y ∷ [])

nothing_more :
    (first second given : List Candidate)
    → IsMerge first second given
    → IsMerge (first ++ []) (second ++ []) given
nothing_more first second given h = rw (append-nil first, append-nil second) h

module _ {D : Type 0} where
  -- Messages before the answer is set, and turns after that, at a peer connection that takes every
  -- candidate.
  abbrev pub handle_all : List SignalingMessage → WebRtcTransport D → WebRtcTransport D
  handle_all [] s = s
  handle_all (m ∷ ms) s = handle_all ms (handle_signaling_message (λ c. true) m s)

  abbrev pub turn_all : List Turn → WebRtcTransport D → WebRtcTransport D
  turn_all [] s = s
  turn_all (arrives m ∷ ts) s = turn_all ts (handle_signaling_message (λ c. true) m s)
  turn_all (settles ∷ ts) s = turn_all ts (on_candidate_settled (λ c. true) true s)

  abbrev pub negotiate : List SignalingMessage → List Turn → WebRtcTransport D → WebRtcTransport D
  negotiate ms ts s = turn_all ts (on_answer_settled (λ c. true) true (handle_all ms s))

  -- The transport after the answer is set, with the candidates given so far and those that wait;
  -- and before it.
  abbrev answered : ℕ → List Candidate → List Candidate → WebRtcTransport D → WebRtcTransport D
  answered p given queue t = record t {
    pc = some p;
    remote_description_set = true;
    has_remote_description = true;
    pending_candidates = queue;
    added = given;
  }

  abbrev waiting : ℕ → List Candidate → WebRtcTransport D → WebRtcTransport D
  waiting p queue t = record t {
    pc = some p;
    remote_description_set = false;
    has_remote_description = false;
    pending_candidates = queue;
    added = [];
  }

  -- Of the queue the first `n` are given, in their order, with others, in theirs, between them.
  abbrev pub IsShared : ℕ → List Candidate → List Candidate → WebRtcTransport D → Type 0
  IsShared n queue others s =
      (s.pending_candidates ≡ drop n queue) × IsMerge (take n queue) others s.added

  -- The same, after what was given of both before.
  abbrev IsContinued :
      List Candidate
      → List Candidate
      → ℕ
      → List Candidate
      → List Candidate
      → WebRtcTransport D
      → Type 0
  IsContinued first second n queue others s =
      (s.pending_candidates ≡ drop n queue)
      × IsMerge (first ++ take n queue) (second ++ others) s.added

  of_none :
      (first second others : List Candidate) (n : ℕ) (s : WebRtcTransport D)
      → IsContinued first second n [] others s
      → IsContinued first second (suc n) [] others s
  of_none first second others zero s h = h
  of_none first second others (suc n) s h = h

  turn_all-IsContinued :
      (ts : List Turn) (p : ℕ) (first second given queue : List Candidate) (t : WebRtcTransport D)
      → IsMerge first second given
      → IsContinued first second
          (settlements ts)
          queue
          (candidates (arriving ts))
          (turn_all ts (answered p given queue t))
  unfolding handle_signaling_message on_candidate_settled
  turn_all-IsContinued [] p first second given queue t h = (refl, nothing_more first second given h)
  turn_all-IsContinued (settles ∷ ts) p first second given [] t h =
      of_none first second (candidates (arriving ts)) (settlements ts)
        (turn_all ts (answered p given [] t)) (turn_all-IsContinued ts p first second given [] t h)
  turn_all-IsContinued (settles ∷ ts) p first second given (x ∷ xs) t h =
      let (rest, merged) =
        turn_all-IsContinued ts p (first ++ x ∷ []) second (given ++ x ∷ []) xs t
          (from_first h x) in
      (rest, rw (append_assoc first (x ∷ []) (take (settlements ts) xs)) at merged)
  turn_all-IsContinued (arrives (SignalingMessage.ice_candidate c) ∷ ts) p first second given queue
        t h =
      let (rest, merged) =
        turn_all-IsContinued ts p first (second ++ c ∷ []) (given ++ c ∷ []) queue t
          (from_second h c) in
      (rest, rw (append_assoc second (c ∷ []) (candidates (arriving ts))) at merged)
  turn_all-IsContinued (arrives (SignalingMessage.error_message text) ∷ ts) p first second given
        queue t h =
      turn_all-IsContinued ts p first second given queue (notify_error t) h
  turn_all-IsContinued (arrives (SignalingMessage.answer sdp) ∷ ts) p first second given queue t h =
      turn_all-IsContinued ts p first second given queue t h
  turn_all-IsContinued (arrives (SignalingMessage.offer sdp) ∷ ts) p first second given queue t h =
      turn_all-IsContinued ts p first second given queue t h
  turn_all-IsContinued (arrives SignalingMessage.ping ∷ ts) p first second given queue t h =
      turn_all-IsContinued ts p first second given queue t h
  turn_all-IsContinued (arrives SignalingMessage.pong ∷ ts) p first second given queue t h =
      turn_all-IsContinued ts p first second given queue t h
  turn_all-IsContinued (arrives (SignalingMessage.state_message text) ∷ ts) p first second given
        queue t h =
      turn_all-IsContinued ts p first second given queue t h

  -- Setting the answer is the first turn of the loop.
  answered-IsShared :
      (ts : List Turn) (p : ℕ) (queue : List Candidate) (t : WebRtcTransport D)
      → IsShared
          (suc (settlements ts))
          queue
          (candidates (arriving ts))
          (turn_all ts (on_answer_settled (λ c. true) true (waiting p queue t)))
  unfolding on_answer_settled
  answered-IsShared ts p [] t =
      of_none [] [] (candidates (arriving ts)) (settlements ts) (turn_all ts (answered p [] [] t))
        (turn_all-IsContinued ts p [] [] [] [] t nothing)
  answered-IsShared ts p (x ∷ xs) t =
      turn_all-IsContinued ts p (x ∷ []) [] (x ∷ []) xs t (from_first nothing x)

  waiting_all :
      (ms : List SignalingMessage) (ts : List Turn) (p : ℕ) (queue : List Candidate)
      (t : WebRtcTransport D)
      → IsShared
          (suc (settlements ts))
          (queue ++ candidates ms)
          (candidates (arriving ts))
          (negotiate ms ts (waiting p queue t))
  unfolding handle_signaling_message
  waiting_all [] ts p queue t = rw (append-nil queue) (answered-IsShared ts p queue t)
  waiting_all (SignalingMessage.ice_candidate c ∷ ms) ts p queue t =
      subst
        (λ q.
          IsShared (suc (settlements ts)) q (candidates (arriving ts))
            (negotiate ms ts (waiting p (queue ++ c ∷ []) t)))
        (append_assoc queue (c ∷ []) (candidates ms)) (waiting_all ms ts p (queue ++ c ∷ []) t)
  waiting_all (SignalingMessage.answer sdp ∷ ms) ts p queue t = waiting_all ms ts p queue t
  waiting_all (SignalingMessage.error_message text ∷ ms) ts p queue t =
      waiting_all ms ts p queue (notify_error t)
  waiting_all (SignalingMessage.offer sdp ∷ ms) ts p queue t = waiting_all ms ts p queue t
  waiting_all (SignalingMessage.ping ∷ ms) ts p queue t = waiting_all ms ts p queue t
  waiting_all (SignalingMessage.pong ∷ ms) ts p queue t = waiting_all ms ts p queue t
  waiting_all (SignalingMessage.state_message text ∷ ms) ts p queue t = waiting_all ms ts p queue t

  -- A new peer connection gets messages, then the answer is set, then more messages come between the
  -- turns of the loop over the queue, in any order. When it takes every candidate, then after `n`
  -- turns of the loop, the first one at the answer included, it was given the first `n` candidates
  -- that came before the answer was set and all that came after, each once, both in their order; and
  -- exactly the other ones still wait, in order.
  pub negotiate-IsShared :
      (ms : List SignalingMessage) (ts : List Turn) (s : WebRtcTransport D)
      → IsShared
          (suc (settlements ts))
          (candidates ms)
          (candidates (arriving ts))
          (negotiate ms ts (recreate_peer_connection s))
  unfolding recreate_peer_connection
  negotiate-IsShared ms ts s =
      waiting_all ms ts (close_pc (close_channel s)).next_pc [] (recreate_peer_connection s)
