-- ===== src/Protocol/Sequence/Window.antt =====
-- The 16-bit numbers stand for an unbounded count, as long as the frames stay within half the range.
use lookauniversalremote.Prelude.{
  ℕ, zero, suc, ◌+◌, ◌%◌, ◌≤◌, ◌<◌, ◌≡◌, refl, ap, arith, max, pos, Bool, true, ◌&&◌, ltb, List, [],
  ◌∷◌, map,
}
use lookauniversalremote.Protocol.Sequence.{
  is_valid_sequence_advance, SequenceTracker, check_and_update, SequenceGenerator, next,
  new_generator,
}

-- Of two counts at most 65535 apart the later one is an advance exactly up to a distance of 32767,
-- and the earlier one is taken for an advance exactly from a distance of 32769.
pub advance-distance :
    (a k : ℕ)
    → k < 65536
    → (is_valid_sequence_advance (pos a) (pos (a + k)) ≡ (ltb 0 k && ltb k 32768))
      × (is_valid_sequence_advance (pos (a + k)) (pos a) ≡ ltb 32768 k)
unfolding is_valid_sequence_advance
advance-distance a k h = (ground arith, ground arith)

-- The answers of `checkAndUpdate` on the frames with the counts `ns`, of which the wire carries the
-- low 16 bits.
abbrev pub accepted : SequenceTracker → List ℕ → List Bool
accepted t [] = []
accepted t (n ∷ ns) =
    let (t', yes_no) = check_and_update t (pos (n % 65536)) in yes_no ∷ accepted t' ns

-- The same with unbounded counts: a frame is new if its count is above all before it.
abbrev pub newer : ℕ → List ℕ → List Bool
newer highest [] = []
newer highest (n ∷ ns) = ltb highest n ∷ newer (max highest n) ns

-- Each count is less than 32768 above the highest before it, and at most 32768 below.
abbrev pub StaysNear : ℕ → List ℕ → Type 0
StaysNear highest [] = Unit
StaysNear highest (n ∷ ns) =
    (n < highest + 32768) × (highest ≤ n + 32768) × StaysNear (max highest n) ns

-- A tracker that has seen the count `highest`.
abbrev pub tracking : ℕ → SequenceTracker
tracking highest = record { latest_word = highest % 65536; initialized = true }

advance-near :
    (h n : ℕ)
    → n < h + 32768
    → h ≤ n + 32768
    → is_valid_sequence_advance (pos (h % 65536)) (pos (n % 65536 % 65536)) ≡ ltb h n
unfolding is_valid_sequence_advance
advance-near h n above below = ground arith

check_and_update-near :
    (h n : ℕ)
    → n < h + 32768
    → h ≤ n + 32768
    → check_and_update (tracking h) (pos (n % 65536)) ≡ (tracking (max h n), ltb h n)
unfolding check_and_update
check_and_update-near h n above below =
    let once : n % 65536 % 65536 ≡ n % 65536 = omega arith in
    rw (advance-near h n above below, once) (ground arith)

-- Within the window the tracker accepts exactly the frames that are newer than all before them:
-- it refines a tracker with unbounded counts, across every wrap of the 16 bits.
pub accepted-eq-newer :
    (h : ℕ) (ns : List ℕ) → StaysNear h ns → accepted (tracking h) ns ≡ newer h ns
accepted-eq-newer h [] near = refl
accepted-eq-newer h (n ∷ ns) near =
    rw (check_and_update-near h n near.0 near.1)
      (ap (λ t. ltb h n ∷ t) (accepted-eq-newer (max h n) ns near.2))

-- The numbers of `n` calls of `next`.
abbrev pub generate : ℕ → SequenceGenerator → List ℕ
generate zero g = []
generate (suc n) g = let (g', seq) = next g in seq ∷ generate n g'

abbrev pub counts : ℕ → ℕ → List ℕ
counts zero start = []
counts (suc n) start = start ∷ counts n (start + 1)

-- A generator hands out the counts from its start on, modulo 65536.
pub generate-counts :
    (n start : ℕ) → generate n (new_generator (pos start)) ≡ map (λ k. k % 65536) (counts n start)
unfolding next new_generator
generate-counts zero start = refl
generate-counts (suc n) start =
    let wraps : (start % 65536 + 1) % 65536 ≡ (start + 1) % 65536 = omega arith in
    ap (λ t. (start % 65536) ∷ t) (rw wraps (generate-counts n (start + 1)))
