-- ===== src/Motion/Listeners.antt =====
-- The set of sample listeners: what adding and removing one does to the listeners of each kind.
use lookauniversalremote.Prelude.{
  ℕ, suc, ◌+◌, ◌≤◌, ◌≡◌, ◌≢◌, arith, ◌==◌, if◌then◌else◌, List, [], ◌∷◌, ◌++◌, Option, none, some,
}
use lookauniversalremote.Motion.{SampleCallback, accumulates, keeps_latest, calls, SampleListener}
use lookauniversalremote.Motion.Pipeline.{without_listener}

abbrev pub kind : SampleCallback → ℕ
kind accumulates = 0
kind keeps_latest = 1
kind (calls f) = 2

-- The listeners of a kind, those of an identity, and those of both.
abbrev pub count_kind : ℕ → List SampleListener → ℕ
count_kind k [] = 0
count_kind k (l ∷ ls) = (if kind l.callback == k then 1 else 0) + count_kind k ls

abbrev pub count_id : ℕ → List SampleListener → ℕ
count_id i [] = 0
count_id i (l ∷ ls) = (if l.id == i then 1 else 0) + count_id i ls

abbrev pub tagged : ℕ → ℕ → List SampleListener → ℕ
tagged k i [] = 0
tagged k i (l ∷ ls) =
    (if l.id == i then (if kind l.callback == k then 1 else 0) else 0) + tagged k i ls

-- The listener whose removing function is held is the only one of the kind; without such a function
-- there is none.
abbrev pub IsBound : ℕ → Option ℕ → List SampleListener → Type 0
IsBound k none ls = count_kind k ls ≡ 0
IsBound k (some i) ls = (count_kind k ls ≡ 1) × (tagged k i ls ≡ 1)

-- Identities are all different, and below the next one.
pub record IsDistinct (ls : List SampleListener) (next : ℕ) : Type 0 where
  pub once : (i : ℕ) → count_id i ls ≤ 1
  pub below : (i : ℕ) → next ≤ i → count_id i ls ≡ 0

tagged-count_id : (k i : ℕ) (ls : List SampleListener) → tagged k i ls ≤ count_id i ls
tagged-count_id k i [] = omega arith
tagged-count_id k i (l ∷ ls) = ground (arith, tagged-count_id k i ls)

count_kind-snoc :
    (k : ℕ) (ls : List SampleListener) (l : SampleListener)
    → count_kind k (ls ++ l ∷ []) ≡ count_kind k ls + (if kind l.callback == k then 1 else 0)
count_kind-snoc k [] l = omega arith
count_kind-snoc k (m ∷ ls) l = omega (arith, count_kind-snoc k ls l)

count_id-snoc :
    (i : ℕ) (ls : List SampleListener) (l : SampleListener)
    → count_id i (ls ++ l ∷ []) ≡ count_id i ls + (if l.id == i then 1 else 0)
count_id-snoc i [] l = omega arith
count_id-snoc i (m ∷ ls) l = omega (arith, count_id-snoc i ls l)

tagged-snoc :
    (k i : ℕ) (ls : List SampleListener) (l : SampleListener)
    → tagged k i (ls ++ l ∷ [])
      ≡ tagged k i ls + (if l.id == i then (if kind l.callback == k then 1 else 0) else 0)
tagged-snoc k i [] l = omega arith
tagged-snoc k i (m ∷ ls) l = omega (arith, tagged-snoc k i ls l)

-- Removing the listener `i` of kind `k` takes one from that kind, and none from another.
count_kind-without :
    (j k i : ℕ) (ls : List SampleListener)
    → tagged k i ls ≡ 1
    → count_id i ls ≤ 1
    → count_kind j (without_listener i ls) + (if k == j then 1 else 0) ≡ count_kind j ls
count_kind-without j k i [] one once = absurd (omega arith)
count_kind-without j k i (l ∷ ls) one once =
    ground (arith, count_kind-without j k i ls, tagged-count_id k i ls)

tagged-without :
    (j m k i : ℕ) (ls : List SampleListener)
    → tagged k i ls ≡ 1
    → count_id i ls ≤ 1
    → tagged j m (without_listener i ls) + (if k == j then (if i == m then 1 else 0) else 0)
      ≡ tagged j m ls
tagged-without j m k i [] one once = absurd (omega arith)
tagged-without j m k i (l ∷ ls) one once =
    ground (arith, tagged-without j m k i ls, tagged-count_id k i ls)

count_id-without :
    (j i : ℕ) (ls : List SampleListener) → count_id j (without_listener i ls) ≤ count_id j ls
count_id-without j i [] = omega arith
count_id-without j i (l ∷ ls) = ground (arith, count_id-without j i ls)

module _ (ls : List SampleListener) (next : ℕ) (distinct : IsDistinct ls next) where
  module _ (callback : SampleCallback) where
    abbrev pub added : List SampleListener
    added = ls ++ record { id = next; callback = callback } ∷ []

    pub added-IsDistinct : IsDistinct added (suc next)
    added-IsDistinct = record {
      once = λ i. ground (
        arith,
        count_id-snoc i ls (record { id = next; callback = callback }),
        distinct.once i,
        distinct.below i,
      );
      below = λ i h.
          ground (
            arith,
            count_id-snoc i ls (record { id = next; callback = callback }),
            distinct.below i,
          );
    }

    -- A kind without a listener gets the new one; the others are not touched.
    pub added-IsBound :
        (k : ℕ) → kind callback ≡ k → IsBound k none ls → IsBound k (some next) added
    added-IsBound k same bound = (
      ground (arith, count_kind-snoc k ls (record { id = next; callback = callback })),
      ground (
        arith,
        tagged-snoc k next ls (record { id = next; callback = callback }),
        tagged-count_id k next ls,
        distinct.below next,
      ),
    )

    pub added-other :
        (k : ℕ) (o : Option ℕ) → kind callback ≢ k → IsBound k o ls → IsBound k o added
    added-other k none other bound =
        ground (arith, count_kind-snoc k ls (record { id = next; callback = callback }))
    added-other k (some i) other bound = (
      ground (arith, count_kind-snoc k ls (record { id = next; callback = callback })),
      ground (arith, tagged-snoc k i ls (record { id = next; callback = callback })),
    )

  module _ (k i : ℕ) (bound : IsBound k (some i) ls) where
    pub without-IsDistinct : IsDistinct (without_listener i ls) next
    without-IsDistinct = record {
      once = λ j. omega (arith, count_id-without j i ls, distinct.once j);
      below = λ j h. omega (arith, count_id-without j i ls, distinct.below j h);
    }

    pub without-IsBound : IsBound k none (without_listener i ls)
    without-IsBound = ground (arith, count_kind-without k k i ls bound.1 (distinct.once i), bound.0)

    pub without-other :
        (j : ℕ) (o : Option ℕ) → k ≢ j → IsBound j o ls → IsBound j o (without_listener i ls)
    without-other j none other b =
        ground (arith, count_kind-without j k i ls bound.1 (distinct.once i))
    without-other j (some m) other b = (
      ground (arith, count_kind-without j k i ls bound.1 (distinct.once i)),
      ground (arith, tagged-without j m k i ls bound.1 (distinct.once i)),
    )
