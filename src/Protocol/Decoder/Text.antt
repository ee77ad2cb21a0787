-- ===== src/Protocol/Decoder/Text.antt =====
-- The two text fields: what padding, cutting and the search for the null byte leave of a text.
use lookauniversalremote.Prelude.{
  ℕ, zero, suc, ◌+◌, ◌*◌, ◌%◌, ◌/◌, ◌<◌, ◌≡◌, refl, ap, arith, min, List, [], ◌∷◌, length, take,
  All, Cells, from_cells, ◌==◌, if◌then◌else◌,
}
use lookauniversalremote.Protocol.Encoder.Frames.{pad}
use lookauniversalremote.Protocol.Decoder.{until_null}

pub pad-Cells : (n : ℕ) (bs : List ℕ) → (c : Cells n) × (pad n bs ≡ from_cells n c [])
pad-Cells zero bs = (tt, refl)
pad-Cells (suc n) [] = let (c, e) = pad-Cells n [] in ((0, c), ap (λ t. 0 ∷ t) e)
pad-Cells (suc n) (b ∷ bs) = let (c, e) = pad-Cells n bs in ((b, c), ap (λ t. b ∷ t) e)

-- The padding is not seen behind the null search.
pub until_null-pad : (n : ℕ) (bs : List ℕ) → until_null (pad n bs) ≡ until_null (take n bs)
unfolding until_null
until_null-pad zero bs = refl
until_null-pad (suc n) [] = refl
until_null-pad (suc n) (b ∷ bs) = ap (λ t. if b == 0 then [] else b ∷ t) (until_null-pad n bs)

pub take-pad : (n : ℕ) (bs : List ℕ) → take (min (length bs) n) (pad n bs) ≡ take n bs
take-pad zero bs = let e : min (length bs) 0 ≡ 0 = omega arith in rw e
take-pad (suc n) [] = let e : min 0 (suc n) ≡ 0 = omega arith in rw e
take-pad (suc n) (b ∷ bs) =
    let e : min (suc (length bs)) (suc n) ≡ suc (min (length bs) n) = omega arith in
    rw e (ap (λ t. b ∷ t) (take-pad n bs))

-- A text with no null byte is kept whole.
pub until_null-id : (bs : List ℕ) → All (λ b. 0 < b) bs → until_null bs ≡ bs
unfolding until_null
until_null-id [] h = refl
until_null-id (b ∷ bs) h = ground (arith, until_null-id bs h.1)

-- A word put together from its two bytes.
pub le16_value : (w : ℕ) → w % 256 + 256 * (w / 256) ≡ w
le16_value w = omega arith

pub le32_value : (w : ℕ) → w % 65536 + 65536 * (w / 65536) ≡ w
le32_value w = omega arith
