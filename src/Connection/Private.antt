-- ===== src/Connection/Private.antt =====
-- Which dotted addresses are taken for private ones.
use lookauniversalremote.Prelude.{
  ℕ, zero, suc, ◌+◌, ◌-◌, ◌*◌, ◌≤◌, ◌<◌, ◌≡◌, ◌↔◌, ◌⊎◌, inl, inr, refl, arith, if◌then◌else◌, Bool,
  true, false, ◌||◌, List, [], ◌∷◌, ◌++◌, length, drop, All, some,
}
use lookauniversalremote.Protocol.Types.{Text}
use lookauniversalremote.Pairing.{trim_start, trim_end, is_space}
use lookauniversalremote.Connection.{
  loopback, trim, ipv4_match, in_private_range, is_localhost, is_private_ip,
}
use lookauniversalremote.Connection.Texts.{take_octet, take_dot, text_eq, ends_with}

-- One to three decimal digits, and the number they stand for.
pub data IsOctet : Text → ℕ → Type 0 where
  one : (d : ℕ) → d < 10 → IsOctet ((48 + d) ∷ []) d
  two : (d e : ℕ) → d < 10 → e < 10 → IsOctet ((48 + d) ∷ (48 + e) ∷ []) (d * 10 + e)
  three :
      (d e f : ℕ)
      → d < 10
      → e < 10
      → f < 10
      → IsOctet ((48 + d) ∷ (48 + e) ∷ (48 + f) ∷ []) ((d * 10 + e) * 10 + f)

-- Digits and dots.
abbrev pub IsDotted : Text → Type 0
IsDotted s = All (λ c. (46 ≤ c) × (c ≤ 57)) s

-- The private ranges of IPv4 and the link-local one, by the first two numbers.
abbrev pub IsLocalRange : ℕ → ℕ → Type 0
IsLocalRange a b =
    (a ≡ 10)
    ⊎ (((a ≡ 172) × (16 ≤ b) × (b < 32)) ⊎ (((a ≡ 192) × (b ≡ 168)) ⊎ ((a ≡ 169) × (b ≡ 254))))

in_private_range_iff : (a b : ℕ) → (in_private_range a b ≡ true) ↔ IsLocalRange a b
in_private_range_iff a b = ground arith

text_eq_iff : (s t : Text) → (text_eq s t ≡ true) ↔ (s ≡ t)
text_eq_iff [] [] = (λ e. refl, λ e. refl)
text_eq_iff [] (d ∷ t) = (λ e. absurd cc, λ e. absurd cc)
text_eq_iff (c ∷ s) [] = (λ e. absurd cc, λ e. absurd cc)
text_eq_iff (c ∷ s) (d ∷ t) = ground (arith, text_eq_iff s t)

or_cases : (a b : Bool) → (a || b) ≡ true → (a ≡ true) ⊎ (b ≡ true)
or_cases true b e = inl refl
or_cases false b e = inr e

or_true : (a : Bool) → (a || true) ≡ true
or_true true = refl
or_true false = refl

abbrev pub quad : Text → Text → Text → Text → Text
quad p q r s = p ++ 46 ∷ (q ++ 46 ∷ (r ++ 46 ∷ s))

take_octet-more :
    (s : Text) (n : ℕ) (r : Text) → IsOctet s n → take_octet (s ++ 46 ∷ r) ≡ some (n, 46 ∷ r)
unfolding take_octet
take_octet-more s n [] (one d h) = ground arith
take_octet-more s n (c ∷ r) (one d h) = ground arith
take_octet-more s n r (two d e h i) = ground arith
take_octet-more s n r (three d e f h i j) = ground arith

take_octet-last : (s : Text) (n : ℕ) → IsOctet s n → take_octet s ≡ some (n, [])
unfolding take_octet
take_octet-last s n (one d h) = ground arith
take_octet-last s n (two d e h i) = ground arith
take_octet-last s n (three d e f h i j) = ground arith

octet-IsDotted : (s : Text) (n : ℕ) → IsOctet s n → IsDotted s
octet-IsDotted s n (one d h) = ((omega arith, omega arith), tt)
octet-IsDotted s n (two d e h i) = ((omega arith, omega arith), ((omega arith, omega arith), tt))
octet-IsDotted s n (three d e f h i j) =
    ((omega arith, omega arith), ((omega arith, omega arith), ((omega arith, omega arith), tt)))

joined-IsDotted : (s t : Text) → IsDotted s → IsDotted t → IsDotted (s ++ 46 ∷ t)
joined-IsDotted [] t h k = ((omega arith, omega arith), k)
joined-IsDotted (c ∷ s) t h k = (h.0, joined-IsDotted s t h.1 k)

dotted_plain : (c : ℕ) → 46 ≤ c → c ≤ 57 → is_space c ≡ false
unfolding is_space
dotted_plain c lo hi = ground arith

trim_start-dotted : (s : Text) → IsDotted s → trim_start s ≡ s
unfolding trim_start is_space
trim_start-dotted [] h = refl
trim_start-dotted (c ∷ s) h = let (lo, hi) = h.0 in ground arith

trim_end-dotted : (s : Text) → IsDotted s → trim_end s ≡ s
unfolding trim_end
trim_end-dotted [] h = refl
trim_end-dotted (c ∷ s) h = rw (dotted_plain c h.0.0 h.0.1, trim_end-dotted s h.1) refl

All-drop {ℓ κ} : {A : Type ℓ} (P : A → Type κ) (n : ℕ) (xs : List A) → All P xs → All P (drop n xs)
All-drop P zero xs h = h
All-drop P (suc n) [] h = tt
All-drop P (suc n) (x ∷ xs) h = All-drop P n xs h.1

-- No text of digits and dots is a dot and letters.
text_eq-letters : (s t : Text) → IsDotted s → text_eq s (46 ∷ 108 ∷ t) ≡ false
text_eq-letters [] t h = refl
text_eq-letters (c ∷ []) t h = ground arith
text_eq-letters (c ∷ d ∷ s) t h = let (lo, hi) = h.1.0 in ground arith

text_eq-other : (s : Text) (d : ℕ) (t : Text) → 57 < d → IsDotted s → text_eq s (d ∷ t) ≡ false
text_eq-other [] d t k h = refl
text_eq-other (c ∷ s) d t k h = let (lo, hi) = h.0 in ground arith

drop_false : (b : Bool) → (b || (false || false)) ≡ b
drop_false true = refl
drop_false false = refl

if_or : (a b : Bool) → (if a then true else (if b then true else false)) ≡ (a || b)
if_or true b = refl
if_or false true = refl
if_or false false = refl

ends_with-letters : (s t : Text) → IsDotted s → ends_with (46 ∷ 108 ∷ t) s ≡ false
ends_with-letters s t h =
    rw
      (text_eq-letters (drop (length s - length (46 ∷ 108 ∷ t)) s) t
        (All-drop (λ c. (46 ≤ c) × (c ≤ 57)) (length s - length (46 ∷ 108 ∷ t)) s h))
      (ground arith)

ipv4_match-quad :
    (p q r s : Text) (a b c d : ℕ)
    → IsOctet p a
    → IsOctet q b
    → IsOctet r c
    → IsOctet s d
    → ipv4_match (quad p q r s) ≡ some (a, b, c, d)
unfolding ipv4_match take_dot
ipv4_match-quad p q r s a b c d hp hq hr hs =
    rw
      (
        take_octet-more p a (q ++ 46 ∷ (r ++ 46 ∷ s)) hp,
        take_octet-more q b (r ++ 46 ∷ s) hq,
        take_octet-more r c s hr,
        take_octet-last s d hs,
      )
      refl

quad-IsDotted :
    (p q r s : Text) (a b c d : ℕ)
    → IsOctet p a
    → IsOctet q b
    → IsOctet r c
    → IsOctet s d
    → IsDotted (quad p q r s)
quad-IsDotted p q r s a b c d hp hq hr hs = joined-IsDotted p _ (octet-IsDotted p a hp) (
    joined-IsDotted q _ (octet-IsDotted q b hq)
      (joined-IsDotted r s (octet-IsDotted r c hr) (octet-IsDotted s d hs)))

module _ (lower : Text → Text) (kept : (s : Text) → IsDotted s → lower s ≡ s) where
  clean-dotted : (s : Text) → IsDotted s → lower (trim s) ≡ s
  clean-dotted s h = rw (trim_start-dotted s h, trim_end-dotted s h) (kept s h)

  is_localhost-dotted : (s : Text) → IsDotted s → is_localhost lower s ≡ text_eq s loopback
  unfolding is_localhost
  is_localhost-dotted s h =
      rw
        (
          clean-dotted s h,
          ends_with-letters s (111 ∷ 99 ∷ 97 ∷ 108 ∷ 104 ∷ 111 ∷ 115 ∷ 116 ∷ []) h,
          text_eq-other s 108 (111 ∷ 99 ∷ 97 ∷ 108 ∷ 104 ∷ 111 ∷ 115 ∷ 116 ∷ []) (omega arith) h,
          text_eq-other s 58 (58 ∷ 49 ∷ []) (omega arith) h,
        )
        (drop_false (text_eq s loopback))

  is_private_ip-quad :
      (p q r s : Text) (a b c d : ℕ)
      → IsOctet p a
      → IsOctet q b
      → IsOctet r c
      → IsOctet s d
      → let host = quad p q r s in
        is_private_ip lower host ≡ (text_eq host loopback || in_private_range a b)
  unfolding is_private_ip
  is_private_ip-quad p q r s a b c d hp hq hr hs =
      let dotted = quad-IsDotted p q r s a b c d hp hq hr hs in
      let host = quad p q r s in
      rw
        (
          clean-dotted host dotted,
          is_localhost-dotted host dotted,
          ipv4_match-quad p q r s a b c d hp hq hr hs,
          clean-dotted host dotted,
          ends_with-letters host (111 ∷ 99 ∷ 97 ∷ 108 ∷ []) dotted,
        )
        (if_or (text_eq host loopback) (in_private_range a b))

  -- Where toLowerCase leaves digits and dots as they are, four numbers of one to three digits with
  -- dots between them are a private address exactly when they are 127.0.0.1 or in one of the ranges
  -- 10.x.x.x, 172.16.x.x to 172.31.x.x, 192.168.x.x and 169.254.x.x.
  pub is_private_ip-ranges :
      (p q r s : Text) (a b c d : ℕ)
      → IsOctet p a
      → IsOctet q b
      → IsOctet r c
      → IsOctet s d
      → (is_private_ip lower (quad p q r s) ≡ true) ↔ ((quad p q r s ≡ loopback) ⊎ IsLocalRange a b)
  is_private_ip-ranges p q r s a b c d hp hq hr hs =
      rw (is_private_ip-quad p q r s a b c d hp hq hr hs) (
        (λ e. elim (or_cases (text_eq (quad p q r s) loopback) (in_private_range a b) e) [
          | inl same ↦ inl ((text_eq_iff (quad p q r s) loopback).0 same)
          | inr range ↦ inr ((in_private_range_iff a b).0 range)
        ]),
        λ h. elim h [
          | inl same ↦ rw ((text_eq_iff (quad p q r s) loopback).1 same) refl
          | inr range ↦
              rw ((in_private_range_iff a b).1 range) (or_true (text_eq (quad p q r s) loopback))
        ],
      )
