-- ===== src/Keyboard/Keys.antt =====
-- HidKeyMapper.ts: every key has one DOM code and its own usage.
use Prim.Native.String.{String}
use lookauniversalremote.Prelude.{
  ℕ, ◌≡◌, refl, ap, sym, ◌∙◌, ◌==◌, if◌then◌else◌, List, [], ◌∷◌, some,
}
use lookauniversalremote.Keyboard.{HidKey, key_a, usage, dom_code_to_hid, hid_of_code}

-- The keys of the table with a usage, and their codes.
abbrev pub codes_of : ℕ → List (String × HidKey) → List String
codes_of u [] = []
codes_of u ((c, k) ∷ rest) =
    let later = codes_of u rest in if usage k == u then c ∷ later else later

-- The table has exactly one code for each key of the keyboard page, and the lookup of that code gives the key.
pub hid_of_code-usage :
    (k : HidKey)
    → (c : String) × (codes_of (usage k) dom_code_to_hid ≡ c ∷ [])
      × (hid_of_code c dom_code_to_hid ≡ some k)
unfolding hid_of_code
hid_of_code-usage key_a = ("KeyA", refl, refl)
hid_of_code-usage _ = (_, refl, refl)

-- Different keys have different usages.
pub usage_inj : (j k : HidKey) → usage j ≡ usage k → j ≡ k
usage_inj j k same =
    let (c, only_c, gives_j) = hid_of_code-usage j in
    let (d, only_d, gives_k) = hid_of_code-usage k in
    let both : c ∷ [] ≡ d ∷ [] = sym only_c ∙ ap (λ u. codes_of u dom_code_to_hid) same ∙ only_d in
    cc
