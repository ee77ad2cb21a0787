-- ===== src/Connection/Ports.antt =====
-- The port of the active host: how it is read, and where it is used.
use lookauniversalremote.Prelude.{
  ℕ, zero, suc, ◌+◌, ◌/◌, ◌%◌, ◌<◌, ◌≡◌, ◌≢◌, refl, ap, ◌∙◌, arith, ltb, if◌then◌else◌, not, ◌&&◌,
  true, false, ℤ, pos, [], ◌∷◌, ◌++◌, none, some, Bool-cases, inl, inr,
}
use mathlib.Core.List.{append_assoc}
use lookauniversalremote.Protocol.Types.{Text}
use lookauniversalremote.Pairing.{trim_start, is_space}
use lookauniversalremote.Connection.{
  Page, HostConnectionManager, default_port, clean_host, set_active_host, http, get_http_endpoint,
  get_http_base_url, raw_target, host_with_port, or_text, loopback, is_https, https, is_private_ip,
  normalized_path,
}
use lookauniversalremote.Connection.Texts.{
  decimal_value, parse_int_10, digits, text_of_port, before_colon, after_colon, contains_code,
}

-- Reading the digits of a number gives the number, with enough fuel to write them.
decimal_value-digits :
    (fuel n : ℕ) (acc : Text) → n < fuel → decimal_value 0 (digits fuel n acc) ≡ decimal_value n acc
decimal_value-digits zero n acc h = absurd (omega arith)
decimal_value-digits (suc fuel) n acc h = elim (Bool-cases (ltb n 10)) [
  | inl e ↦ rw (e, digits) (ground arith)
  | inr e ↦
      rw (e, digits)
        (decimal_value-digits fuel (n / 10) ((48 + n % 10) ∷ acc) (ground arith) ∙ ground arith)
]

-- The text of a number is a digit and more digits.
data IsNumeral : Text → Type 0 where
  last_digit : (d : ℕ) → d < 10 → IsNumeral ((48 + d) ∷ [])
  more_digits : (d : ℕ) (s : Text) → d < 10 → IsNumeral s → IsNumeral ((48 + d) ∷ s)

digits-IsNumeral : (fuel n : ℕ) (s : Text) → n < fuel → IsNumeral s → IsNumeral (digits fuel n s)
digits-IsNumeral zero n s h k = absurd (omega arith)
digits-IsNumeral (suc fuel) n s h k = elim (Bool-cases (ltb n 10)) [
  | inl e ↦ rw (e, digits) (more_digits n s (ground arith) k)
  | inr e ↦
      rw (e, digits)
        (digits-IsNumeral fuel (n / 10) ((48 + n % 10) ∷ s) (ground arith)
          (more_digits (n % 10) s (omega arith) k))
]

port-IsNumeral : (n : ℕ) → IsNumeral (digits (suc n) n [])
port-IsNumeral n = elim (Bool-cases (ltb n 10)) [
  | inl e ↦ rw (e, digits) (last_digit n (ground arith))
  | inr e ↦
      rw (e, digits)
        (digits-IsNumeral n (n / 10) ((48 + n % 10) ∷ []) (ground arith)
          (last_digit (n % 10) (omega arith)))
]

parse-numeral : (s : Text) → IsNumeral s → parse_int_10 s ≡ some (pos (decimal_value 0 s))
unfolding parse_int_10 trim_start is_space
parse-numeral s (last_digit d h) = ground arith
parse-numeral s (more_digits d t h k) = ground arith

before_colon-numeral : (s : Text) → IsNumeral s → before_colon s ≡ s
before_colon-numeral s (last_digit d h) = ground arith
before_colon-numeral s (more_digits d t h k) = let rest = before_colon-numeral t k in ground arith

before_colon-join : (h t : Text) → contains_code 58 h ≡ false → before_colon (h ++ 58 ∷ t) ≡ h
before_colon-join [] t e = refl
before_colon-join (c ∷ h) t e = ground (arith, before_colon-join h t)

after_colon-join : (h t : Text) → contains_code 58 h ≡ false → after_colon (h ++ 58 ∷ t) ≡ t
after_colon-join [] t e = refl
after_colon-join (c ∷ h) t e = ground (arith, after_colon-join h t)

contains-join : (h t : Text) → contains_code 58 (h ++ 58 ∷ t) ≡ true
contains-join [] t = refl
contains-join (c ∷ h) t = ground (arith, contains-join h t)

digits-value : (n : ℕ) → decimal_value 0 (digits (suc n) n []) ≡ n
digits-value n = decimal_value-digits (suc n) n [] (omega arith) ∙ ground arith

or_text-some : (s t : Text) → s ≢ [] → or_text s t ≡ s
or_text-some [] t h = absurd (h refl)
or_text-some (c ∷ s) t h = refl

or_text-numeral : (s t : Text) → IsNumeral s → or_text s t ≡ s
or_text-numeral s t (last_digit d h) = refl
or_text-numeral s t (more_digits d r h k) = refl

-- An address with a port, of a host without a colon that needs no cleaning, is taken apart: the host
-- is the active one and the port the number that was written, whatever the default port.
pub set_active_host-join :
    (h : Text) (n : ℕ) (port : ℤ)
    → let address = h ++ 58 ∷ text_of_port (pos (suc n)) in
      h ≢ []
      → contains_code 58 h ≡ false
      → clean_host http address ≡ address
      → set_active_host address port ≡ record { active_host = some h; active_port = pos (suc n) }
unfolding set_active_host text_of_port
set_active_host-join h n port given plain clean =
    let t = digits (suc (suc n)) (suc n) [] in
    let numeral = port-IsNumeral (suc n) in
    rw
      (
        clean,
        contains-join h t,
        before_colon-join h t plain,
        after_colon-join h t plain,
        before_colon-numeral t numeral,
        or_text-some h loopback given,
        or_text-numeral t (text_of_port port) numeral,
        parse-numeral t numeral,
        digits-value (suc n),
      )
      refl

set_active_host-plain :
    (host : Text) (p : ℤ)
    → contains_code 58 (clean_host http host) ≡ false
    → set_active_host host p ≡ record { active_host = some (clean_host http host); active_port = p }
unfolding set_active_host
set_active_host-plain host p plain = rw plain refl

raw_target-active :
    (lower : Text → Text) (page : Page) (clean : Text) (p : ℤ)
    → clean ≢ []
    → raw_target lower page (record { active_host = some clean; active_port = p }) none ≡ clean
unfolding raw_target
raw_target-active lower page clean p given =
    or_text-some clean (or_text (if page.has_window then page.hostname else loopback) loopback)
      given

host_with_port-default :
    (lower : Text → Text) (m : HostConnectionManager) (clean : Text)
    → contains_code 58 clean ≡ false
    → host_with_port lower m clean default_port ≡ clean ++ 58 ∷ 56 ∷ 55 ∷ 54 ∷ 53 ∷ []
unfolding host_with_port text_of_port
host_with_port-default lower m clean plain = rw plain refl

endpoint-active :
    (lower : Text → Text) (page : Page) (clean path : Text) (p : ℤ)
    → clean ≢ []
    → contains_code 58 clean ≡ false
    → clean_host http clean ≡ clean
    → get_http_endpoint lower page
        (record { active_host = some clean; active_port = p })
        path
        none
        default_port
      ≡ (if is_https page && not (is_private_ip lower clean) then https else http)
        ++ 58 ∷ 47 ∷ 47 ∷ (clean ++ 58 ∷ 56 ∷ 55 ∷ 54 ∷ 53 ∷ normalized_path lower path)
unfolding get_http_endpoint get_http_base_url
endpoint-active lower page clean path p given plain idem =
    let m : HostConnectionManager = record { active_host = some clean; active_port = p } in
    let scheme : Text → Text =
      λ x. if is_https page && not (is_private_ip lower x) then https else http in
    let url : Text → Text → Text =
      λ x h. (scheme x ++ 58 ∷ 47 ∷ 47 ∷ h) ++ normalized_path lower path in
    let target : clean_host http (raw_target lower page m none) ≡ clean =
      ap (clean_host http) (raw_target-active lower page clean p given) ∙ idem in
    let start : get_http_endpoint lower page m path none default_port
        ≡ url (clean_host http (raw_target lower page m none))
            (host_with_port lower m (clean_host http (raw_target lower page m none)) default_port) =
      refl in
    start
    ∙ ap (λ x. url x (host_with_port lower m x default_port)) target
    ∙ ap (url clean) (host_with_port-default lower m clean plain)
    ∙ append_assoc (scheme clean) (58 ∷ 47 ∷ 47 ∷ clean ++ 58 ∷ 56 ∷ 55 ∷ 54 ∷ 53 ∷ [])
        (normalized_path lower path)
    ∙ ap (λ t. scheme clean ++ 58 ∷ 47 ∷ 47 ∷ t)
        (append_assoc clean (58 ∷ 56 ∷ 55 ∷ 54 ∷ 53 ∷ []) (normalized_path lower path))

-- The URLs that are asked for without a host and a port, as the TV remote's are, are those of port
-- 8765, whatever the port of the active host: where that host was given without a colon, is not empty
-- when it is cleaned and is then clean, the URL is the scheme, the host, :8765 and the path, with a
-- slash before it where it has none. The scheme is https on a secure page, but for a private address.
pub get_http_endpoint-set_active_host :
    (lower : Text → Text) (page : Page) (host path : Text) (p : ℤ)
    → let clean = clean_host http host in
      clean ≢ []
      → contains_code 58 clean ≡ false
      → clean_host http clean ≡ clean
      → get_http_endpoint lower page (set_active_host host p) path none default_port
        ≡ (if is_https page && not (is_private_ip lower clean) then https else http)
          ++ 58 ∷ 47 ∷ 47 ∷ (clean ++ 58 ∷ 56 ∷ 55 ∷ 54 ∷ 53 ∷ normalized_path lower path)
get_http_endpoint-set_active_host lower page host path p given plain idem =
    ap (λ m. get_http_endpoint lower page m path none default_port)
      (set_active_host-plain host p plain)
    ∙ endpoint-active lower page (clean_host http host) path p given plain idem
