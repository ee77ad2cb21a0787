-- ===== src/Tests/Connection.antt =====
-- The host connection manager, instantiated.
use lookauniversalremote.Prelude.{
  ◌+◌, ◌≡◌, ◌↔◌, ◌⊎◌, refl, arith, true, false, pos, [], ◌∷◌, ◌++◌, none, some,
}
use lookauniversalremote.Protocol.Types.{Text}
use lookauniversalremote.Pairing.{trim_start, trim_end, is_space}
use lookauniversalremote.Connection.{
  Page, default_port, loopback, is_private_ip, set_active_host, clean_host, get_http_endpoint,
  is_https, http,
}
use lookauniversalremote.Connection.Texts.{text_of_port, strip_scheme, cut_path}
use lookauniversalremote.Connection.Private.{
  quad, IsLocalRange, one, two, three, is_private_ip-ranges,
}
use lookauniversalremote.Connection.Ports.{set_active_host-join, get_http_endpoint-set_active_host}

-- 172, 20, 0 and 7.
abbrev first : Text
first = (48 + 1) ∷ (48 + 7) ∷ (48 + 2) ∷ []

abbrev second : Text
second = (48 + 2) ∷ (48 + 0) ∷ []

abbrev third : Text
third = (48 + 0) ∷ []

abbrev fourth : Text
fourth = (48 + 7) ∷ []

is_private_ip-ranges_example :
    (is_private_ip (λ s. s) (quad first second third fourth) ≡ true)
    ↔ ((quad first second third fourth ≡ loopback) ⊎ IsLocalRange 172 20)
is_private_ip-ranges_example =
    is_private_ip-ranges (λ s. s) (λ s h. refl) first second third fourth 172 20 0 7
      (three 1 7 2 (omega arith) (omega arith) (omega arith)) (two 2 0 (omega arith) (omega arith))
      (one 0 (omega arith)) (one 7 (omega arith))

abbrev page : Page
page = record {
  has_window = true;
  protocol = 104 ∷ 116 ∷ 116 ∷ 112 ∷ 58 ∷ [];
  hostname = [];
  display_standalone = false;
  navigator_standalone = false;
}

-- The host tv and the path /x.
abbrev tv : Text
tv = 116 ∷ 118 ∷ []

abbrev path : Text
path = 47 ∷ 120 ∷ []

get_http_endpoint-set_active_host_example :
    get_http_endpoint (λ s. s) page (set_active_host tv (pos 9000)) path none default_port
    ≡ http ++ 58 ∷ 47 ∷ 47 ∷ (tv ++ 58 ∷ 56 ∷ 55 ∷ 54 ∷ 53 ∷ path)
unfolding clean_host strip_scheme cut_path trim_start trim_end is_space is_https
get_http_endpoint-set_active_host_example =
    get_http_endpoint-set_active_host (λ s. s) page tv path (pos 9000) (λ e. absurd cc) refl refl

set_active_host-join_example :
    set_active_host (tv ++ 58 ∷ text_of_port (pos 9000)) default_port
    ≡ record { active_host = some tv; active_port = pos 9000 }
unfolding clean_host strip_scheme cut_path trim_start trim_end is_space text_of_port
set_active_host-join_example = set_active_host-join tv 8999 default_port (λ e. absurd cc) refl refl
