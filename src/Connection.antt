-- ===== src/Connection.antt =====
-- apps/web-client/src/transport/HostConnectionManager.ts: the active host, which addresses are local, and
-- the URLs of a host. `toLowerCase` is the parameter `lower`; `encodeURIComponent` is `encode_uri`.
pub mod Texts
pub mod Private
pub mod Ports
use lookauniversalremote.Prelude.{
  ℕ, zero, suc, ◌==◌, leb, if◌then◌else◌, Bool, true, false, not, ◌&&◌, ◌||◌, ℤ, pos, negsuc, List,
  [], ◌∷◌, ◌++◌, Option, none, some,
}
use lookauniversalremote.Protocol.Types.{Text}
use lookauniversalremote.Protocol.View.{◌>>=◌}
use lookauniversalremote.Pairing.{trim_start, trim_end}
use lookauniversalremote.Connection.Texts.{
  text_eq, starts_with, ends_with, contains_code, is_empty, strip_scheme, cut_path, before_colon,
  after_colon, parse_int_10, text_of_port, take_octet, take_dot,
}

-- The page: whether there is a `window`, and what its location says.
pub record Page : Type 0 where
  pub has_window : Bool
  pub protocol : Text
  pub hostname : Text
  pub display_standalone : Bool
  pub navigator_standalone : Bool

-- The static fields.
pub record HostConnectionManager : Type 0 where
  pub active_host : Option Text
  pub active_port : ℤ

pub record ConnectionDiagnostics : Type 0 where
  pub is_https_page : Bool
  pub is_target_local : Bool
  pub is_mixed_content_risk : Bool
  pub recommended_ws_scheme : Text
  pub recommended_http_scheme : Text

abbrev pub default_port : ℤ
default_port = pos 8765

abbrev pub new_manager : HostConnectionManager
new_manager = record { active_host = none; active_port = default_port }

-- http, https, ws, wss, localhost, .localhost, .local, 127.0.0.1 and ::1.
abbrev pub http : Text
http = 104 ∷ 116 ∷ 116 ∷ 112 ∷ []

abbrev pub https : Text
https = http ++ 115 ∷ []

abbrev pub ws : Text
ws = 119 ∷ 115 ∷ []

abbrev pub wss : Text
wss = ws ++ 115 ∷ []

abbrev pub localhost : Text
localhost = 108 ∷ 111 ∷ 99 ∷ 97 ∷ 108 ∷ 104 ∷ 111 ∷ 115 ∷ 116 ∷ []

abbrev pub dot_localhost : Text
dot_localhost = 46 ∷ localhost

abbrev pub dot_local : Text
dot_local = 46 ∷ 108 ∷ 111 ∷ 99 ∷ 97 ∷ 108 ∷ []

abbrev pub loopback : Text
loopback = 49 ∷ 50 ∷ 55 ∷ 46 ∷ 48 ∷ 46 ∷ 48 ∷ 46 ∷ 49 ∷ []

abbrev pub loopback_v6 : Text
loopback_v6 = 58 ∷ 58 ∷ 49 ∷ []

-- `a || b` on texts, and on numbers.
abbrev pub or_text : Text → Text → Text
or_text [] b = b
or_text (c ∷ s) b = c ∷ s

abbrev pub or_number : Option ℤ → ℤ → ℤ
or_number none b = b
or_number (some (pos zero)) b = b
or_number (some (pos (suc n))) b = pos (suc n)
or_number (some (negsuc n)) b = negsuc n

abbrev pub trim : Text → Text
trim s = trim_end (trim_start s)

-- A host without white space around it, scheme or path.
unfoldable pub clean_host : Text → Text → Text
clean_host scheme host = cut_path (strip_scheme scheme (trim host))

unfoldable pub set_active_host : Text → ℤ → HostConnectionManager
unfolding clean_host
set_active_host host port =
    let clean = clean_host http host in
    if contains_code 58 clean
    then record {
      active_host = some (or_text (before_colon clean) loopback);
      active_port =
          or_number (parse_int_10 (or_text (before_colon (after_colon clean)) (text_of_port port)))
            port;
    }
    else record { active_host = some clean; active_port = port }

unfoldable pub is_https : Page → Bool
is_https page = if page.has_window then text_eq page.protocol (https ++ 58 ∷ []) else false

unfoldable pub is_standalone_pwa : Page → Bool
is_standalone_pwa page =
    if page.has_window then page.display_standalone || page.navigator_standalone else false

-- The four numbers of `ipv4Match`.
unfoldable pub ipv4_match : Text → Option (ℕ × ℕ × ℕ × ℕ)
ipv4_match s = do
  a ← take_octet s
  r ← take_dot a.1
  b ← take_octet r
  t ← take_dot b.1
  c ← take_octet t
  u ← take_dot c.1
  d ← take_octet u
  if is_empty d.1 then some (a.0, b.0, c.0, d.0) else none

-- The private ranges, by the first two numbers.
abbrev pub in_private_range : ℕ → ℕ → Bool
in_private_range a b =
    (a == 10)
    || ((a == 172 && (leb 16 b && leb b 31)) || ((a == 192 && b == 168) || (a == 169 && b == 254)))

module _ (lower : Text → Text) where
  unfoldable pub is_localhost : Text → Bool
  is_localhost host =
      let clean = lower (trim host) in
      text_eq clean localhost
      || (text_eq clean loopback || (text_eq clean loopback_v6 || ends_with dot_localhost clean))

  unfoldable pub is_private_ip : Text → Bool
  unfolding is_localhost ipv4_match
  is_private_ip host =
      let clean = lower (trim host) in
      if is_localhost clean then true else elim (ipv4_match clean) [
        | none ↦ ends_with dot_local clean
        | some (a, b, c, d) ↦ if in_private_range a b then true else ends_with dot_local clean
      ]

  unfoldable pub get_diagnostics : Page → Text → ConnectionDiagnostics
  unfolding is_https is_private_ip is_localhost
  get_diagnostics page host =
      let secure = is_https page && not (is_localhost host) in
      record {
        is_https_page = is_https page;
        is_target_local = is_private_ip host;
        is_mixed_content_risk = is_https page && is_private_ip host;
        recommended_ws_scheme = (if secure then wss else ws) ++ 58 ∷ [];
        recommended_http_scheme = (if secure then https else http) ++ 58 ∷ [];
      }

  -- `host || this.activeHost || window.location.hostname || '127.0.0.1'`.
  unfoldable pub raw_target : Page → HostConnectionManager → Option Text → Text
  raw_target page m host =
      or_text (elim host [ none ↦ [] | some h ↦ h ])
        (or_text (elim m.active_host [ none ↦ [] | some h ↦ h ])
          (or_text (if page.has_window then page.hostname else loopback) loopback))

  -- The clean host with its port.
  unfoldable pub host_with_port : HostConnectionManager → Text → ℤ → Text
  host_with_port m clean port =
      if contains_code 58 clean
      then clean
      else clean
        ++ 58 ∷ text_of_port (or_number (some port) (or_number (some m.active_port) default_port))

  unfoldable pub get_http_base_url : Page → HostConnectionManager → Option Text → ℤ → Text
  unfolding raw_target clean_host host_with_port is_https is_private_ip
  get_http_base_url page m host port =
      let clean = clean_host http (raw_target page m host) in
      (if is_https page && not (is_private_ip clean) then https else http)
      ++ 58 ∷ 47 ∷ 47 ∷ host_with_port m clean port

  -- With the path /ws/signaling and, if it is not empty, the query ?session_id=.
  unfoldable pub get_signaling_ws_url :
      (encode_uri : Text → Text)
      → Page
      → HostConnectionManager
      → Option Text
      → ℤ
      → Option Text
      → Text
  unfolding raw_target clean_host host_with_port is_https is_private_ip
  get_signaling_ws_url encode_uri page m host port session_id =
      let clean = clean_host ws (raw_target page m host) in
      let base_path =
        (if is_https page && not (is_private_ip clean) then wss else ws)
        ++ 58 ∷ 47 ∷ 47 ∷ host_with_port m clean port
        ++ 47 ∷ 119 ∷ 115 ∷ 47 ∷ 115 ∷ 105 ∷ 103 ∷ 110 ∷ 97 ∷ 108 ∷ 105 ∷ 110 ∷ 103 ∷ [] in
      elim session_id [
        | none ↦ base_path
        | some id ↦
            if is_empty id
            then base_path
            else base_path
              ++ 63 ∷ 115 ∷ 101 ∷ 115 ∷ 115 ∷ 105 ∷ 111 ∷ 110 ∷ 95 ∷ 105 ∷ 100 ∷ 61 ∷ encode_uri id
      ]

  -- /api/pair and /health.
  unfoldable pub get_pairing_endpoint : Page → HostConnectionManager → Option Text → ℤ → Text
  unfolding get_http_base_url
  get_pairing_endpoint page m host port =
      get_http_base_url page m host port ++ 47 ∷ 97 ∷ 112 ∷ 105 ∷ 47 ∷ 112 ∷ 97 ∷ 105 ∷ 114 ∷ []

  unfoldable pub get_health_endpoint : Page → HostConnectionManager → Option Text → ℤ → Text
  unfolding get_http_base_url
  get_health_endpoint page m host port =
      get_http_base_url page m host port ++ 47 ∷ 104 ∷ 101 ∷ 97 ∷ 108 ∷ 116 ∷ 104 ∷ []

  -- `path.startsWith('/') ? path : `/${path}``.
  abbrev pub normalized_path : Text → Text
  normalized_path path = if starts_with (47 ∷ []) path then path else 47 ∷ path

  unfoldable pub get_http_endpoint : Page → HostConnectionManager → Text → Option Text → ℤ → Text
  unfolding get_http_base_url
  get_http_endpoint page m path host port =
      get_http_base_url page m host port ++ normalized_path path

  unfoldable pub get_api_url : Page → HostConnectionManager → Text → Text → ℤ → Text
  unfolding get_http_base_url
  get_api_url page m host path port =
      get_http_base_url page m (some host) port ++ normalized_path path
