-- ===== src/Config.antt =====
-- src/config.py: the options of one end, as the rest of the program reads them.
pub mod Lines
pub mod Options
pub mod Parse
pub mod Words
use vpn_app_ai.Prelude.{
  ℕ, Bool, true, false, not, ◌||◌, ◌&&◌, Option, none, some, [], ◌∷◌, leb, list_beq, nat_eq,
  if◌then◌else◌,
}
use vpn_app_ai.Prelude.Result.{Result, ok, raise, value_error}
use vpn_app_ai.Crypto.Pki.{Text}

-- Without `extra_options`, which nothing reads. The intervals are in seconds.
pub record Config : Type 0 where
  pub dev : Text
  pub proto : Text
  pub port : ℕ
  pub remote : Option Text
  pub ifconfig : Option Text
  pub server : Option Text
  pub ifconfig_pool : Option Text
  pub ca : Option Text
  pub cert : Option Text
  pub key : Option Text
  pub cipher : Text
  pub compress : Bool
  pub keepalive_interval : ℕ
  pub keepalive_timeout : ℕ
  pub verb : ℕ
  pub redirect_gateway : Bool
  pub status_file : Option Text
  pub user : Option Text

-- "udp" and "tcp"
abbrev pub udp : Text
udp = b'u' ∷ b'd' ∷ b'p' ∷ []

abbrev pub tcp : Text
tcp = b't' ∷ b'c' ∷ b'p' ∷ []

-- `__post_init__`
unfoldable pub validate : Config → Result Config
validate c =
    if not (list_beq c.proto udp || list_beq c.proto tcp)
    then raise value_error
    else if not (leb 1 c.port && leb c.port 65535)
    then raise value_error
    else if not (leb c.verb 4)
    then raise value_error
    else ok c

-- The truth value of an optional text.
abbrev pub is_set : Option Text → Bool
is_set none = false
is_set (some []) = false
is_set (some (c ∷ cs)) = true

unfoldable pub is_server_mode : Config → Bool
is_server_mode c = is_set c.server
