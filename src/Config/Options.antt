-- ===== src/Config/Options.antt =====
-- A `Config` object as Python has it: the dataclass does not check the types of its attributes, so
-- each can hold any value that the parser or the command line assigns.
use vpn_app_ai.Prelude.{
  ℕ, Bool, true, false, not, ◌&&◌, ◌||◌, List, [], leb, list_beq, nat_beq, nat_eq, if◌then◌else◌,
}
use vpn_app_ai.Prelude.Dict.{Dict}
use vpn_app_ai.Prelude.Int.{ℤ, pos, negsuc}
use vpn_app_ai.Prelude.Texts.{codes}
use vpn_app_ai.Prelude.Result.{Result, ok, raise, value_error, type_error}
use vpn_app_ai.Crypto.Pki.{Text}

-- The attributes but `extra_options`.
pub data Attr : Type 0 where
  dev proto port remote ifconfig server ifconfig_pool ca cert key cipher comp_lzo : Attr
  keepalive_interval keepalive_timeout verb redirect_gateway status_file user : Attr

unfoldable pub attr_index : Attr → ℕ
attr_index dev = 0
attr_index proto = 1
attr_index port = 2
attr_index remote = 3
attr_index ifconfig = 4
attr_index server = 5
attr_index ifconfig_pool = 6
attr_index ca = 7
attr_index cert = 8
attr_index key = 9
attr_index cipher = 10
attr_index comp_lzo = 11
attr_index keepalive_interval = 12
attr_index keepalive_timeout = 13
attr_index verb = 14
attr_index redirect_gateway = 15
attr_index status_file = 16
attr_index user = 17

abbrev pub attr_beq : Attr → Attr → Bool
attr_beq a b = nat_beq (attr_index a) (attr_index b)

-- What an attribute holds: None, a string, an int, a bool, or a list of strings.
pub data Value : Type 0 where
  nothing : Value
  text : Text → Value
  number : ℤ → Value
  flag : Bool → Value
  texts : List Text → Value

abbrev pub Attrs : Type 0
Attrs = Attr → Value

-- `setattr(cfg, a, v)`
unfoldable pub assign : Attr → Value → Attrs → Attrs
assign a v attrs b = if attr_beq a b then v else attrs b

pub record ConfigObject : Type 0 where
  pub attrs : Attrs
  pub extra_options : Dict Text (List Text)

-- The defaults of the dataclass.
unfoldable pub default_of : Attrs
default_of dev = text (codes "tun")
default_of proto = text (codes "udp")
default_of port = number (pos 1194)
default_of cipher = text (codes "AES-256-GCM")
default_of comp_lzo = flag false
default_of keepalive_interval = number (pos 10)
default_of keepalive_timeout = number (pos 120)
default_of verb = number (pos 1)
default_of redirect_gateway = flag false
default_of _ = nothing

-- `self.proto not in ("udp", "tcp")` is false.
unfoldable pub is_proto : Value → Bool
is_proto (text t) = list_beq t (codes "udp") || list_beq t (codes "tcp")
is_proto _ = false

-- `low <= value <= high`; a value that is no number raises.
unfoldable pub in_range : ℕ → ℕ → Value → Result Bool
in_range low high (number (pos n)) = ok (leb low n && leb n high)
in_range low high (number (negsuc n)) = ok false
in_range low high (flag true) = ok (leb low 1 && leb 1 high)
in_range low high (flag false) = ok (leb low 0 && leb 0 high)
in_range low high _ = raise type_error

unfoldable pub require : Result Bool → Result ConfigObject → Result ConfigObject
require (ok true) rest = rest
require (ok false) rest = raise value_error
require (raise x) rest = raise x

-- `__post_init__`
unfoldable pub post_init : ConfigObject → Result ConfigObject
unfolding is_proto in_range require
post_init o =
    if not (is_proto (o.attrs proto))
    then raise value_error
    else require (in_range 1 65535 (o.attrs port)) (require (in_range 0 4 (o.attrs verb)) (ok o))

-- `Config()`
unfoldable pub new_config : Result ConfigObject
unfolding post_init
new_config = post_init (record { attrs = default_of; extra_options = [] })
