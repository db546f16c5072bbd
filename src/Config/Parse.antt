-- ===== src/Config/Parse.antt =====
-- The parser of option files in src/config.py. The file is what iterating over it gives, line by line.
use vpn_app_ai.Prelude.{
  ℕ, zero, suc, ◌+◌, ◌/◌, ◌%◌, true, ◌||◌, Option, none, some, List, [], ◌∷◌, ◌++◌, list_beq,
  list_eq, nat_beq, nat_eq, if◌then◌else◌,
}
use vpn_app_ai.Prelude.Dict.{Dict, lookup, insert}
use vpn_app_ai.Prelude.Int.{ℤ, pos, negsuc}
use vpn_app_ai.Prelude.Texts.{show_nat, codes, strip, words, lower, int_of}
use vpn_app_ai.Prelude.Result.{Result, ok, raise, value_error, type_error, os_error, ◌>>=◌}
use vpn_app_ai.Crypto.Pki.{Text, or_raise}
use vpn_app_ai.Ipv4.{split}
use vpn_app_ai.Config.Options.{
  Attr, dev, proto, port, remote, ifconfig, server, ifconfig_pool, ca, cert, key, cipher, comp_lzo,
  keepalive_interval, keepalive_timeout, verb, redirect_gateway, status_file, user, attr_beq, Value,
  text, number, flag, texts, ConfigObject, default_of, post_init,
}

-- What a directive sets: one attribute, or the two of `keepalive`.
pub data Target : Type 0 where
  one : Attr → Target
  both : Attr → Attr → Target

abbrev pub directives : Dict Text Target
directives =
    (codes "dev", one dev)
    ∷ (codes "proto", one proto)
    ∷ (codes "port", one port)
    ∷ (codes "remote", one remote)
    ∷ (codes "ifconfig", one ifconfig)
    ∷ (codes "server", one server)
    ∷ (codes "ifconfig-pool", one ifconfig_pool)
    ∷ (codes "ca", one ca)
    ∷ (codes "cert", one cert)
    ∷ (codes "key", one key)
    ∷ (codes "cipher", one cipher)
    ∷ (codes "comp-lzo", one comp_lzo)
    ∷ (codes "keepalive", both keepalive_interval keepalive_timeout)
    ∷ (codes "verb", one verb)
    ∷ (codes "redirect-gateway", one redirect_gateway)
    ∷ (codes "status", one status_file)
    ∷ (codes "user", one user)
    ∷ []

-- The types of the dataclass's fields: int, bool, or a string.
pub data FieldType : Type 0 where
  int_field bool_field text_field : FieldType

unfoldable pub field_type : Attr → FieldType
field_type port = int_field
field_type keepalive_interval = int_field
field_type keepalive_timeout = int_field
field_type verb = int_field
field_type comp_lzo = bool_field
field_type redirect_gateway = bool_field
field_type _ = text_field

-- `f"{n:08b}".count("1")` of a number with at most `fuel` binary digits.
unfoldable pub ones : ℕ → ℕ → ℕ
ones zero n = 0
ones (suc fuel) n = n % 2 + ones fuel (n / 2)

abbrev magnitude : ℤ → ℕ
magnitude (pos n) = n
magnitude (negsuc n) = n + 1

-- `_netmask_to_cidr`; a number n has at most n binary digits.
unfoldable pub count_ones : List Text → Result ℕ
unfolding ones
count_ones [] = ok 0
count_ones (o ∷ octets) = do
  n ← or_raise value_error (int_of o)
  rest ← count_ones octets
  ok (ones (magnitude n) (magnitude n) + rest)

unfoldable pub netmask_to_cidr : Text → Result ℕ
unfolding count_ones
netmask_to_cidr netmask = count_ones (split b'.' netmask)

-- The keyword arguments collected so far.
pub record Kwargs : Type 0 where
  pub values : Attr → Option Value
  pub extra : Dict Text (List Text)

-- `kwargs[a] = v`
unfoldable pub put : Attr → Value → Kwargs → Kwargs
put a v kw = record kw { values = λ b. if attr_beq a b then some v else kw.values b }

abbrev number_of : Value → Result Value
number_of (text t) = do n ← or_raise value_error (int_of t); ok (number n)
number_of _ = raise type_error

-- The parser gives it only texts here.
abbrev flag_of : Value → Value
flag_of (text t) = flag (
    list_beq (lower t) (codes "yes")
    || list_beq (lower t) (codes "true")
    || list_beq (lower t) (codes "1"))
flag_of v = v

-- `_set_value`
unfoldable pub set_value : Attr → Value → Kwargs → Result Kwargs
unfolding put field_type
set_value a v kw = elim (field_type a) [
  | int_field ↦ do n ← number_of v; ok (put a n kw)
  | bool_field ↦ ok (put a (flag_of v) kw)
  | text_field ↦ ok (put a v kw)
]

-- `args[0] if len(args) == 1 else args`
abbrev argument : List Text → Value
argument (a ∷ []) = text a
argument args = texts args

-- A switch: on without an argument.
abbrev set_switch : Attr → List Text → Kwargs → Result Kwargs
set_switch a [] kw = ok (put a (flag true) kw)
set_switch a (v ∷ args) kw = set_value a (text v) kw

-- `server` with a netmask becomes a network with its prefix length.
abbrev set_server : List Text → Kwargs → Result Kwargs
set_server (net ∷ mask ∷ []) kw = do
  prefix ← netmask_to_cidr mask
  ok (put server (text (net ++ (b'/' ∷ show_nat prefix prefix))) kw)
set_server args kw = set_value server (argument args) kw

abbrev set_pool : List Text → Kwargs → Result Kwargs
set_pool (first ∷ last ∷ args) kw = ok (put ifconfig_pool (text (first ++ (b'-' ∷ last))) kw)
set_pool args kw = set_value ifconfig_pool (argument args) kw

abbrev set_both : Attr → Attr → List Text → Kwargs → Result Kwargs
set_both a b [] kw = ok kw
set_both a b (v ∷ []) kw = set_value a (text v) kw
set_both a b (v ∷ w ∷ args) kw = do kw' ← set_value a (text v) kw; set_value b (text w) kw'

unfoldable pub apply_target : Target → List Text → Kwargs → Result Kwargs
unfolding set_value netmask_to_cidr
apply_target (both a b) args kw = set_both a b args kw
apply_target (one comp_lzo) args kw = set_switch comp_lzo args kw
apply_target (one redirect_gateway) args kw = set_switch redirect_gateway args kw
apply_target (one server) args kw = set_server args kw
apply_target (one ifconfig_pool) args kw = set_pool args kw
apply_target (one a) args kw = set_value a (argument args) kw

-- A directive that has no attribute goes to `extra_options`.
unfoldable pub parse_words : List Text → Kwargs → Result Kwargs
unfolding apply_target
parse_words [] kw = ok kw
parse_words (directive ∷ args) kw = elim (lookup directive directives) [
  | none ↦ ok (record kw { extra = insert directive args kw.extra })
  | some target ↦ apply_target target args kw
]

-- The body of the loop: blank lines and comments are passed over.
unfoldable pub parse_line : Text → Kwargs → Result Kwargs
unfolding parse_words
parse_line line kw = elim (strip line) [
  | [] ↦ ok kw
  | c ∷ cs ↦ if nat_beq c b'#' || nat_beq c b';' then ok kw else parse_words (words (c ∷ cs)) kw
]

unfoldable pub parse_lines : List Text → Kwargs → Result Kwargs
unfolding parse_line
parse_lines [] kw = ok kw
parse_lines (line ∷ lines) kw = do kw' ← parse_line line kw; parse_lines lines kw'

abbrev pub no_kwargs : Kwargs
no_kwargs = record { values = λ a. none; extra = [] }

abbrev pub or_default : Option Value → Value → Value
or_default none v = v
or_default (some w) v = w

-- `Config(**kwargs)`
unfoldable pub config_of : Kwargs → Result ConfigObject
unfolding post_init
config_of kw =
    post_init
      (record { attrs = λ a. or_default (kw.values a) (default_of a); extra_options = kw.extra })

-- `_parse_config`, of a file system that gives the lines of a file.
unfoldable pub parse_config : (Text → Option (List Text)) → Text → Result ConfigObject
unfolding parse_lines config_of
parse_config files path = do
  lines ← or_raise os_error (files path)
  kw ← parse_lines lines no_kwargs
  config_of kw
