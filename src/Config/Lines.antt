-- ===== src/Config/Lines.antt =====
-- Option files as they are written: settings one to a line, and what the reader of src/config.py
-- should make of them.
use vpn_app_ai.Prelude.{
  ℕ, ◌≡◌, Bool, true, false, ◌||◌, ◌&&◌, not, none, List, [], ◌∷◌, ◌++◌, list_eq, nat_beq, nat_eq,
  ◌⊎◌,
}
use vpn_app_ai.Prelude.Dict.{lookup, insert}
use vpn_app_ai.Prelude.Int.{pos}
use vpn_app_ai.Prelude.Lists.{All}
use vpn_app_ai.Prelude.Texts.{show_nat, codes, is_space}
use vpn_app_ai.Crypto.Pki.{Text}
use vpn_app_ai.Config.Options.{
  Attr, dev, proto, remote, ifconfig, server, ifconfig_pool, ca, cert, key, cipher, status_file,
  user, port, comp_lzo, keepalive_interval, keepalive_timeout, verb, redirect_gateway, text, number,
  flag,
}
use vpn_app_ai.Config.Parse.{Kwargs, bool_field, text_field, put, field_type, directives}
use vpn_app_ai.Config.Words.{IsWord, line_of_words}

-- What a line can say: a word for an attribute that holds a string, a number for `port` or `verb`,
-- the two times of `keepalive`, a switch without an argument or with one, the two ends of a pool,
-- a directive that no attribute has, or a comment.
pub data Setting : Type 0 where
  word : Attr → Text → Setting
  amount : Attr → ℕ → Setting
  keepalive : ℕ → ℕ → Setting
  on : Attr → Setting
  switch : Attr → Bool → Setting
  pool : Text → Text → Setting
  other : Text → List Text → Setting
  comment : Text → Setting

-- The directive that sets an attribute.
unfoldable pub directive_of : Attr → Text
directive_of dev = codes "dev"
directive_of proto = codes "proto"
directive_of port = codes "port"
directive_of remote = codes "remote"
directive_of ifconfig = codes "ifconfig"
directive_of server = codes "server"
directive_of ifconfig_pool = codes "ifconfig-pool"
directive_of ca = codes "ca"
directive_of cert = codes "cert"
directive_of key = codes "key"
directive_of cipher = codes "cipher"
directive_of comp_lzo = codes "comp-lzo"
directive_of keepalive_interval = codes "keepalive"
directive_of keepalive_timeout = codes "keepalive"
directive_of verb = codes "verb"
directive_of redirect_gateway = codes "redirect-gateway"
directive_of status_file = codes "status"
directive_of user = codes "user"

abbrev decimal : ℕ → Text
decimal n = show_nat n n

abbrev yes_or_no : Bool → Text
yes_or_no true = codes "yes"
yes_or_no false = codes "no"

-- The line of a setting, with its newline.
unfoldable pub line_of : Setting → Text
line_of (word a v) = line_of_words (directive_of a) (v ∷ [])
line_of (amount a n) = line_of_words (directive_of a) (decimal n ∷ [])
line_of (keepalive i t) =
    line_of_words (directive_of keepalive_interval) (decimal i ∷ decimal t ∷ [])
line_of (on a) = line_of_words (directive_of a) []
line_of (switch a b) = line_of_words (directive_of a) (yes_or_no b ∷ [])
line_of (pool first last) = line_of_words (directive_of ifconfig_pool) (first ∷ last ∷ [])
line_of (other name args) = line_of_words name args
line_of (comment t) = (b'#' ∷ t) ++ b'\n' ∷ []

-- A word that does not begin a comment and is no directive of the program.
abbrev pub IsOther : Text → Type 0
IsOther [] = ⊥
IsOther (c ∷ w) =
    IsWord (c ∷ w) × (nat_beq c b'#' || nat_beq c b';' ≡ false) × (lookup (c ∷ w) directives ≡ none)

abbrev pub IsAmount : Attr → Type 0
IsAmount a = (a ≡ port) ⊎ (a ≡ verb)

abbrev pub IsSetting : Setting → Type 0
IsSetting (word a v) = (field_type a ≡ text_field) × IsWord v
IsSetting (amount a n) = IsAmount a
IsSetting (keepalive i t) = Unit
IsSetting (on a) = field_type a ≡ bool_field
IsSetting (switch a b) = field_type a ≡ bool_field
IsSetting (pool first last) = IsWord first × IsWord last
IsSetting (other name args) = IsOther name × All IsWord args
IsSetting (comment t) = Unit

-- What a setting puts into the arguments of `Config`.
unfoldable pub put_setting : Setting → Kwargs → Kwargs
put_setting (word a v) kw = put a (text v) kw
put_setting (amount a n) kw = put a (number (pos n)) kw
put_setting (keepalive i t) kw =
    put keepalive_timeout (number (pos t)) (put keepalive_interval (number (pos i)) kw)
put_setting (on a) kw = put a (flag true) kw
put_setting (switch a b) kw = put a (flag b) kw
put_setting (pool first last) kw = put ifconfig_pool (text (first ++ b'-' ∷ last)) kw
put_setting (other name args) kw = record kw { extra = insert name args kw.extra }
put_setting (comment t) kw = kw

unfoldable pub put_settings : List Setting → Kwargs → Kwargs
put_settings [] kw = kw
put_settings (s ∷ settings) kw = put_settings settings (put_setting s kw)

no_space : Text → Bool
no_space [] = true
no_space (c ∷ cs) = not (is_space c) && no_space cs
