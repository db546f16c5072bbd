-- ===== src/Cli/Precedence.antt =====
-- What an option of the command line does to the configuration.
use vpn_app_ai.Prelude.{◌≡◌, refl, ◌∙◌, ap, Option, none, some, List, [], ◌∷◌, if◌then◌else◌, arith}
use vpn_app_ai.Prelude.Int.{ℤ}
use vpn_app_ai.Prelude.Result.{ok, >>=-eq-ok}
use vpn_app_ai.Crypto.Pki.{Text}
use vpn_app_ai.Config.Options.{
  Attr, dev, proto, port, remote, ifconfig, server, ifconfig_pool, ca, cert, key, cipher, comp_lzo,
  keepalive_interval, keepalive_timeout, verb, redirect_gateway, status_file, user, attr_index,
  attr_beq, Value, number, Attrs, assign, ConfigObject,
}
use vpn_app_ai.Config.Parse.{or_default}
use vpn_app_ai.Cli.{
  Namespace, Entry, config_entry, keepalive_entry, status_entry, attr_entry, as_text, as_number,
  as_flag, vars, override, override_all, base_config, parse_args,
}

-- The first and the second number of `--keepalive`.
abbrev interval_of : Option (ℤ × ℤ) → Option Value
interval_of none = none
interval_of (some (i, t)) = some (number i)

abbrev timeout_of : Option (ℤ × ℤ) → Option Value
timeout_of none = none
timeout_of (some (i, t)) = some (number t)

-- The value that the command line gives to an attribute, if it gives one.
unfoldable pub given : Namespace → Attr → Option Value
given ns remote = as_text ns.remote
given ns port = as_number ns.port
given ns proto = as_text ns.proto
given ns dev = as_text ns.dev
given ns server = as_text ns.server
given ns ifconfig = as_text ns.ifconfig
given ns ifconfig_pool = as_text ns.ifconfig_pool
given ns ca = as_text ns.ca
given ns cert = as_text ns.cert
given ns key = as_text ns.key
given ns cipher = as_text ns.cipher
given ns comp_lzo = as_flag ns.comp_lzo
given ns keepalive_interval = interval_of ns.keepalive
given ns keepalive_timeout = timeout_of ns.keepalive
given ns verb = as_number ns.verb
given ns redirect_gateway = as_flag ns.redirect_gateway
given ns status_file = as_text ns.status
given ns user = as_text ns.user

-- What one entry gives to an attribute.
given_by : Entry → Attr → Option Value
given_by (config_entry path) a = none
given_by (keepalive_entry n) a =
    if attr_beq keepalive_timeout a
    then timeout_of n
    else if attr_beq keepalive_interval a
    then interval_of n
    else none
given_by (status_entry path) a = if attr_beq status_file a then as_text path else none
given_by (attr_entry b v) a = if attr_beq b a then v else none

override_lem :
    (e : Entry) (attrs : Attrs) (a : Attr)
    → override e attrs a ≡ or_default (given_by e a) (attrs a)
unfolding override given_by assign
override_lem (config_entry path) attrs a = refl
override_lem (keepalive_entry none) attrs a = ground arith
override_lem (keepalive_entry (some (i, t))) attrs a = ground arith
override_lem (status_entry none) attrs a = ground arith
override_lem (status_entry (some path)) attrs a = ground arith
override_lem (attr_entry b none) attrs a = ground arith
override_lem (attr_entry b (some v)) attrs a = ground arith

-- The entries one after another.
after_entries : List Entry → Attr → Value → Value
after_entries [] a v = v
after_entries (e ∷ es) a v = after_entries es a (or_default (given_by e a) v)

override_all_lem :
    (es : List Entry) (attrs : Attrs) (a : Attr)
    → override_all es attrs a ≡ after_entries es a (attrs a)
unfolding override_all after_entries
override_all_lem [] attrs a = refl
override_all_lem (e ∷ es) attrs a =
    override_all_lem es (override e attrs) a ∙ ap (after_entries es a) (override_lem e attrs a)

override_all-vars :
    (ns : Namespace) (attrs : Attrs) (a : Attr)
    → override_all (vars ns) attrs a ≡ or_default (given ns a) (attrs a)
unfolding given given_by after_entries attr_index
override_all-vars ns attrs dev = override_all_lem (vars ns) attrs dev
override_all-vars ns attrs _ = override_all_lem (vars ns) attrs _

-- The configuration that `parse_args` returns has, for every attribute, the value that the command
-- line gives, whatever it is, and else the value of the option file or the default; its other
-- options are those of the file.
pub parse_args-given :
    (files : Text → Option (List Text)) (ns : Namespace) (cfg : ConfigObject)
    → parse_args files ns ≡ ok cfg
    → (base : ConfigObject) × (base_config files ns.config ≡ ok base)
      × ((a : Attr) → cfg.attrs a ≡ or_default (given ns a) (base.attrs a))
      × (cfg.extra_options ≡ base.extra_options)
unfolding parse_args
parse_args-given files ns cfg e =
    let (base, loaded, rest) = >>=-eq-ok (base_config files ns.config) _ e in
    let same : cfg.attrs ≡ override_all (vars ns) base.attrs = ground (arith, rest) in
    (
      base,
      loaded,
      λ a. ap (λ (f : Attrs). f a) same ∙ override_all-vars ns base.attrs a,
      ground (arith, rest),
    )
