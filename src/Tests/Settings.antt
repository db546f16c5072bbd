-- ===== src/Tests/Settings.antt =====
-- Option files, the command line, netmasks, and a TLS connection.
use vpn_app_ai.Prelude.{
  ℕ, ◌≡◌, refl, true, false, ◌<◌, ◌≤◌, Option, none, some, List, [], ◌∷◌, ◌++◌, length, arith, map,
}
use vpn_app_ai.Prelude.Tests.{list_beq}
use vpn_app_ai.Prelude.Int.{pos}
use vpn_app_ai.Cli
use vpn_app_ai.Prelude.Texts.{codes}
use vpn_app_ai.Prelude.Result.{ok, Outcome, returns}
use vpn_app_ai.Bytes.{Bytes}
use vpn_app_ai.Crypto.Pki.{Text}
use vpn_app_ai.Config.Options.{
  Attr, remote, port, comp_lzo, redirect_gateway, ConfigObject, new_config, default_of, post_init,
  is_proto, in_range, require,
}
use vpn_app_ai.Config.Parse.{or_default, netmask_to_cidr}
use vpn_app_ai.Config.Lines.{Setting, word, amount, keepalive, on, switch, other, comment, line_of}
use vpn_app_ai.Cli.{Namespace, base_config, parse_args, override, override_all}
use vpn_app_ai.Cli.Precedence.{given, parse_args-given}
use vpn_app_ai.Tun.Netmask.{prefixlen_to_netmask, netmask_to_cidr-prefixlen_to_netmask}
use vpn_app_ai.Protocol.Tls.{Socket, exchange_data_key}
use vpn_app_ai.Protocol.Tls.Exchange.{StreamLaws, frame_bytes, exchange_data_key-agree}
use vpn_app_ai.Tests.Toys.{eight}

abbrev settings : List Setting
settings =
    comment (codes " client")
    ∷ word remote (codes "ab")
    ∷ amount port 443
    ∷ keepalive 5 60
    ∷ on redirect_gateway
    ∷ switch comp_lzo false
    ∷ other (codes "nobind") (codes "now" ∷ [])
    ∷ []

abbrev files : Text → Option (List Text)
files path = some (map line_of settings)

netmask_to_cidr-prefixlen_to_netmask_example : netmask_to_cidr (prefixlen_to_netmask 20) ≡ ok 20
netmask_to_cidr-prefixlen_to_netmask_example = netmask_to_cidr-prefixlen_to_netmask 20 (omega arith)

-- `--port 70000`
abbrev only_port : Namespace
only_port = record {
  config = none;
  remote = none;
  port = some (pos 70000);
  proto = none;
  dev = none;
  server = none;
  ifconfig = none;
  ifconfig_pool = none;
  ca = none;
  cert = none;
  key = none;
  cipher = none;
  comp_lzo = none;
  keepalive = none;
  verb = none;
  redirect_gateway = none;
  status = none;
  user = none;
}

abbrev no_files : Text → Option (List Text)
no_files path = none

abbrev with_port : ConfigObject
with_port = record { attrs = override_all (Cli.vars only_port) default_of; extra_options = [] }

parses : parse_args no_files only_port ≡ ok with_port
unfolding parse_args base_config new_config post_init is_proto in_range require default_of list_beq
parses = refl

parse_args-given_example :
    (base : ConfigObject) × (base_config no_files none ≡ ok base)
    × ((a : Attr) → with_port.attrs a ≡ or_default (given only_port a) (base.attrs a))
    × ([] ≡ base.extra_options)
parse_args-given_example = parse_args-given no_files only_port with_port parses

-- What is to come and what was written; one byte comes at a time.
abbrev pipe : Socket
pipe = record {
  State = Bytes × Bytes;
  recv = λ n s. one_byte s.0 s.1;
  sendall = λ message s. returns tt (s.0, s.1 ++ message);
}
  where
    one_byte : Bytes → Bytes → Outcome (Bytes × Bytes) Bytes
    one_byte [] out = returns [] ([], out)
    one_byte (c ∷ cs) out = returns (c ∷ []) (cs, out)

first_byte :
    (n : ℕ) (come out : Bytes)
    → 0 < n
    → 0 < length come
    → (c : ℕ) × (cs : Bytes) × (t : Bytes × Bytes) × (pipe.recv n (come, out) ≡ returns (c ∷ cs) t)
      × (come ≡ (c ∷ cs) ++ t.0)
      × (length (c ∷ cs) ≤ n)
      × (t.1 ≡ out)
first_byte n [] out h k = absurd (omega arith)
first_byte n (c ∷ cs) out h k = (c, [], (cs, out), refl, refl, omega arith, refl)

abbrev pipe-StreamLaws : StreamLaws pipe
pipe-StreamLaws = record {
  pending = λ s. s.0;
  written = λ s. s.1;
  recv_some = λ n s h k. first_byte n s.0 s.1 h k;
  sendall_all = λ message s. ((s.0, s.1 ++ message), refl, refl, refl);
}

exchange_data_key-agree_example :
    (t : Bytes × Bytes) × (u : Bytes × Bytes) × (exchange_data_key pipe true eight ([], [])
      ≡ returns eight t)
    × (t.1 ≡ frame_bytes eight)
    × (t.0 ≡ [])
    × (exchange_data_key pipe false [] (frame_bytes eight, []) ≡ returns eight u)
    × (u.0 ≡ [])
    × (u.1 ≡ frame_bytes eight)
exchange_data_key-agree_example =
    exchange_data_key-agree pipe pipe pipe-StreamLaws pipe-StreamLaws eight [] ([], [])
      (frame_bytes eight, []) (omega arith) refl
