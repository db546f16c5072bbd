-- ===== src/Tests/Machines.antt =====
-- Concrete systems: a table of NAT rules.
use vpn_app_ai.Prelude.{
  ◌+◌, ◌≡◌, refl, true, some, List, [], ◌∷◌, ◌++◌, nat_beq, nat_eq, list_eq, if◌then◌else◌,
}
use vpn_app_ai.Prelude.Tests.{list_beq}
use vpn_app_ai.Prelude.Texts.{codes}
use vpn_app_ai.Prelude.Exec.{Exec}
use vpn_app_ai.Prelude.Result.{ok, os_error, returns, raises, state}
use vpn_app_ai.Crypto.Pki.{Text}
use vpn_app_ai.Routing.Commands.{
  Completed, Shell, run_checked, masquerade, iptables, setup_nat, teardown_nat,
  get_default_interface, dev_of, is_line_end, splitlines_onto,
}
use vpn_app_ai.Prelude.Texts.{words_onto, is_space}
use vpn_app_ai.Routing.Commands.Nat.{Rule, count, remove_first, NatLaws, teardown_nat-setup_nat}

abbrev done : Completed
done = record { returncode = 0; stdout = []; stderr = [] }

abbrev default_route : Completed
default_route = record {
  returncode = 0;
  stdout = codes "default via 10.0.0.1 dev eth0 proto dhcp";
  stderr = [];
}

-- A table of rules, and a default route.
abbrev table_run : List Text → Exec (List Rule) Completed
table_run (program ∷ flag ∷ name ∷ action ∷ chain ∷ rule) rules =
    if list_beq action (codes "-A")
    then returns done (rules ++ rule ∷ [])
    else if list_beq action (codes "-D")
    then returns done (remove_first rule rules)
    else returns done rules
table_run (program ∷ object ∷ command ∷ selector ∷ []) rules = returns default_route rules
table_run _ rules = raises os_error rules

abbrev table : Shell
table = record {
  State = List Rule;
  run = table_run;
  write_file = λ path text rules. raises os_error rules;
  decode = λ bytes. ok bytes;
}

table_deletes :
    (r : Rule) (s t : List Rule) (c : Completed)
    → table_run (iptables table (codes "-D") r) s ≡ returns c t
    → nat_beq c.returncode 0 ≡ true
    → t ≡ remove_first r s
unfolding list_beq
table_deletes r s t c e z = cc e

table_appends :
    (r : Rule) (s t : List Rule) (c : Completed)
    → table_run (iptables table (codes "-A") r) s ≡ returns c t
    → nat_beq c.returncode 0 ≡ true
    → t ≡ s ++ r ∷ []
unfolding list_beq
table_appends r s t c e z = cc e

table_checks : (r : Rule) (s : List Rule) → state (table_run (iptables table (codes "-C") r) s) ≡ s
unfolding list_beq
table_checks r s = refl

abbrev table_laws : NatLaws table
table_laws = record {
  rules = λ s. s;
  checks = table_checks;
  appends = table_appends;
  deletes = table_deletes;
}

abbrev eth0 : Text
eth0 = codes "eth0"

abbrev network : Text
network = codes "10.8.0.0/24"

abbrev rule : Rule
rule = masquerade table eth0 network

setup_runs : setup_nat table eth0 network [] ≡ returns tt (rule ∷ [])
unfolding setup_nat run_checked list_beq
setup_runs = refl

teardown_runs : table_run (iptables table (codes "-D") rule) (rule ∷ []) ≡ returns done []
unfolding list_beq remove_first
teardown_runs = refl

teardown_nat-setup_nat_example :
    (count rule (rule ∷ []) ≡ count rule [] + 1)
    × (teardown_nat table eth0 network (rule ∷ []) ≡ returns tt [])
    × ((x : Rule) → count x [] ≡ count x [])
teardown_nat-setup_nat_example =
    teardown_nat-setup_nat table table_laws eth0 network [] (rule ∷ []) [] done setup_runs
      teardown_runs refl

interface_found : get_default_interface table [] ≡ returns (some eth0) []
unfolding get_default_interface splitlines_onto words_onto is_space is_line_end dev_of list_beq
interface_found = refl
