-- ===== src/Routing/Commands/Nat.antt =====
-- `setup_nat` and `teardown_nat` of src/routing.py on a table of rules.
use vpn_app_ai.Prelude.{
  ℕ, ◌+◌, ◌≡◌, refl, ap, sym, ◌∙◌, Bool, true, false, List, [], ◌∷◌, ◌++◌, nat_beq, list_beq,
  list_beq_iff, nat_eq, list_eq, if◌then◌else◌, arith,
}
use vpn_app_ai.Prelude.Exec.{>>=-eq-returns, >>=-returns, pure}
use vpn_app_ai.Prelude.Texts.{codes}
use vpn_app_ai.Prelude.Result.{runtime_error, Outcome, returns, raises, state}
use vpn_app_ai.Crypto.Pki.{Text}
use vpn_app_ai.Routing.Commands.{
  Completed, Shell, exit_checked, run_checked, masquerade, iptables, setup_nat, teardown_nat,
}

abbrev pub Rule : Type 0
Rule = List Text

-- How often a rule stands in a table.
unfoldable pub count : Rule → List Rule → ℕ
count r [] = 0
count r (x ∷ xs) = (if list_beq r x then 1 else 0) + count r xs

-- The table without the first rule that is `r`.
unfoldable pub remove_first : Rule → List Rule → List Rule
remove_first r [] = []
remove_first r (x ∷ xs) = if list_beq r x then xs else x ∷ remove_first r xs

-- What iptables documents of the chain POSTROUTING of the table nat: -C changes nothing, -A appends a
-- rule if it exits with 0, and -D takes
-- off the first rule that is equal if it exits with 0.
pub record NatLaws (y : Shell) : Type 1 where
  pub rules : y.State → List Rule
  pub checks :
      (r : Rule) (s : y.State) → rules (state (y.run (iptables y (codes "-C") r) s)) ≡ rules s
  pub appends :
      (r : Rule) (s t : y.State) (done : Completed)
      → y.run (iptables y (codes "-A") r) s ≡ returns done t
      → nat_beq done.returncode 0 ≡ true
      → rules t ≡ rules s ++ r ∷ []
  pub deletes :
      (r : Rule) (s t : y.State) (done : Completed)
      → y.run (iptables y (codes "-D") r) s ≡ returns done t
      → nat_beq done.returncode 0 ≡ true
      → rules t ≡ remove_first r (rules s)

count-append : (r : Rule) (xs ys : List Rule) → count r (xs ++ ys) ≡ count r xs + count r ys
unfolding count
count-append r [] ys = ground arith
count-append r (x ∷ xs) ys = ground (arith, count-append r xs ys)

count-append_self : (r : Rule) (xs : List Rule) → count r (xs ++ r ∷ []) ≡ count r xs + 1
unfolding count
count-append_self r xs = ground (arith, count-append r xs (r ∷ []), list_beq_iff r r)

-- Taking off a rule that stands at the end takes one such rule off.
count-remove_first :
    (r x : Rule) (xs : List Rule) → count x (remove_first r (xs ++ r ∷ [])) ≡ count x xs
unfolding count remove_first
count-remove_first r x [] = ground (arith, list_beq_iff r r)
count-remove_first r x (y ∷ ys) = ground (
  arith,
  list_beq_iff r y,
  list_beq_iff x r,
  list_beq_iff x y,
  count-append x ys (r ∷ []),
  count-remove_first r x ys,
)

module _ (y : Shell) where
  exit_checked-eq-returns :
      (o : Outcome y.State Completed) (t : y.State) (done : Completed)
      → exit_checked y o ≡ returns done t
      → (o ≡ returns done t) × (nat_beq done.returncode 0 ≡ true)
  exit_checked-eq-returns (raises x u) t done e = cc e
  exit_checked-eq-returns (returns ran u) t done e =
      let (zero_exit, same) = passed (nat_beq ran.returncode 0) e in
      (same, ap (λ (d : Completed). nat_beq d.returncode 0) (sym (same_result same)) ∙ zero_exit)
    where
      passed :
          (b : Bool)
          → (if b then returns ran u else raises runtime_error u) ≡ returns done t
          → (b ≡ true) × (◌≡◌ {A = Outcome y.State Completed} (returns ran u) (returns done t))
      passed true q = (refl, q)
      passed false q = cc q

      same_result :
          ◌≡◌ {A = Outcome y.State Completed} (returns ran u) (returns done t) → ran ≡ done
      same_result q = cc q

  run_checked-eq-returns :
      (command : List Text) (s t : y.State) (done : Completed)
      → run_checked y command s ≡ returns done t
      → (y.run command s ≡ returns done t) × (nat_beq done.returncode 0 ≡ true)
  unfolding run_checked
  run_checked-eq-returns command s t done e = exit_checked-eq-returns (y.run command s) t done e

  -- `setup_nat` that returns has put the rule in the table once more, whatever was there, and a
  -- `teardown_nat` whose command gets through then leaves every rule as often as before both.
  pub teardown_nat-setup_nat :
      (laws : NatLaws y) (i n : Text) (s t u : y.State) (done : Completed)
      → setup_nat y i n s ≡ returns tt t
      → y.run (iptables y (codes "-D") (masquerade y i n)) t ≡ returns done u
      → nat_beq done.returncode 0 ≡ true
      → (count (masquerade y i n) (laws.rules t) ≡ count (masquerade y i n) (laws.rules s) + 1)
        × (teardown_nat y i n t ≡ returns tt u)
        × ((x : Rule) → count x (laws.rules u) ≡ count x (laws.rules s))
  unfolding setup_nat teardown_nat
  teardown_nat-setup_nat laws i n s t u done e d zero_exit =
      let r = masquerade y i n in
      let (checked, s', c, e') = >>=-eq-returns (y.run (iptables y (codes "-C") r)) _ s e in
      let (added, t', a, e'') =
        >>=-eq-returns (run_checked y (iptables y (codes "-A") r)) _ s' e' in
      let (ran, gone) = run_checked-eq-returns (iptables y (codes "-A") r) s' t' added a in
      let here : t' ≡ t = cc e'' in
      let same : laws.rules s' ≡ laws.rules s =
        ap (λ (o : Outcome y.State Completed). laws.rules (state o)) (sym c) ∙ laws.checks r s in
      let put : laws.rules t ≡ laws.rules s ++ r ∷ [] =
        ap laws.rules (sym here)
        ∙ laws.appends r s' t' added ran gone
        ∙ ap (λ (l : List Rule). l ++ r ∷ []) same in
      let taken : laws.rules u ≡ remove_first r (laws.rules s ++ r ∷ []) =
        laws.deletes r t u done d zero_exit ∙ ap (remove_first r) put in
      (
        ap (count r) put ∙ count-append_self r (laws.rules s),
        >>=-returns (y.run (iptables y (codes "-D") r)) (λ ended. pure tt) t done u d,
        λ x. ap (count x) taken ∙ count-remove_first r x (laws.rules s),
      )
