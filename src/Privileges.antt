-- ===== src/Privileges.antt =====
-- src/privileges.py: the process gives up root. The calls of the system are recorded in order.
use vpn_app_ai.Prelude.{
  ℕ, Bool, true, false, Option, none, some, List, [], ◌∷◌, ◌++◌, nat_beq, if◌then◌else◌, ◌≡◌,
  append_assoc, arith,
}
use vpn_app_ai.Prelude.Result.{Result, ok, raise, value_error, os_error, returns, raises}
use vpn_app_ai.Prelude.Exec.{Exec, ◌>>=◌, ◌>>◌, pure, modify, calls, calls-eq-returns}
use vpn_app_ai.Crypto.Pki.{Text}

pub record Passwd : Type 0 where
  pub pw_uid : ℕ
  pub pw_gid : ℕ
  pub pw_dir : Text

-- The user and group databases, the effective user and what the system refuses.
pub record System : Type 0 where
  pub euid : ℕ
  pub getpwnam : Text → Option Passwd
  pub getgrnam : Text → Option ℕ
  pub clears_groups : Bool
  pub allows_setgid : ℕ → Bool
  pub allows_setuid : ℕ → Bool

pub data Call : Type 0 where
  setgroups : Call
  setgid setuid : ℕ → Call
  setenv : Text → Text → Call

unfoldable pub is_root : System → Bool
is_root y = nat_beq y.euid 0

abbrev pub home : Text
home = b'H' ∷ b'O' ∷ b'M' ∷ b'E' ∷ []

abbrev pub user_var : Text
user_var = b'U' ∷ b'S' ∷ b'E' ∷ b'R' ∷ []

-- `pwd.getpwnam`, its KeyError turned into a ValueError.
unfoldable pub user_named : System → Text → Result Passwd
user_named y username = elim (y.getpwnam username) [ none ↦ raise value_error | some pw ↦ ok pw ]

-- The group: the user's own without a group's name.
unfoldable pub group_for : System → Option Text → ℕ → Result ℕ
group_for y none gid = ok gid
group_for y (some name) gid = elim (y.getgrnam name) [ none ↦ raise value_error | some g ↦ ok g ]

-- A call that the system refuses raises and leaves no trace.
abbrev pub attempt : Bool → Call → Exec (List Call) (Unit {0})
attempt allowed c calls = if allowed then returns tt (calls ++ c ∷ []) else raises os_error calls

-- The environment.
unfoldable pub set_environment : Passwd → Text → List Call
set_environment pw username = elim pw.pw_dir [
  | [] ↦ setenv user_var username ∷ []
  | (c ∷ cs) ↦ setenv home (c ∷ cs) ∷ setenv user_var username ∷ []
]

-- From the clearing of the groups on; a refusal there is only logged.
unfoldable pub become : System → Passwd → ℕ → Text → Exec (List Call) (Unit {0})
become y pw gid username = do
  modify (λ calls. if y.clears_groups then calls ++ setgroups ∷ [] else calls)
  attempt (y.allows_setgid gid) (setgid gid)
  attempt (y.allows_setuid pw.pw_uid) (setuid pw.pw_uid)
  modify (λ calls. calls ++ set_environment pw username)

-- What root does.
unfoldable pub step_down : System → Text → Option Text → Exec (List Call) (Unit {0})
step_down y username groupname = do
  pw ← calls (λ _. user_named y username)
  gid ← calls (λ _. group_for y groupname pw.pw_gid)
  become y pw gid username

unfoldable pub drop_privileges : System → Text → Option Text → Exec (List Call) (Unit {0})
drop_privileges y username groupname = if is_root y then step_down y username groupname else pure tt

unfoldable pub maybe_drop_privileges : System → Option Text → Exec (List Call) (Unit {0})
maybe_drop_privileges y none = pure tt
maybe_drop_privileges y (some []) = pure tt
maybe_drop_privileges y (some (c ∷ cs)) = drop_privileges y (c ∷ cs) none

attempts-order :
    (g u : Bool) (a b : Call) (rest cleared after : List Call)
    → (attempt g a >> (attempt u b >> modify (λ calls. calls ++ rest))) cleared ≡ returns tt after
    → after ≡ cleared ++ (a ∷ b ∷ rest)
attempts-order true true a b rest cleared after h =
    ground
      (arith, h, append_assoc cleared (a ∷ []) (b ∷ []), append_assoc cleared (a ∷ b ∷ []) rest)
attempts-order true false a b rest cleared after h = cc
attempts-order false u a b rest cleared after h = cc

become-order :
    (y : System) (pw : Passwd) (gid : ℕ) (username : Text) (before after : List Call)
    → become y pw gid username before ≡ returns tt after
    → after
      ≡ (if y.clears_groups then before ++ setgroups ∷ [] else before)
        ++ (setgid gid ∷ setuid pw.pw_uid ∷ set_environment pw username)
unfolding become
become-order y pw gid username before after h =
    attempts-order (y.allows_setgid gid) (y.allows_setuid pw.pw_uid) (setgid gid) (setuid pw.pw_uid)
      (set_environment pw username) (if y.clears_groups then before ++ setgroups ∷ [] else before)
      after h

-- What has been done when the process gives up root: the group goes first, since setting it needs root.
pub drop_privileges-order :
    (y : System) (username : Text) (groupname : Option Text) (before after : List Call)
    → is_root y ≡ true
    → drop_privileges y username groupname before ≡ returns tt after
    → (pw : Passwd) × (gid : ℕ) × (user_named y username ≡ ok pw)
      × (group_for y groupname pw.pw_gid ≡ ok gid)
      × (after
          ≡ (if y.clears_groups then before ++ setgroups ∷ [] else before)
            ++ (setgid gid ∷ setuid pw.pw_uid ∷ set_environment pw username))
unfolding drop_privileges step_down
drop_privileges-order y username groupname before after r h =
    let h' : step_down y username groupname before ≡ returns tt after = ground (arith, h, r) in
    let (pw, named, h1) =
      calls-eq-returns (λ _. user_named y username)
        (λ pw. calls (λ _. group_for y groupname pw.pw_gid) >>= λ gid. become y pw gid username)
        before h' in
    let (gid, grouped, h2) =
      calls-eq-returns (λ _. group_for y groupname pw.pw_gid) (λ gid. become y pw gid username)
        before h1 in
    (pw, gid, named, grouped, become-order y pw gid username before after h2)
