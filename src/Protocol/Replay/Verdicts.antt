-- ===== src/Protocol/Replay/Verdicts.antt =====
-- Sequences of calls of `check`, from a new window on.
use vpn_app_ai.Prelude.{
  ℕ, ◌≡◌, refl, sym, ap, ap₂, ◌∙◌, Bool, Bool-cases, inl, inr, true, false, Option, none, some,
  List, [], ◌∷◌, ◌+◌, ltb, nat_beq, arith,
}
use vpn_app_ai.Prelude.Int.{ℤ, pos, negsuc}
use vpn_app_ai.Prelude.Result.{ok}
use vpn_app_ai.Protocol.Replay.{ReplayWindow, check, new_window, verdicts, after}
use vpn_app_ai.Protocol.Replay.History.{contains, in_reach, is_fresh, remember, history_verdicts}
use vpn_app_ai.Protocol.Replay.Window.{Agrees, check-Refines, check-refused}

-- Any sequence of calls.
pub verdicts-history :
    (w : ReplayWindow) (accepted : List ℕ) (ps : List ℤ)
    → Agrees w w.highest accepted
    → verdicts w ps ≡ history_verdicts w.window_size accepted ps
unfolding verdicts history_verdicts
verdicts-history w accepted [] a = refl
verdicts-history w accepted (p ∷ ps) a =
    let r = check-Refines w accepted p a in
    let ih = verdicts-history (check w p).1 (remember (check w p).0 p accepted) ps r.2 in
    ap₂ ◌∷◌ r.0
      (ih ∙ ap₂ (λ (s : ℕ) (b : Bool). history_verdicts s (remember b p accepted) ps) r.1 r.0)

new_window_fields :
    (size : ℕ) (w : ReplayWindow)
    → new_window size ≡ ok w
    → (w.highest ≡ none) × (w.window_size ≡ size) × (w.seen ≡ 0)
unfolding new_window
new_window_fields size w e = ground arith

Agrees-none : (w : ReplayWindow) (o : Option ℕ) → o ≡ none → Agrees w o []
Agrees-none w none e = refl
Agrees-none w (some h) e = cc

pub new_window-Agrees :
    (size : ℕ) (w : ReplayWindow) → new_window size ≡ ok w → Agrees w w.highest []
new_window-Agrees size w e = Agrees-none w w.highest (new_window_fields size w e).0

-- From a new window of any legal size, whatever ids arrive in whatever order, `check` accepts an
-- id exactly if it is not negative, was not accepted before, and no accepted id is `size` or more
-- ahead of it.
pub new_window-refines :
    (size : ℕ) (w : ReplayWindow) (ps : List ℤ)
    → new_window size ≡ ok w
    → verdicts w ps ≡ history_verdicts size [] ps
new_window-refines size w ps e =
    verdicts-history w [] ps (new_window-Agrees size w e)
    ∙ ap (λ (s : ℕ). history_verdicts s [] ps) (new_window_fields size w e).1

-- The history that the window agrees with later on still holds what it held.
after-Agrees :
    (w : ReplayWindow) (accepted : List ℕ) (ps : List ℤ) (p : ℕ)
    → Agrees w w.highest accepted
    → contains p accepted ≡ true
    → (later : List ℕ) × Agrees (after w ps) (after w ps).highest later × (contains p later ≡ true)
unfolding after
after-Agrees w accepted [] p a m = (accepted, a, m)
after-Agrees w accepted (q ∷ ps) p a m =
    after-Agrees (check w q).1 (remember (check w q).0 q accepted) ps p
      (check-Refines w accepted q a).2 (stays (check w q).0 q)
  where
    stays : (b : Bool) (r : ℤ) → contains p (remember b r accepted) ≡ true
    stays true (pos r) = unfold contains remember in ground arith
    stays true (negsuc r) = unfold remember in m
    stays false r = unfold remember in m

reached :
    (w : ReplayWindow) (accepted : List ℕ) (ps : List ℤ)
    → Agrees w w.highest accepted
    → (later : List ℕ) × Agrees (after w ps) (after w ps).highest later
unfolding after
reached w accepted [] a = (accepted, a)
reached w accepted (q ∷ ps) a =
    reached (check w q).1 (remember (check w q).0 q accepted) ps (check-Refines w accepted q a).2

once :
    (w : ReplayWindow) (accepted : List ℕ) (p : ℕ) (ps : List ℤ)
    → Agrees w w.highest accepted
    → (check w (pos p)).0 ≡ true
    → (check (after (check w (pos p)).1 ps) (pos p)).0 ≡ false
once w accepted p ps a yes_now =
    let step = check-Refines w accepted (pos p) a in
    let kept : contains p (remember (check w (pos p)).0 (pos p) accepted) ≡ true =
      rw yes_now (unfold contains remember in ground arith) in
    let (later, agree, m) =
      after-Agrees (check w (pos p)).1 (remember (check w (pos p)).0 (pos p) accepted) ps p step.2
        kept in
    (check-Refines (after (check w (pos p)).1 ps) later (pos p) agree).0
    ∙ (unfold is_fresh in ground arith)

-- What is not fresh stays so, whatever is remembered besides.
remember-stale :
    (size : ℕ) (accepted : List ℕ) (b : Bool) (q : ℤ) (p : ℕ)
    → is_fresh size accepted (pos p) ≡ false
    → is_fresh size (remember b q accepted) (pos p) ≡ false
unfolding is_fresh remember contains in_reach
remember-stale size accepted true (pos q) p e = ground (
  arith,
  e,
  Bool-cases (contains p accepted),
  Bool-cases (nat_beq q p),
  Bool-cases (ltb q (p + size)),
)
remember-stale size accepted true (negsuc q) p e = e
remember-stale size accepted false q p e = e

after-refused :
    (w : ReplayWindow) (accepted : List ℕ) (p : ℕ) (ps : List ℤ)
    → Agrees w w.highest accepted
    → is_fresh w.window_size accepted (pos p) ≡ false
    → (check (after w ps) (pos p)).0 ≡ false
unfolding after
after-refused w accepted p [] a stale = (check-Refines w accepted (pos p) a).0 ∙ stale
after-refused w accepted p (q ∷ ps) a stale =
    let r = check-Refines w accepted q a in
    let still =
      ap (λ (size : ℕ). is_fresh size (remember (check w q).0 q accepted) (pos p)) r.1
      ∙ remember-stale w.window_size accepted (check w q).0 q p stale in
    after-refused (check w q).1 (remember (check w q).0 q accepted) p ps r.2 still

-- Asked the same id again, with whatever ids in between, `check` refuses, also if it refused at first.
pub check_again :
    (w : ReplayWindow) (accepted : List ℕ) (p : ℕ) (ps : List ℤ)
    → Agrees w w.highest accepted
    → (check (after (check w (pos p)).1 ps) (pos p)).0 ≡ false
check_again w accepted p ps a = elim (Bool-cases (check w (pos p)).0) [
  | inl fresh ↦ once w accepted p ps a fresh
  | inr refused ↦
      let stale = sym (check-Refines w accepted (pos p) a).0 ∙ refused in
      ap (λ (v : ReplayWindow). (check (after v ps) (pos p)).0) (check-refused w (pos p) refused)
      ∙ after-refused w accepted p ps a stale
]

-- No id is accepted twice: once `check` has accepted it, it is refused ever after, whatever ids
-- came before and come in between.
pub no_replay :
    (size : ℕ) (w : ReplayWindow) (before between : List ℤ) (p : ℕ)
    → new_window size ≡ ok w
    → (check (after w before) (pos p)).0 ≡ true
    → (check (after (check (after w before) (pos p)).1 between) (pos p)).0 ≡ false
no_replay size w before between p e accept =
    let (later, agree) = reached w [] before (new_window-Agrees size w e) in
    once (after w before) later p between agree accept
