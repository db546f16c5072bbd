-- ===== src/Protocol/Replay/History.antt =====
-- What a replay window promises, with no window and no bits: the list of the ids accepted so far
-- decides. An id is fresh when it is not on the list and no accepted id is `size` or more ahead.
use vpn_app_ai.Prelude.{
  ℕ, ◌+◌, ◌≤◌, ◌<◌, ◌≡◌, refl, Bool, true, false, not, ◌&&◌, ◌||◌, List, [], ◌∷◌, ltb, nat_beq,
  arith,
}
use vpn_app_ai.Prelude.Int.{ℤ, pos, negsuc}

unfoldable pub contains : ℕ → List ℕ → Bool
contains p [] = false
contains p (a ∷ accepted) = nat_beq a p || contains p accepted

unfoldable pub in_reach : ℕ → ℕ → List ℕ → Bool
in_reach size p [] = true
in_reach size p (a ∷ accepted) = ltb a (p + size) && in_reach size p accepted

unfoldable pub is_fresh : ℕ → List ℕ → ℤ → Bool
is_fresh size accepted (negsuc n) = false
is_fresh size accepted (pos p) = not (contains p accepted) && in_reach size p accepted

-- The history after an id that the answer `fresh` was given.
unfoldable pub remember : Bool → ℤ → List ℕ → List ℕ
remember true (pos p) accepted = p ∷ accepted
remember _ _ accepted = accepted

unfoldable pub history_verdicts : ℕ → List ℕ → List ℤ → List Bool
history_verdicts size accepted [] = []
history_verdicts size accepted (p ∷ ps) =
    let fresh = is_fresh size accepted p in
    fresh ∷ history_verdicts size (remember fresh p accepted) ps

-- With the largest accepted id `h`, reach is one comparison.
in_reach_below :
    (size p h : ℕ) (accepted : List ℕ)
    → ((a : ℕ) → contains a accepted ≡ true → a ≤ h)
    → h < p + size
    → in_reach size p accepted ≡ true
unfolding contains in_reach
in_reach_below size p h [] upper near = refl
in_reach_below size p h (a ∷ accepted) upper near = ground (
  arith,
  upper a,
  in_reach_below size p h accepted
      (λ (b : ℕ) (m : contains b accepted ≡ true). upper b (ground arith)) near,
)

in_reach_member :
    (size p h : ℕ) (accepted : List ℕ)
    → contains h accepted ≡ true
    → p + size ≤ h
    → in_reach size p accepted ≡ false
unfolding contains in_reach
in_reach_member size p h [] m far = cc
in_reach_member size p h (a ∷ accepted) m far = ground (arith, in_reach_member size p h accepted)

pub in_reach_top :
    (size p h : ℕ) (accepted : List ℕ)
    → ((a : ℕ) → contains a accepted ≡ true → a ≤ h)
    → contains h accepted ≡ true
    → in_reach size p accepted ≡ ltb h (p + size)
in_reach_top size p h accepted upper m =
    ground (arith, in_reach_below size p h accepted upper, in_reach_member size p h accepted m)
