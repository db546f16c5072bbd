-- ===== src/Prelude/NatSet.antt =====
-- Python's sets of integers, as lists. Only membership and `min` are ever asked for.
use Prim.Native.Nat.{ℕ, zero, suc, ◌+◌, ◌≤◌, ◌<◌, min}
use mathlib.Core.Path.{◌≡◌, ap}
use mathlib.Core.Bool.{Bool, true, false, ◌||◌}
use mathlib.Core.List.{List, [], ◌∷◌}
use native.Mathlib.Omega.{arith}
use vpn_app_ai.Prelude.Tests.{nat_beq, if◌then◌else◌}

unfoldable pub member : ℕ → List ℕ → Bool
member n [] = false
member n (x ∷ xs) = nat_beq x n || member n xs

-- `s.remove(n)`
unfoldable pub discard : ℕ → List ℕ → List ℕ
discard n [] = []
discard n (x ∷ xs) = let rest = discard n xs in if nat_beq x n then rest else x ∷ rest

-- `s.add(n)`
unfoldable pub add : ℕ → List ℕ → List ℕ
unfolding member
add n s = if member n s then s else n ∷ s

-- `min` of `x` and the elements.
unfoldable pub minimum : ℕ → List ℕ → ℕ
minimum x [] = x
minimum x (y ∷ ys) = minimum (min x y) ys

-- `set(range(start, start + count))`
unfoldable pub range : ℕ → ℕ → List ℕ
range start zero = []
range start (suc count) = start ∷ range (start + 1) count

pub member-discard :
    (n m : ℕ) (s : List ℕ) → member m (discard n s) ≡ (if nat_beq n m then false else member m s)
unfolding member discard
member-discard n m [] = ground arith
member-discard n m (x ∷ xs) = ground (arith, member-discard n m xs)

pub member-add : (n m : ℕ) (s : List ℕ) → member m (add n s) ≡ (nat_beq n m || member m s)
unfolding add member
member-add n m s = ground (arith, ap (λ (t : ℕ). member t s) {x = n} {y = m})

pub minimum-le : (x : ℕ) (s : List ℕ) (m : ℕ) → member m (x ∷ s) ≡ true → minimum x s ≤ m
unfolding member minimum
minimum-le x [] m h = ground arith
minimum-le x (y ∷ ys) m h =
    ground (arith, minimum-le (min x y) ys m, minimum-le (min x y) ys (min x y))

pub member-minimum : (x : ℕ) (s : List ℕ) → member (minimum x s) (x ∷ s) ≡ true
unfolding member minimum
member-minimum x [] = ground arith
member-minimum x (y ∷ ys) = ground (arith, member-minimum (min x y) ys)

pub member-range :
    (start count m : ℕ) → member m (range start count) ≡ true → (start ≤ m) × (m < start + count)
unfolding member range
member-range start zero m h = cc
member-range start (suc count) m h = ground (arith, member-range (start + 1) count m)
