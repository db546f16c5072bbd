-- ===== src/Prelude/Digits.antt =====
-- What a text of decimal digits is worth, and texts that a separator cuts in one way only.
use Prim.Native.Nat.{ℕ, zero, suc, ◌+◌, ◌-◌, ◌*◌, ◌/◌, ◌%◌, ◌≤◌}
use mathlib.Core.Path.{◌≡◌, refl, sym}
use mathlib.Core.Logic.{◌≢◌, inl, inr}
use mathlib.Core.Option.{some}
use mathlib.Core.List.{List, [], ◌∷◌, ◌++◌}
use native.Mathlib.Omega.{arith}
use vpn_app_ai.Prelude.Tests.{ltb, Bool-cases, ltb→lt, le→leb}
use mathlib.Core.Bool.{Bool, true}
use vpn_app_ai.Prelude.Lists.{All, All-append}
use vpn_app_ai.Prelude.Texts.{show_nat, digits_onto}

unfoldable pub value_onto : ℕ → List ℕ → ℕ
value_onto acc [] = acc
value_onto acc (c ∷ cs) = value_onto (acc * 10 + (c - 48)) cs

abbrev pub value : List ℕ → ℕ
value text = value_onto 0 text

value_onto-append :
    (acc : ℕ) (xs : List ℕ) (c : ℕ)
    → value_onto acc (xs ++ c ∷ []) ≡ value_onto acc xs * 10 + (c - 48)
unfolding value_onto
value_onto-append acc [] c = refl
value_onto-append acc (x ∷ xs) c = value_onto-append (acc * 10 + (x - 48)) xs c

-- As many rounds as the number is large are enough for its digits.
value-show_nat_below : (f n : ℕ) → n ≤ f → value (show_nat f n) ≡ n
unfolding show_nat value_onto
value-show_nat_below zero n le = ground (arith, le)
value-show_nat_below (suc f) n le =
    let front = value-show_nat_below f (n / 10) (omega (arith, le)) in
    ground
      (arith, front, value_onto-append 0 (show_nat f (n / 10)) (48 + n % 10), Bool-cases (ltb n 10))

pub value-show_nat : (n : ℕ) → value (show_nat n n) ≡ n
value-show_nat n = value-show_nat_below n n (omega arith)

abbrev pub IsDigit : ℕ → Type 0
IsDigit c = (48 ≤ c) × (c ≤ 57)

pub show_nat-digits : (f n : ℕ) → All IsDigit (show_nat f n)
unfolding show_nat
show_nat-digits zero n = ((omega arith, omega arith), tt)
show_nat-digits (suc f) n = elim (Bool-cases (ltb n 10)) [
  | inl e ↦ rw e ((omega arith, omega (arith, ltb→lt n 10 e)), tt)
  | inr e ↦ rw e (
      All-append IsDigit (show_nat f (n / 10)) ((48 + n % 10) ∷ []) (show_nat-digits f (n / 10))
        ((omega arith, omega arith), tt))
]

pub show_nat-nonempty : (f n : ℕ) → show_nat f n ≢ []
unfolding show_nat
show_nat-nonempty zero n e = cc e
show_nat-nonempty (suc f) n e = elim (Bool-cases (ltb n 10)) [
  | inl small ↦ ground (arith, e, small)
  | inr large ↦ ends (show_nat f (n / 10)) (48 + n % 10) (rw (large, show_nat) at e)
]
  where
    ends : (xs : List ℕ) (c : ℕ) → xs ++ c ∷ [] ≢ []
    ends [] c q = cc q
    ends (x ∷ xs) c q = cc q

pub digits_onto-value :
    (acc : ℕ) (after : Bool) (c : ℕ) (cs : List ℕ)
    → All IsDigit (c ∷ cs)
    → digits_onto acc after (c ∷ cs) ≡ some (value_onto acc (c ∷ cs))
unfolding digits_onto value_onto
digits_onto-value acc after c [] h = ground (arith, le→leb 48 c h.0.0, le→leb c 57 h.0.1)
digits_onto-value acc after c (d ∷ cs) h = ground (
  arith,
  le→leb 48 c h.0.0,
  le→leb c 57 h.0.1,
  digits_onto-value (acc * 10 + (c - 48)) true d cs h.1,
)

-- Two texts that a character cuts, which does not stand before it in either.
pub cut_first :
    (d : ℕ) (xs ys xs' ys' : List ℕ)
    → All (λ c. c ≢ d) xs
    → All (λ c. c ≢ d) xs'
    → xs ++ d ∷ ys ≡ xs' ++ d ∷ ys'
    → (xs ≡ xs') × (ys ≡ ys')
cut_first d [] ys [] ys' a b e = (refl, cc e)
cut_first d [] ys (x ∷ xs') ys' a b e = absurd (b.0 (cc e))
cut_first d (x ∷ xs) ys [] ys' a b e = absurd (a.0 (cc e))
cut_first d (x ∷ xs) ys (x' ∷ xs') ys' a b e =
    let (front, back) = cut_first d xs ys xs' ys' a.1 b.1 (cc e) in (cc (front, e), back)

kept_out : (d : ℕ) (xs ys zs : List ℕ) → All (λ c. c ≢ d) zs → zs ≢ xs ++ d ∷ ys
kept_out d [] ys [] a e = cc e
kept_out d (x ∷ xs) ys [] a e = cc e
kept_out d [] ys (z ∷ zs) a e = a.0 (cc e)
kept_out d (x ∷ xs) ys (z ∷ zs) a e = kept_out d xs ys zs a.1 (cc e)

-- Two texts that a character cuts, which does not stand behind it in either.
pub cut_last :
    (d : ℕ) (xs ys xs' ys' : List ℕ)
    → All (λ c. c ≢ d) ys
    → All (λ c. c ≢ d) ys'
    → xs ++ d ∷ ys ≡ xs' ++ d ∷ ys'
    → (xs ≡ xs') × (ys ≡ ys')
cut_last d [] ys [] ys' a b e = (refl, cc e)
cut_last d [] ys (x ∷ xs') ys' a b e = absurd (kept_out d xs' ys' ys a (cc e))
cut_last d (x ∷ xs) ys [] ys' a b e = absurd (kept_out d xs ys ys' b (cc (sym e)))
cut_last d (x ∷ xs) ys (x' ∷ xs') ys' a b e =
    let (front, back) = cut_last d xs ys xs' ys' a b (cc e) in (cc (front, e), back)

pub All-weaken {ℓ} :
    {A : Type ℓ} {P Q : A → Type 0} (xs : List A) → ((x : A) → P x → Q x) → All P xs → All Q xs
All-weaken [] f h = tt
All-weaken (x ∷ xs) f h = (f x h.0, All-weaken xs f h.1)
