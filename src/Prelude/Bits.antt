-- ===== src/Prelude/Bits.antt =====
-- The binary digits of a number, and what `<<`, `|` and `&` with a power of two do to them.
use Prim.Native.Nat.{
  ℕ, zero, suc, ◌+◌, ◌*◌, ◌/◌, ◌%◌, ◌^◌, ◌≤◌, ◌<◌, min, max, digits, bitwise, bit_and, bit_or,
  bit_xor, bit_and-bitwise, bit_or-bitwise, bit_xor-bitwise, differ,
}
use mathlib.Core.Path.{◌≡◌, refl, ap, ◌∙◌}
use mathlib.Core.Logic.{◌≢◌}
use native.Mathlib.Nat.{pow-suc, one-le-pow}
use native.Mathlib.Omega.{arith}
use vpn_app_ai.Prelude.Tests.{nat_beq}

-- The native operations are recursions on digits with fuel; any fuel from the number on will do.
module _ (z : ℕ → ℕ) (f : ℕ → ℕ → ℕ) where
  enough_fuel : (n m a b : ℕ) → a ≤ n → a ≤ m → digits z f n a b ≡ digits z f m a b
  enough_fuel n m zero b p q = absorb n m
    where
      absorb : (n m : ℕ) → digits z f n zero b ≡ digits z f m zero b
      absorb zero zero = refl
      absorb zero (suc m) = refl
      absorb (suc n) zero = refl
      absorb (suc n) (suc m) = refl
  enough_fuel zero m (suc a) b p q = absurd (omega arith)
  enough_fuel (suc n) zero (suc a) b p q = absurd (omega arith)
  enough_fuel (suc n) (suc m) (suc a) b p q =
      rw (enough_fuel n m (suc a / 2) (b / 2) (omega arith) (omega arith))

  lowest_digit :
      (a b : ℕ)
      → bitwise z f (suc a) b ≡ bitwise z f (suc a / 2) (b / 2) * 2 + f (suc a % 2) (b % 2)
  lowest_digit a b = rw (enough_fuel a (suc a / 2) (suc a / 2) (b / 2) (omega arith) (omega arith))

pub bit_or_digit : (a b : ℕ) → bit_or a b ≡ bit_or (a / 2) (b / 2) * 2 + max (a % 2) (b % 2)
bit_or_digit zero b = simp bit_or-bitwise (omega arith)
bit_or_digit (suc a) b = simp bit_or-bitwise (lowest_digit (λ y. y) max a b)

pub bit_and_digit : (a b : ℕ) → bit_and a b ≡ bit_and (a / 2) (b / 2) * 2 + min (a % 2) (b % 2)
bit_and_digit zero b = simp bit_and-bitwise (omega arith)
bit_and_digit (suc a) b = simp bit_and-bitwise (lowest_digit (λ y. 0) min a b)

bit_xor_digit : (a b : ℕ) → bit_xor a b ≡ bit_xor (a / 2) (b / 2) * 2 + differ (a % 2) (b % 2)
bit_xor_digit zero b = simp bit_xor-bitwise (omega arith)
bit_xor_digit (suc a) b = simp bit_xor-bitwise (lowest_digit (λ y. y) differ a b)

differ_comm : (a b : ℕ) → differ a b ≡ differ b a
differ_comm zero zero = refl
differ_comm zero (suc b) = refl
differ_comm (suc a) zero = refl
differ_comm (suc a) (suc b) = differ_comm a b

bit_xor_comm_below : (n a b : ℕ) → a ≤ n → b ≤ n → bit_xor a b ≡ bit_xor b a
bit_xor_comm_below zero a b p q =
    let ea : a ≡ 0 = omega arith in let eb : b ≡ 0 = omega arith in rw (ea, eb) refl
bit_xor_comm_below (suc n) a b p q = omega (
  arith,
  bit_xor_digit a b,
  bit_xor_digit b a,
  differ_comm (a % 2) (b % 2),
  bit_xor_comm_below n (a / 2) (b / 2) (omega arith) (omega arith),
)

pub bit_xor_comm : (a b : ℕ) → bit_xor a b ≡ bit_xor b a
bit_xor_comm a b = bit_xor_comm_below (a + b) a b (omega arith) (omega arith)

-- Digit `i` of `n`, 0 or 1.
unfoldable pub bit : ℕ → ℕ → ℕ
bit zero n = n % 2
bit (suc i) n = bit i (n / 2)

pub bit-lt : (i n : ℕ) → bit i n < 2
unfolding bit
bit-lt zero n = omega arith
bit-lt (suc i) n = bit-lt i (n / 2)

pub bit-zero : (i : ℕ) → bit i 0 ≡ 0
unfolding bit
bit-zero zero = refl
bit-zero (suc i) = bit-zero i

pub bit-bit_or : (i a b : ℕ) → bit i (bit_or a b) ≡ max (bit i a) (bit i b)
unfolding bit
bit-bit_or zero a b = omega (arith, bit_or_digit a b)
bit-bit_or (suc i) a b =
    let e : bit_or a b / 2 ≡ bit_or (a / 2) (b / 2) = omega (arith, bit_or_digit a b) in
    rw e (bit-bit_or i (a / 2) (b / 2))

half_double : (x k : ℕ) → x * 2 ^ suc k / 2 ≡ x * 2 ^ k
half_double x k = omega (arith, ap (λ (t : ℕ). x * t) (pow-suc 2 k))

even_double : (x k : ℕ) → x * 2 ^ suc k % 2 ≡ 0
even_double x k = omega (arith, ap (λ (t : ℕ). x * t) (pow-suc 2 k))

pub bit-pow_self : (i : ℕ) → bit i (2 ^ i) ≡ 1
unfolding bit
bit-pow_self zero = refl
bit-pow_self (suc i) =
    let e : 2 ^ suc i / 2 ≡ 2 ^ i = omega (arith, pow-suc 2 i) in rw e (bit-pow_self i)

pub bit-pow_ne : (i j : ℕ) → i ≢ j → bit i (2 ^ j) ≡ 0
unfolding bit
bit-pow_ne zero zero h = absurd (h refl)
bit-pow_ne zero (suc j) h = omega (arith, pow-suc 2 j)
bit-pow_ne (suc i) zero h = bit-zero i
bit-pow_ne (suc i) (suc j) h =
    let e : 2 ^ suc j / 2 ≡ 2 ^ j = omega (arith, pow-suc 2 j) in
    rw e (bit-pow_ne i j (λ p. h (ap suc p)))

-- `n << d` moves every digit up by `d` and brings in zeros.
pub bit-shift_below : (i d n : ℕ) → i < d → bit i (n * 2 ^ d) ≡ 0
unfolding bit
bit-shift_below i zero n h = absurd (omega arith)
bit-shift_below zero (suc d) n h = even_double n d
bit-shift_below (suc i) (suc d) n h = rw half_double (bit-shift_below i d n (omega arith))

pub bit-shift_above : (i d n : ℕ) → bit (d + i) (n * 2 ^ d) ≡ bit i n
unfolding bit
bit-shift_above i zero n =
    let e : n * 2 ^ 0 ≡ n = omega arith in let k : 0 + i ≡ i = omega arith in rw (k, e)
bit-shift_above i (suc d) n =
    let k : suc d + i ≡ suc (d + i) = omega arith in
    ap (λ (t : ℕ). bit t (n * 2 ^ suc d)) k
    ∙ ap (λ (t : ℕ). bit (d + i) t) (half_double n d)
    ∙ bit-shift_above i d n

bit_and-zero_fuel : (k a : ℕ) → a ≤ k → bit_and a 0 ≡ 0
bit_and-zero_fuel k zero h = simp bit_and-bitwise
bit_and-zero_fuel zero (suc a) h = absurd (omega arith)
bit_and-zero_fuel (suc k) (suc a) h =
    omega (arith, bit_and_digit (suc a) 0, bit_and-zero_fuel k (suc a / 2) (omega arith))

pub bit_and-zero : (a : ℕ) → bit_and a 0 ≡ 0
bit_and-zero a = bit_and-zero_fuel a a (omega arith)

-- `n & (1 << i)` picks digit `i`.
pub bit_and-pow : (i n : ℕ) → bit_and n (2 ^ i) ≡ bit i n * 2 ^ i
unfolding bit
bit_and-pow zero n = omega (arith, bit_and_digit n 1, bit_and-zero (n / 2))
bit_and-pow (suc i) n =
    let e : 2 ^ suc i / 2 ≡ 2 ^ i = omega (arith, pow-suc 2 i) in
    omega (
      arith,
      bit_and_digit n (2 ^ suc i),
      ap (λ (t : ℕ). bit_and (n / 2) t) e,
      bit_and-pow i (n / 2),
      pow-suc 2 i,
      ap (λ (t : ℕ). bit i (n / 2) * t) (pow-suc 2 i),
    )

pub bit_and-pow-zero_iff : (i n : ℕ) → nat_beq (bit_and n (2 ^ i)) 0 ≡ nat_beq (bit i n) 0
bit_and-pow-zero_iff i n = grind (arith, bit_and-pow i n, one-le-pow i 2, bit-lt i n)
