-- ===== src/Bytes/Codec.antt =====
-- The big-endian fields of `Bytes` are read back as they were written.
use native.Mathlib.Nat.{pow-suc, mul-le-mul_right}
use vpn_app_ai.Prelude.{
  ℕ, zero, suc, ◌+◌, ◌*◌, ◌/◌, ◌%◌, ◌^◌, ◌≤◌, ◌<◌, ◌≡◌, refl, ap, ◌∙◌, sym, [], ◌∷◌, ◌++◌, length,
  append-nil, nat_beq_iff, take, length-take, append_assoc, length-append, lt→ltb, All-append,
  arith,
}
use vpn_app_ai.Prelude.Result.{ok}
use vpn_app_ai.Bytes.{Bytes, IsBytes, big_endian, pack, from_bytes_onto, from_bytes, unpack}

pub length-big_endian : (w v : ℕ) → length (big_endian w v) ≡ w
unfolding big_endian
length-big_endian zero v = refl
length-big_endian (suc w) v =
    omega (
      arith,
      length-append (big_endian w (v / 256)) ((v % 256) ∷ []),
      length-big_endian w (v / 256),
    )

pub big_endian-IsBytes : (w v : ℕ) → IsBytes (big_endian w v)
unfolding big_endian
big_endian-IsBytes zero v = tt
big_endian-IsBytes (suc w) v =
    All-append (λ b. b < 256) (big_endian w (v / 256)) ((v % 256) ∷ [])
      (big_endian-IsBytes w (v / 256)) (omega arith, tt)

from_bytes_onto-append :
    (acc : ℕ) (xs ys : Bytes)
    → from_bytes_onto acc (xs ++ ys) ≡ from_bytes_onto (from_bytes_onto acc xs) ys
unfolding from_bytes_onto
from_bytes_onto-append acc [] ys = refl
from_bytes_onto-append acc (x ∷ xs) ys = from_bytes_onto-append (acc * 256 + x) xs ys

-- A value that fits is read back.
pub from_bytes-big_endian : (w v : ℕ) → v < 256 ^ w → from_bytes (big_endian w v) ≡ v
unfolding from_bytes big_endian
from_bytes-big_endian zero v h = omega arith
from_bytes-big_endian (suc w) v h =
    from_bytes_onto-append 0 (big_endian w (v / 256)) ((v % 256) ∷ [])
    ∙ omega (arith, from_bytes-big_endian w (v / 256) (omega (arith, pow-suc 256 w)))

big_endian-push :
    (k acc b : ℕ) → b < 256 → big_endian (suc k) (acc * 256 + b) ≡ big_endian k acc ++ b ∷ []
unfolding big_endian
big_endian-push k acc b h =
    let q : (acc * 256 + b) / 256 ≡ acc = omega arith in
    let r : (acc * 256 + b) % 256 ≡ b = omega arith in rw (q, r)

big_endian-onto :
    (k acc m : ℕ) (bs : Bytes)
    → IsBytes bs
    → m ≡ length bs + k
    → big_endian m (from_bytes_onto acc bs) ≡ big_endian k acc ++ bs
unfolding from_bytes_onto
big_endian-onto k acc m [] h e =
    let e' : m ≡ k = omega arith in rw e' (sym (append-nil (big_endian k acc)))
big_endian-onto k acc m (b ∷ bs) h e =
    big_endian-onto (suc k) (acc * 256 + b) m bs h.1 (omega arith)
    ∙ rw (big_endian-push k acc b h.0) (append_assoc (big_endian k acc) (b ∷ []) bs)

-- Bytes that were read are what would be written.
pub big_endian-from_bytes :
    (n : ℕ) (bs : Bytes) → IsBytes bs → n ≡ length bs → big_endian n (from_bytes bs) ≡ bs
unfolding from_bytes big_endian
big_endian-from_bytes n bs h e = big_endian-onto 0 0 n bs h (omega arith)

onto-lt : (acc : ℕ) (bs : Bytes) → IsBytes bs → from_bytes_onto acc bs < (acc + 1) * 256 ^ length bs
unfolding from_bytes_onto
onto-lt acc [] h = omega arith
onto-lt acc (b ∷ bs) h =
    let step : acc * 256 + b + 1 ≤ (acc + 1) * 256 = omega (arith, h.0) in
    omega (
      arith,
      onto-lt (acc * 256 + b) bs h.1,
      mul-le-mul_right (256 ^ length bs) step,
      ap (λ (t : ℕ). (acc + 1) * t) (pow-suc 256 (length bs)),
    )

pub from_bytes-lt : (n : ℕ) (bs : Bytes) → IsBytes bs → length bs ≡ n → from_bytes bs < 256 ^ n
unfolding from_bytes
from_bytes-lt n bs h e =
    let bound : from_bytes_onto 0 bs < (0 + 1) * 256 ^ length bs = onto-lt 0 bs h in
    omega (arith, bound, ap (λ (t : ℕ). 256 ^ t) e)

pub pack_fits : (w v : ℕ) → v < 256 ^ w → pack w v ≡ ok (big_endian w v)
unfolding pack
pack_fits w v h = rw (lt→ltb _ _ h)

pub unpack-big_endian : (w v : ℕ) → v < 256 ^ w → unpack w (big_endian w v) ≡ ok v
unfolding unpack
unpack-big_endian w v h =
    rw (length-big_endian w v, (nat_beq_iff w w).1 refl, from_bytes-big_endian w v h)

pub unpack-take :
    (w : ℕ) (bs : Bytes) → w ≤ length bs → unpack w (take w bs) ≡ ok (from_bytes (take w bs))
unfolding unpack
unpack-take w bs h =
    let e : length (take w bs) ≡ w = omega (arith, length-take w bs) in
    rw (e, (nat_beq_iff w w).1 refl)
