-- ===== src/Protocol/Data/Fragments.antt =====
-- The fragments of a payload above 1400 bytes, and what their receiver holds while they arrive.
use vpn_app_ai.Prelude.{
  ℕ, zero, suc, ◌+◌, ◌*◌, ◌≤◌, ◌<◌, ◌≡◌, refl, sym, ap, ◌∙◌, inl, inr, none, some, [], ◌∷◌, ◌++◌,
  length, take, drop, drop-drop, drop_all, length-drop, nat_eq, nat_beq, true, length-append,
  take-append-drop, arith, Option-cases, if◌then◌else◌, ltb,
}
use vpn_app_ai.Prelude.Dict.{Dict, lookup, insert, insert_absent}
use vpn_app_ai.Prelude.Int.{pos}
use vpn_app_ai.Prelude.Result.{ok}
use vpn_app_ai.Bytes.{Bytes}
use vpn_app_ai.Protocol.Replay.{ReplayWindow, check, check_id}
use vpn_app_ai.Protocol.Data.Channel.{max_payload}
use vpn_app_ai.Protocol.Data.Decrypt.{join}

-- Of the parts `part 0`, `part 1`, …, those that have arrived when the first `n` have.
unfoldable pub parts_upto : (ℕ → Bytes) → ℕ → Dict ℕ Bytes
parts_upto part zero = []
parts_upto part (suc n) = parts_upto part n ++ (n, part n) ∷ []

lookup_last :
    (d : Dict ℕ Bytes) (j n : ℕ) (c : Bytes)
    → lookup j (d ++ (n, c) ∷ [])
      ≡ (elim (lookup j d) [ some x ↦ some x | none ↦ if nat_beq n j then some c else none ])
unfolding lookup
lookup_last [] j n c = refl
lookup_last ((i, w) ∷ d) j n c = ground (arith, lookup_last d j n c)

lookup-parts_upto :
    (part : ℕ → Bytes) (n j : ℕ)
    → lookup j (parts_upto part n) ≡ (if ltb j n then some (part j) else none)
unfolding parts_upto lookup
lookup-parts_upto part zero j = ground arith
lookup-parts_upto part (suc n) j = ground (
  arith,
  lookup_last (parts_upto part n) j n (part n),
  lookup-parts_upto part n j,
  ap part {x = n} {y = j},
)

pub length-parts_upto : (part : ℕ → Bytes) (n : ℕ) → length (parts_upto part n) ≡ n
unfolding parts_upto
length-parts_upto part zero = refl
length-parts_upto part (suc n) =
    omega (arith, length-append (parts_upto part n) ((n, part n) ∷ []), length-parts_upto part n)

pub insert-parts_upto :
    (part : ℕ → Bytes) (n : ℕ) → insert n (part n) (parts_upto part n) ≡ parts_upto part (suc n)
unfolding parts_upto
insert-parts_upto part n =
    let absent : lookup n (parts_upto part n) ≡ none = ground (arith, lookup-parts_upto part n n) in
    insert_absent n (part n) (parts_upto part n) absent

take-cons :
    (n : ℕ) (xs : Bytes) → 0 < length xs → (x : ℕ) × (raw : Bytes) × (take (suc n) xs ≡ x ∷ raw)
take-cons n [] h = absurd (omega arith)
take-cons n (x ∷ xs) h = (x, take n xs, refl)

-- Round `i` of the loop sends this part of the payload.
unfoldable pub chunk : Bytes → ℕ → Bytes
chunk plain i = take max_payload (drop (i * max_payload) plain)

chunk-rest :
    (plain : Bytes) (i : ℕ)
    → chunk plain i ++ drop ((i + 1) * max_payload) plain ≡ drop (i * max_payload) plain
unfolding chunk
chunk-rest plain i =
    let e : i * max_payload + max_payload ≡ (i + 1) * max_payload = omega arith in
    ap (λ (n : ℕ). chunk plain i ++ drop n plain) (sym e)
    ∙ ap (λ (t : Bytes). chunk plain i ++ t) (sym (drop-drop max_payload (i * max_payload) plain))
    ∙ take-append-drop max_payload (drop (i * max_payload) plain)

-- The join of the parts from `i` on is what the payload has from there on.
pub join-parts_upto :
    (plain : Bytes) (n i left : ℕ)
    → i + left ≡ n
    → length plain ≤ n * max_payload
    → join (parts_upto (chunk plain) n) i left ≡ ok (drop (i * max_payload) plain)
unfolding join
join-parts_upto plain n i zero e long =
    let enough : length plain ≤ i * max_payload = omega arith in
    ap ok (sym (drop_all (i * max_payload) plain enough))
join-parts_upto plain n i (suc left) e long =
    let there : lookup i (parts_upto (chunk plain) n) ≡ some (chunk plain i) =
      ground (arith, lookup-parts_upto (chunk plain) n i) in
    let rest = join-parts_upto plain n (i + 1) left (omega arith) long in
    rw (there, join) (rw rest (ap ok (chunk-rest plain i)))

-- Nothing from `c` on has been received.
abbrev pub Below : ReplayWindow → ℕ → Type 0
Below w c = (h : ℕ) → w.highest ≡ some h → h < c

pub check-Below :
    (w : ReplayWindow) (c : ℕ)
    → Below w c
    → ((check w (pos c)).0 ≡ true) × ((check w (pos c)).1.highest ≡ some c)
unfolding check check_id
check-Below w c b = elim (Option-cases w.highest) [
  | inl e ↦ ground (arith, e)
  | inr (h, e) ↦ ground (arith, e, b h e)
]

-- Every round has something to send.
pub chunk-cons :
    (plain : Bytes) (i : ℕ)
    → i * max_payload < length plain
    → (x : ℕ) × (raw : Bytes) × (chunk plain i ≡ x ∷ raw)
unfolding chunk
chunk-cons plain i h =
    take-cons 1399 (drop (i * max_payload) plain)
      (omega (arith, length-drop (i * max_payload) plain))
