-- ===== src/Protocol/Replay/Window.antt =====
-- The window refines the history: bit `d` of `seen` says whether `highest - d` was accepted.
use vpn_app_ai.Prelude.{
  ℕ, ◌+◌, ◌-◌, ◌*◌, ◌^◌, ◌≤◌, ◌<◌, ◌≡◌, refl, ap, ◌∙◌, Bool, true, false, not, ◌&&◌, ◌||◌, Option,
  none, some, List, [], ◌∷◌, bit_or, bit_and, ltb, leb, nat_beq, arith, inl, inr, Bool-cases,
  ltb→lt,
}
use vpn_app_ai.Prelude.Bits.{
  bit, bit-lt, bit-zero, bit-bit_or, bit-pow_self, bit-pow_ne, bit-shift_below, bit-shift_above,
  bit_and-pow-zero_iff,
}
use vpn_app_ai.Prelude.Int.{ℤ, pos, negsuc}
use vpn_app_ai.Protocol.Replay.{ReplayWindow, advance, check_id, check}
use vpn_app_ai.Protocol.Replay.History.{contains, in_reach, is_fresh, remember, in_reach_top}

-- The window at the highest id `h`.
pub record Tracks (size h seen : ℕ) (accepted : List ℕ) : Type 0 where
  pub top : contains h accepted ≡ true
  pub upper : (a : ℕ) → contains a accepted ≡ true → a ≤ h
  pub marks : (d : ℕ) → d < size → d ≤ h → not (nat_beq (bit d seen) 0) ≡ contains (h - d) accepted

-- The window and the history agree.
abbrev pub Agrees : ReplayWindow → Option ℕ → List ℕ → Type 0
Agrees w none accepted = accepted ≡ []
Agrees w (some h) accepted = Tracks w.window_size h w.seen accepted

bit-one : (d : ℕ) → not (nat_beq (bit d 1) 0) ≡ nat_beq d 0
bit-one d = ground (arith, bit-pow_self 0, bit-pow_ne d 0, ap (λ (t : ℕ). bit t 1) {x = d} {y = 0})

bit-shift : (i d n : ℕ) → d ≤ i → bit i (n * 2 ^ d) ≡ bit (i - d) n
bit-shift i d n h =
    let e : i ≡ d + (i - d) = omega arith in
    ap (λ (t : ℕ). bit t (n * 2 ^ d)) e ∙ bit-shift_above (i - d) d n

-- The digits after `highest` has moved up by `delta`.
bit-advance :
    (size delta seen d : ℕ)
    → 0 < delta
    → d < size
    → not (nat_beq (bit d (advance size delta seen)) 0)
      ≡ (nat_beq d 0 || (leb delta d && not (nat_beq (bit (d - delta) seen) 0)))
unfolding advance
bit-advance size delta seen d up h = ground (
  arith,
  bit-one d,
  bit-lt d 1,
  bit-zero d,
  bit-bit_or d 0 1,
  bit-bit_or d (seen * 2 ^ delta) 1,
  bit-shift d delta seen,
  bit-shift_below d delta seen,
)

module _ (size h seen : ℕ) (accepted : List ℕ) (t : Tracks size h seen accepted) where
  -- A newer id becomes the top.
  Tracks-advance : (p : ℕ) → h < p → Tracks size p (advance size (p - h) seen) (p ∷ accepted)
  unfolding contains
  Tracks-advance p newer = record {
    top = ground arith;
    upper = λ a m. ground (arith, t.upper a);
    marks = λ d d<size d≤p. ground (
      arith,
      bit-advance size (p - h) seen d (omega arith) d<size,
      t.upper (p - d),
      t.marks (d - (p - h)),
      ap (λ (x : ℕ). contains x accepted) {x = p - d} {y = h - (d - (p - h))},
    );
  }

  -- An id inside the window is marked.
  Tracks-mark : (p : ℕ) → p ≤ h → Tracks size h (bit_or seen (2 ^ (h - p))) (p ∷ accepted)
  unfolding contains
  Tracks-mark p older = record {
    top = ground (arith, t.top);
    upper = λ a m. ground (arith, t.upper a);
    marks = λ d d<size d≤h. ground (
      arith,
      bit-bit_or d seen (2 ^ (h - p)),
      bit-pow_self d,
      bit-pow_ne d (h - p),
      bit-lt d seen,
      t.marks d d<size d≤h,
      ap (λ (x : ℕ). bit d (2 ^ x)) {x = d} {y = h - p},
    );
  }

  -- The branches of the code give the history's answer.
  answer :
      (p : ℕ)
      → let w : ReplayWindow = record { window_size = size; highest = some h; seen = seen } in
        (check_id w p (some h)).0 ≡ is_fresh size accepted (pos p)
  unfolding check_id is_fresh
  answer p = ground (
    arith,
    in_reach_top size p h accepted t.upper t.top,
    t.upper p,
    t.marks (h - p),
    bit_and-pow-zero_iff (h - p) seen,
    ap (λ (x : ℕ). contains x accepted) {x = h - (h - p)} {y = p},
  )

  size_stays :
      (p : ℕ)
      → let w : ReplayWindow = record { window_size = size; highest = some h; seen = seen } in
        (check_id w p (some h)).1.window_size ≡ size
  unfolding check_id
  size_stays p = ground arith

  follow :
      (p : ℕ)
      → let w : ReplayWindow = record { window_size = size; highest = some h; seen = seen } in
        Agrees
          (check_id w p (some h)).1
          (check_id w p (some h)).1.highest
          (remember (check_id w p (some h)).0 (pos p) accepted)
  unfolding check_id remember
  follow p = elim (Bool-cases (ltb h p)) [
    | inl newer ↦ rw newer (Tracks-advance p (ltb→lt h p newer))
    | inr older ↦ rw older (elim (Bool-cases (leb size (h - p))) [
      | inl far ↦ rw far t
      | inr near ↦ rw near (elim (Bool-cases (nat_beq (bit_and seen (2 ^ (h - p))) 0)) [
        | inl fresh ↦ rw fresh (Tracks-mark p (ground arith))
        | inr old ↦ rw old t
      ])
    ])
  ]

Tracks-first : (size p : ℕ) → Tracks size p 1 (p ∷ [])
unfolding contains
Tracks-first size p = record {
  top = ground arith;
  upper = λ a m. ground arith;
  marks = λ d d<size d≤p. ground (arith, bit-one d);
}

-- The answer is the history's, and the window goes on to agree with the history.
abbrev pub Refines : ℕ → List ℕ → ℤ → Bool × ReplayWindow → Type 0
Refines size accepted p (accept, w) =
    (accept ≡ is_fresh size accepted p)
    × (w.window_size ≡ size)
    × Agrees w w.highest (remember accept p accepted)

check_id-Refines :
    (size seen : ℕ) (highest : Option ℕ) (accepted : List ℕ) (p : ℕ)
    → let w : ReplayWindow = record { window_size = size; highest = highest; seen = seen } in
      Agrees w highest accepted → Refines size accepted (pos p) (check_id w p highest)
check_id-Refines size seen none accepted p a =
    rw a (unfold check_id is_fresh contains in_reach remember in (refl, refl, Tracks-first size p))
check_id-Refines size seen (some h) accepted p t = (
  answer size h seen accepted t p,
  size_stays size h seen accepted t p,
  follow size h seen accepted t p,
)

-- One call of `check`.
pub check-Refines :
    (w : ReplayWindow) (accepted : List ℕ) (p : ℤ)
    → Agrees w w.highest accepted
    → Refines w.window_size accepted p (check w p)
unfolding check
check-Refines w accepted (pos p) a = check_id-Refines w.window_size w.seen w.highest accepted p a
check-Refines w accepted (negsuc n) a = unfold is_fresh remember in (refl, refl, a)

check_id-refused :
    (w : ReplayWindow) (p : ℕ) (o : Option ℕ) → (check_id w p o).0 ≡ false → (check_id w p o).1 ≡ w
unfolding check_id
check_id-refused w p none e = cc
check_id-refused w p (some h) e = ground arith

-- A refusal leaves the window as it was.
pub check-refused : (w : ReplayWindow) (p : ℤ) → (check w p).0 ≡ false → (check w p).1 ≡ w
unfolding check
check-refused w (pos p) e = check_id-refused w p w.highest e
check-refused w (negsuc n) e = refl
