-- ===== src/Prelude/Exec.antt =====
-- Methods that change an object and may raise: what was written before an exception stays written.
use mathlib.Core.Path.{◌≡◌, refl, ap}
use mathlib.Core.Bool.{Bool, true, false}
use vpn_app_ai.Prelude.Tests.{if◌then◌else◌}
use vpn_app_ai.Prelude.Result.{Exception, state, Result, ok, raise, Outcome, returns, raises, lift}

abbrev pub Exec {ℓ κ} : Type ℓ → Type κ → Type (ℓ ⊔ κ)
Exec S A = S → Outcome S A

infixl 5 ◌>>=◌ ◌>>◌
abbrev pub ◌>>=◌ {ℓ κ μ} :
    {S : Type ℓ} {A : Type κ} {B : Type μ} → Exec S A → (A → Exec S B) → Exec S B
◌>>=◌ m f s = elim (m s) [ returns a s' ↦ f a s' | raises x s' ↦ raises x s' ]

abbrev pub ◌>>◌ {ℓ κ μ} : {S : Type ℓ} {A : Type κ} {B : Type μ} → Exec S A → Exec S B → Exec S B
m >> k = m >>= λ _. k

abbrev pub pure {ℓ κ} : {S : Type ℓ} {A : Type κ} → A → Exec S A
pure a s = returns a s

abbrev pub modify {ℓ} : {S : Type ℓ} → (S → S) → Exec S (Unit {0})
modify f s = returns tt (f s)

abbrev pub gets {ℓ κ} : {S : Type ℓ} {A : Type κ} → (S → A) → Exec S A
gets f s = returns (f s) s

-- A pure computation on the object that may raise.
abbrev pub calls {ℓ κ} : {S : Type ℓ} {A : Type κ} → (S → Result A) → Exec S A
calls f s = lift (f s) s

lift-eq-returns {ℓ κ μ} :
    {S : Type ℓ} {A : Type κ} {B : Type μ} (r : Result A) (g : A → Exec S B) (s : S) {b : B}
    {s' : S}
    → (elim (lift r s) [ returns a t ↦ g a t | raises x t ↦ raises x t ]) ≡ returns b s'
    → (a : A) × (r ≡ ok a) × (g a s ≡ returns b s')
lift-eq-returns (ok a) g s e = (a, refl, e)
lift-eq-returns (raise x) g s e = cc

-- A method that returns has got through its first call.
pub calls-eq-returns {ℓ κ μ} :
    {S : Type ℓ} {A : Type κ} {B : Type μ} (f : S → Result A) (g : A → Exec S B) (s : S) {b : B}
    {s' : S}
    → (calls f >>= g) s ≡ returns b s'
    → (a : A) × (f s ≡ ok a) × (g a s ≡ returns b s')
calls-eq-returns f g s e = lift-eq-returns (f s) g s e

-- The rest of a method runs on, once its first call is known to return.
pub calls-ok {ℓ κ μ} :
    {S : Type ℓ} {A : Type κ} {B : Type μ} (f : S → Result A) (g : A → Exec S B) (s : S) (a : A)
    → f s ≡ ok a
    → (calls f >>= g) s ≡ g a s
calls-ok f g s a e = ap (λ r. elim (lift r s) [ returns a' t ↦ g a' t | raises x t ↦ raises x t ]) e

bind_outcome {ℓ κ μ π} :
    {S : Type ℓ} {A : Type κ} {B : Type μ} (P : S → Type π) (f : A → Exec S B) (o : Outcome S A)
    → ((a : A) (t : S) → o ≡ returns a t → P (state (f a t)))
    → ((x : Exception) (t : S) → o ≡ raises x t → P t)
    → P (state (elim o [ returns a t ↦ f a t | raises x t ↦ raises x t ]))
bind_outcome P f (returns a t) h k = h a t refl
bind_outcome P f (raises x t) h k = k x t refl

-- What a method leaves behind, from what its first call leaves and what the rest makes of it.
pub bind-state {ℓ κ μ π} :
    {S : Type ℓ} {A : Type κ} {B : Type μ} (P : S → Type π) (m : Exec S A) (f : A → Exec S B)
    (s : S)
    → ((a : A) (t : S) → m s ≡ returns a t → P (state (f a t)))
    → ((x : Exception) (t : S) → m s ≡ raises x t → P t)
    → P (state ((m >>= f) s))
bind-state P m f s h k = bind_outcome P f (m s) h k

outcome-keeps {ℓ κ μ π} :
    {S : Type ℓ} {A : Type κ} {B : Type μ} (P : S → Type π) (f : A → Exec S B) (o : Outcome S A)
    → P (state o)
    → ((a : A) (t : S) → P t → P (state (f a t)))
    → P (state (elim o [ returns a t ↦ f a t | raises x t ↦ raises x t ]))
outcome-keeps P f (returns a t) h k = k a t h
outcome-keeps P f (raises x t) h k = h

-- Two calls keep what each keeps.
pub bind-keeps {ℓ κ μ π} :
    {S : Type ℓ} {A : Type κ} {B : Type μ} (P : S → Type π) (m : Exec S A) (f : A → Exec S B)
    (s : S)
    → P (state (m s))
    → ((a : A) (t : S) → P t → P (state (f a t)))
    → P (state ((m >>= f) s))
bind-keeps P m f s h k = outcome-keeps P f (m s) h k

lift-bind {ℓ κ μ π} :
    {S : Type ℓ} {A : Type κ} {B : Type μ} (P : S → Type π) (r : Result A) (f : A → Exec S B)
    (s : S)
    → P s
    → ((a : A) → r ≡ ok a → P (state (f a s)))
    → P (state (elim (lift r s) [ returns a t ↦ f a t | raises x t ↦ raises x t ]))
lift-bind P (ok a) f s h k = k a refl
lift-bind P (raise x) f s h k = h

-- The same behind a pure computation.
pub calls-state {ℓ κ μ π} :
    {S : Type ℓ} {A : Type κ} {B : Type μ} (P : S → Type π) (r : S → Result A) (f : A → Exec S B)
    (s : S)
    → P s
    → ((a : A) → r s ≡ ok a → P (state (f a s)))
    → P (state ((calls r >>= f) s))
calls-state P r f s h k = lift-bind P (r s) f s h k

pub if-state {ℓ κ π} :
    {S : Type ℓ} {A : Type κ} (P : S → Type π) (b : Bool) (m n : Exec S A) (s : S)
    → (b ≡ true → P (state (m s)))
    → (b ≡ false → P (state (n s)))
    → P (state ((if b then m else n) s))
if-state P true m n s h k = h refl
if-state P false m n s h k = k refl

pub if-outcome {ℓ κ π} :
    {S : Type ℓ} {A : Type κ} (P : S → Type π) (b : Bool) (o o' : Outcome S A)
    → (b ≡ true → P (state o))
    → (b ≡ false → P (state o'))
    → P (state (if b then o else o'))
if-outcome P true o o' h k = h refl
if-outcome P false o o' h k = k refl

outcome-eq-returns {ℓ κ μ} :
    {S : Type ℓ} {A : Type κ} {B : Type μ} (o : Outcome S A) (f : A → Exec S B) {b : B} {s' : S}
    → (elim o [ returns a t ↦ f a t | raises x t ↦ raises x t ]) ≡ returns b s'
    → (a : A) × (t : S) × (o ≡ returns a t) × (f a t ≡ returns b s')
outcome-eq-returns (returns a t) f e = (a, t, refl, e)
outcome-eq-returns (raises x t) f e = cc e

-- A method that returns has got through its first call.
pub >>=-eq-returns {ℓ κ μ} :
    {S : Type ℓ} {A : Type κ} {B : Type μ} (m : Exec S A) (f : A → Exec S B) (s : S) {b : B}
    {s' : S}
    → (m >>= f) s ≡ returns b s'
    → (a : A) × (t : S) × (m s ≡ returns a t) × (f a t ≡ returns b s')
>>=-eq-returns m f s e = outcome-eq-returns (m s) f e

-- The rest of a method runs on behind a first call that returns.
pub >>=-returns {ℓ κ μ} :
    {S : Type ℓ} {A : Type κ} {B : Type μ} (m : Exec S A) (f : A → Exec S B) (s : S) (a : A) (t : S)
    → m s ≡ returns a t
    → (m >>= f) s ≡ f a t
>>=-returns m f s a t e = ap (λ o. elim o [ returns b u ↦ f b u | raises x u ↦ raises x u ]) e
