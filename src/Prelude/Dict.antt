-- ===== src/Prelude/Dict.antt =====
-- Python's `dict`: an association list in the order of insertion. Assigning to a key that is there
-- keeps its place; a new key goes to the end.
use mathlib.Core.Path.{◌≡◌, refl}
use mathlib.Core.Option.{Option, none, some}
use mathlib.Core.List.{List, [], ◌∷◌, ◌++◌, map}
use native.Mathlib.Omega.{arith}
use vpn_app_ai.Prelude.Tests.{Eq, if◌then◌else◌, same_refl}

abbrev pub Dict {ℓ κ} : Type ℓ → Type κ → Type (ℓ ⊔ κ)
Dict K V = List (K × V)

module _ {ℓ κ} {K : Type ℓ} {V : Type κ} where
  abbrev pub keys : Dict K V → List K
  keys = map (λ e. e.0)

  abbrev pub values : Dict K V → List V
  values = map (λ e. e.1)

module _ {ℓ κ} {K : Type ℓ} {V : Type κ} ⦃e : Eq K⦄ where
  -- d.get(k)
  unfoldable pub lookup : K → Dict K V → Option V
  lookup k [] = none
  lookup k ((j, v) ∷ d) = if e.same j k then some v else lookup k d

  -- d[k] = v
  unfoldable pub insert : K → V → Dict K V → Dict K V
  insert k v [] = (k, v) ∷ []
  insert k v ((j, w) ∷ d) = if e.same j k then (k, v) ∷ d else (j, w) ∷ insert k v d

  -- d.pop(k, None)
  unfoldable pub remove : K → Dict K V → Dict K V
  remove k [] = []
  remove k ((j, w) ∷ d) = let rest = remove k d in if e.same j k then rest else (j, w) ∷ rest

  pub lookup-insert :
      (k j : K) (v : V) (d : Dict K V)
      → lookup j (insert k v d) ≡ (if e.same k j then some v else lookup j d)
  unfolding lookup insert
  lookup-insert k j v [] = refl
  lookup-insert k j v ((i, w) ∷ d) =
      ground (arith, e.same_iff k j, e.same_iff i k, e.same_iff i j, lookup-insert k j v d)

  pub lookup-remove :
      (k j : K) (d : Dict K V) → lookup j (remove k d) ≡ (if e.same k j then none else lookup j d)
  unfolding lookup remove
  lookup-remove k j [] = ground arith
  lookup-remove k j ((i, w) ∷ d) =
      ground (arith, e.same_iff k j, e.same_iff i k, e.same_iff i j, lookup-remove k j d)

  pub lookup-insert_self : (k : K) (v : V) (d : Dict K V) → lookup k (insert k v d) ≡ some v
  lookup-insert_self k v d = ground (arith, lookup-insert k k v d, same_refl k)

  pub remove_absent : (k : K) (d : Dict K V) → lookup k d ≡ none → remove k d ≡ d
  unfolding lookup remove
  remove_absent k [] h = refl
  remove_absent k ((i, w) ∷ d) h = ground (arith, remove_absent k d)

  -- A new key goes to the end, and popping it again takes it off.
  pub remove-insert :
      (k : K) (v : V) (d : Dict K V) → lookup k d ≡ none → remove k (insert k v d) ≡ d
  unfolding lookup insert remove
  remove-insert k v [] h = ground (arith, same_refl k)
  remove-insert k v ((i, w) ∷ d) h = ground (arith, remove-insert k v d)

  -- Popping what was just assigned pops what was there before.
  pub remove-insert_same : (k : K) (v : V) (d : Dict K V) → remove k (insert k v d) ≡ remove k d
  unfolding insert remove
  remove-insert_same k v [] = ground (arith, same_refl k)
  remove-insert_same k v ((i, w) ∷ d) = ground (arith, same_refl k, remove-insert_same k v d)

  pub insert_absent :
      (k : K) (v : V) (d : Dict K V) → lookup k d ≡ none → insert k v d ≡ d ++ (k, v) ∷ []
  unfolding lookup insert
  insert_absent k v [] h = refl
  insert_absent k v ((i, w) ∷ d) h = ground (arith, insert_absent k v d)

pub ruleset dict_laws = (lookup-insert, lookup-remove)
