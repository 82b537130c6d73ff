-- ===== src/Base/Assoc.antt =====
-- Python's `dict` over a test of equality, as an association list.
use mathlib.Core.Path.{◌≡◌, subst}
use mathlib.Core.Logic.{inl, inr}
use mathlib.Core.Bool.{Bool, true}
use mathlib.Core.Option.{Option, none, some}
use mathlib.Core.List.{List, [], ◌∷◌}
use native.Mathlib.Omega.{arith}
use paperboy.Base.Tests.{if◌then◌else◌, Bool-cases}
use paperboy.Base.Lists.{All}

abbrev pub Assoc : Type 0 → Type 0 → Type 0
Assoc K V = List (K × V)

pub some_injective {ℓ} : {A : Type ℓ} (x y : A) → some x ≡ some y → x ≡ y
some_injective x y h = cc

module _ {K V : Type 0} (same : K → K → Bool) where
  -- `d.get(k)`
  abbrev pub get : K → Assoc K V → Option V
  get k [] = none
  get k ((j, v) ∷ d) = if same j k then some v else get k d

  -- `d[k] = v`
  abbrev pub set : K → V → Assoc K V → Assoc K V
  set k v [] = (k, v) ∷ []
  set k v ((j, w) ∷ d) = if same j k then (j, v) ∷ d else (j, w) ∷ set k v d

  pub get-set_self : (k : K) (v : V) (d : Assoc K V) → same k k ≡ true → get k (set k v d) ≡ some v
  get-set_self k v [] h = rw h
  get-set_self k v ((j, w) ∷ d) h = ground (arith, get-set_self k v d h)

  -- A new entry leaves the others as they were.
  pub get-set_new :
      (k j : K) (v w : V) (d : Assoc K V)
      → get k d ≡ none
      → get j d ≡ some w
      → get j (set k v d) ≡ some w
  get-set_new k j v w [] h e = cc
  get-set_new k j v w ((i, u) ∷ d) h e = ground (arith, get-set_new k j v w d)

  -- What holds of every value holds of the one that is found, and of the ones after a change.
  pub All-get {κ} :
      (P : V → Type κ) (k : K) (d : Assoc K V) {v : V}
      → All (λ e. P (e.1)) d
      → get k d ≡ some v
      → P v
  All-get P k [] h e = cc
  All-get P k ((j, w) ∷ d) {v} h e = elim (Bool-cases (same j k)) [
    | inl hit ↦ subst P (some_injective w v (rw hit at e)) h.0
    | inr miss ↦ All-get P k d h.1 (rw miss at e)
  ]

  pub All-set {κ} :
      (P : V → Type κ) (k : K) (v : V) (d : Assoc K V)
      → All (λ e. P (e.1)) d
      → P v
      → All (λ e. P (e.1)) (set k v d)
  All-set P k v [] h p = (p, tt)
  All-set P k v ((j, w) ∷ d) h p = elim (Bool-cases (same j k)) [
    | inl hit ↦ rw hit (p, h.1)
    | inr miss ↦ rw miss (h.0, All-set P k v d h.1 p)
  ]
