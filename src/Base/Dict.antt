-- ===== src/Base/Dict.antt =====
-- Python's `dict`, which keeps the order in which keys were first written.
use mathlib.Core.Path.{◌≡◌, refl}
use mathlib.Core.List.{List, [], ◌∷◌, map}
use mathlib.Core.Option.{Option, none, some, some-injective}
use mathlib.Core.Logic.{inl, inr}
use mathlib.Core.Bool.{false}
use native.Mathlib.Omega.{arith}
use boardroom_os.Base.Tests.{if◌then◌else◌, Eq, ◌==◌, Bool-cases}
use boardroom_os.Base.All.{All}

abbrev pub Dict {ℓ κ} : Type ℓ → Type κ → Type (ℓ ⊔ κ)
Dict K V = List (K × V)

module _ {ℓ κ} {K : Type ℓ} {V : Type κ} where
  abbrev pub values : Dict K V → List V
  values = map (λ e. e.1)

  abbrev pub keys : Dict K V → List K
  keys = map (λ e. e.0)

module _ {ℓ κ} {K : Type ℓ} {V : Type κ} ⦃e : Eq K⦄ where
  unfoldable pub get : K → Dict K V → Option V
  get k [] = none
  get k ((j, v) ∷ d) = if j == k then some v else get k d

  -- `d[k] = v` writes in place, or at the end.
  unfoldable pub put : K → V → Dict K V → Dict K V
  put k v [] = (k, v) ∷ []
  put k v ((j, w) ∷ d) = if j == k then (j, v) ∷ d else (j, w) ∷ put k v d

  pub get-put :
      (k j : K) (v : V) (d : Dict K V) → get j (put k v d) ≡ (if k == j then some v else get j d)
  unfolding get put
  get-put k j v [] = refl
  get-put k j v ((i, w) ∷ d) =
      ground (arith, get-put k j v d, e.beq_iff i k, e.beq_iff i j, e.beq_iff k j)

  -- `d.get(k, default)`
  abbrev pub get_or : K → V → Dict K V → V
  get_or k v d = elim (get k d) [ none ↦ v | some w ↦ w ]

  -- No key twice.
  abbrev pub Absent : K → Dict K V → Type 0
  Absent k [] = Unit
  Absent k ((j, v) ∷ d) = ((j == k) ≡ false) × Absent k d

  abbrev pub Distinct : Dict K V → Type 0
  Distinct [] = Unit
  Distinct ((k, v) ∷ d) = Absent k d × Distinct d

  Absent-put :
      (k j : K) (v : V) (d : Dict K V) → (k == j) ≡ false → Absent j d → Absent j (put k v d)
  unfolding put
  Absent-put k j v [] h a = (h, tt)
  Absent-put k j v ((i, w) ∷ d) h a = ground (arith, Absent-put k j v d h a.1)

  pub put-Distinct : (k : K) (v : V) (d : Dict K V) → Distinct d → Distinct (put k v d)
  unfolding put
  put-Distinct k v [] h = (tt, tt)
  put-Distinct k v ((j, w) ∷ d) h =
      ground (arith, put-Distinct k v d h.1, Absent-put k j v d, e.beq_iff k j, e.beq_iff j k)

-- A predicate at every entry.
abbrev pub Entries {ℓ κ μ} : {K : Type ℓ} {V : Type κ} → (K → V → Type μ) → Dict K V → Type μ
Entries {K} {V} P = All (λ (p : K × V). P p.0 p.1)

module _ {ℓ κ μ} {K : Type ℓ} {V : Type κ} ⦃e : Eq K⦄ (P : K → V → Type μ) where
  pub Entries-put : (k : K) (v : V) (d : Dict K V) → P k v → Entries P d → Entries P (put k v d)
  unfolding put
  Entries-put k v [] p h = (p, tt)
  Entries-put k v ((j, w) ∷ d) p h = elim (Bool-cases (j == k)) [
    | inl hit ↦ rw hit (rw ((e.beq_iff j k).0 hit) p, h.1)
    | inr miss ↦ rw miss (h.0, Entries-put k v d p h.1)
  ]

  pub Entries-get : (k : K) (v : V) (d : Dict K V) → Entries P d → get k d ≡ some v → P k v
  unfolding get
  Entries-get k v [] h g = absurd (cc)
  Entries-get k v ((j, w) ∷ d) h g = elim (Bool-cases (j == k)) [
    | inl hit ↦ rw (← (e.beq_iff j k).0 hit, ← some-injective w v (rw hit at g)) h.0
    | inr miss ↦ Entries-get k v d h.1 (rw miss at g)
  ]

module _ {ℓ κ μ ν} {K : Type ℓ} {V : Type κ} (P : K → V → Type μ) (Q : V → Type ν) where
  pub values-All : ((k : K) (v : V) → P k v → Q v) → (d : Dict K V) → Entries P d → All Q (values d)
  values-All f [] h = tt
  values-All f ((k, v) ∷ d) h = (f k v h.0, values-All f d h.1)

-- The first of the values with an id, where the list is what `values` of a dictionary gives.
module _ {ℓ κ} {K : Type ℓ} {V : Type κ} ⦃e : Eq K⦄ (id : V → K) where
  unfoldable pub find_by : K → List V → Option V
  find_by k [] = none
  find_by k (v ∷ vs) = if id v == k then some v else find_by k vs

  pub find_by-values :
      (k : K) (d : Dict K V) → Entries (λ j v. id v ≡ j) d → find_by k (values d) ≡ get k d
  unfolding find_by get
  find_by-values k [] h = refl
  find_by-values k ((j, v) ∷ d) h = rw h.0 (ground (arith, find_by-values k d h.1))

  -- No id twice.
  abbrev pub DistinctIds : List V → Type 0
  DistinctIds [] = Unit
  DistinctIds (v ∷ vs) = All (λ w. (id w == id v) ≡ false) vs × DistinctIds vs

  values-Absent :
      (k : K) (d : Dict K V)
      → Entries (λ j v. id v ≡ j) d
      → Absent k d
      → All (λ w. (id w == k) ≡ false) (values d)
  values-Absent k [] h a = tt
  values-Absent k ((j, v) ∷ d) h a = (rw h.0 a.0, values-Absent k d h.1 a.1)

  pub values-DistinctIds :
      (d : Dict K V) → Entries (λ j v. id v ≡ j) d → Distinct d → DistinctIds (values d)
  values-DistinctIds [] h a = tt
  values-DistinctIds ((j, v) ∷ d) h a =
      (rw h.0 (values-Absent j d h.1 a.0), values-DistinctIds d h.1 a.1)
