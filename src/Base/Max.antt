-- ===== src/Base/Max.antt =====
-- `max(items, key=...)` of a list that is not empty.
use mathlib.Core.List.{List, [], ◌∷◌, Memᴰ}
use mathlib.Core.Bool.{Bool, true, false}
use mathlib.Core.Path.{◌≡◌, refl}
use mathlib.Core.Logic.{inl, inr}
use native.Mathlib.Omega.{arith}
use Prim.Native.Nat.{ℕ, ◌≤◌}
use boardroom_os.Base.Tests.{if◌then◌else◌, Bool-cases}
use boardroom_os.Base.All.{All}

-- The first of the greatest.
unfoldable pub max_by {ℓ} : {A : Type ℓ} → (A → A → Bool) → A → List A → A
max_by less a [] = a
max_by less a (b ∷ bs) = max_by less (if less a b then b else a) bs

module _ {ℓ} {A : Type ℓ} (less : A → A → Bool) where
  skip : {x a : A} {bs : List A} (b : A) → Memᴰ x (a ∷ bs) → Memᴰ x (a ∷ b ∷ bs)
  skip b (Memᴰ.head p) = Memᴰ.head p
  skip b (Memᴰ.tail m) = Memᴰ.tail (Memᴰ.tail m)

  -- It is one of the items.
  pub max_by-Memᴰ : (a : A) (bs : List A) → Memᴰ (max_by less a bs) (a ∷ bs)
  unfolding max_by
  max_by-Memᴰ a [] = Memᴰ.head refl
  max_by-Memᴰ a (b ∷ bs) = elim (Bool-cases (less a b)) [
    | inl up ↦ rw up (Memᴰ.tail (max_by-Memᴰ b bs))
    | inr keep ↦ rw keep (skip b (max_by-Memᴰ a bs))
  ]

module _ {ℓ} {A : Type ℓ} (less : A → A → Bool) (size : A → ℕ)
    (up : (a b : A) → less a b ≡ true → size a ≤ size b)
    (down : (a b : A) → less a b ≡ false → size b ≤ size a) where
  after_choice :
      (a b : A) (bs : List A) (c : Bool)
      → less a b ≡ c
      → ((x : A) → All (λ y. size y ≤ size (max_by less x bs)) (x ∷ bs))
      → All (λ y. size y ≤ size (max_by less (if c then b else a) bs)) (a ∷ b ∷ bs)
  after_choice a b bs true e ih = (omega (arith, (ih b).0, up a b e), (ih b))
  after_choice a b bs false e ih = ((ih a).0, (omega (arith, (ih a).0, down a b e), (ih a).1))

  -- Where the order follows a number, no item has a greater one.
  pub max_by-ge : (a : A) (bs : List A) → All (λ b. size b ≤ size (max_by less a bs)) (a ∷ bs)
  unfolding max_by
  max_by-ge a [] = (omega arith, tt)
  max_by-ge a (b ∷ bs) = after_choice a b bs (less a b) refl (λ x. max_by-ge x bs)
