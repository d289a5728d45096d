-- ===== src/Base/All.antt =====
-- A predicate at every element of a list, and tests on lists.
use mathlib.Core.Path.{◌≡◌, refl}
use mathlib.Core.List.{List, [], ◌∷◌, ◌++◌, Memᴰ}
use mathlib.Core.Bool.{Bool, false, ◌||◌}
use native.Mathlib.Omega.{arith}
use boardroom_os.Base.Tests.{if◌then◌else◌, Bool-cases}
use mathlib.Core.Logic.{inl, inr}

abbrev pub All {ℓ κ} : {A : Type ℓ} → (A → Type κ) → List A → Type κ
All P [] = Unit
All P (x ∷ xs) = P x × All P xs

module _ {ℓ κ} {A : Type ℓ} (P : A → Type κ) where
  pub All-append : (xs ys : List A) → All P xs → All P ys → All P (xs ++ ys)
  All-append [] ys hx hy = hy
  All-append (x ∷ xs) ys hx hy = (hx.0, All-append xs ys hx.1 hy)

  pub All-split : (xs ys : List A) → All P (xs ++ ys) → All P xs × All P ys
  All-split [] ys h = (tt, h)
  All-split (x ∷ xs) ys h = let (hx, hy) = All-split xs ys h.1 in ((h.0, hx), hy)

module _ {ℓ κ} {A : Type ℓ} (P : A → Type κ) where
  pub All-Memᴰ : (x : A) (xs : List A) → All P xs → Memᴰ x xs → P x
  All-Memᴰ x [] h m = elim m [ ]
  All-Memᴰ x (y ∷ ys) h (Memᴰ.head e) = rw e h.0
  All-Memᴰ x (y ∷ ys) h (Memᴰ.tail m) = All-Memᴰ x ys h.1 m

module _ {ℓ κ μ} {A : Type ℓ} (P : A → Type κ) (Q : A → Type μ) where
  pub All-weaken : ((a : A) → P a → Q a) → (xs : List A) → All P xs → All Q xs
  All-weaken f [] h = tt
  All-weaken f (x ∷ xs) h = (f x h.0, All-weaken f xs h.1)

module _ {ℓ} {A : Type ℓ} where
  -- `any(test(x) for x in xs)`
  unfoldable pub any : (A → Bool) → List A → Bool
  any p [] = false
  any p (x ∷ xs) = p x || any p xs

  -- `[x for x in xs if test(x)]`
  unfoldable pub keep : (A → Bool) → List A → List A
  keep p [] = []
  keep p (x ∷ xs) = let rest = keep p xs in if p x then x ∷ rest else rest

  pub any-false→All : (p : A → Bool) (xs : List A) → any p xs ≡ false → All (λ x. p x ≡ false) xs
  unfolding any
  any-false→All p [] h = tt
  any-false→All p (x ∷ xs) h = (ground arith, any-false→All p xs (ground arith))

  pub All→any-false : (p : A → Bool) (xs : List A) → All (λ x. p x ≡ false) xs → any p xs ≡ false
  unfolding any
  All→any-false p [] h = refl
  All→any-false p (x ∷ xs) h = ground (arith, All→any-false p xs h.1)

  pub keep-All {κ} : (p : A → Bool) (P : A → Type κ) (xs : List A) → All P xs → All P (keep p xs)
  unfolding keep
  keep-All p P [] h = tt
  keep-All p P (x ∷ xs) h = elim (Bool-cases (p x)) [
    | inl kept ↦ rw kept (h.0, keep-All p P xs h.1)
    | inr dropped ↦ rw dropped (keep-All p P xs h.1)
  ]
