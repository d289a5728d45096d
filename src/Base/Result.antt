-- ===== src/Base/Result.antt =====
-- A computation that may raise. `d["k"]` on a dictionary with no key "k" raises `KeyError`.
use mathlib.Core.Path.{◌≡◌, refl, ap}
use mathlib.Core.List.{List, [], ◌∷◌, ◌++◌}
use Prim.Native.String.{String}

pub data Error : Type 0 where
  key_error : String → Error
  recursion_error : Error
  type_error : Error
  value_error : Error
  integrity_error : Error
  runtime_error : String → Error
  overflow_error : Error

-- What a call returns, or the error that it raises.
pub data Result {ℓ} (V : Type ℓ) : Type ℓ where
  ok : V → Result V
  raise : Error → Result V

infixl 5 ◌>>=◌
abbrev pub ◌>>=◌ {ℓ κ} : {V : Type ℓ} {W : Type κ} → Result V → (V → Result W) → Result W
raise x >>= next = raise x
ok v >>= next = next v

-- A sequence that returns has a first part that returns.
pub >>=-eq-ok {ℓ κ} :
    {V : Type ℓ} {W : Type κ} {w : W} (first : Result V) (next : V → Result W)
    → (first >>= next) ≡ ok w
    → (v : V) × (first ≡ ok v) × (next v ≡ ok w)
>>=-eq-ok (raise x) next h = cc
>>=-eq-ok (ok v) next h = (v, refl, h)

pub Result-cases {ℓ} :
    {A : Type ℓ} {C : Type ℓ} (m : Result A)
    → ((a : A) → m ≡ ok a → C)
    → ((x : Error) → m ≡ raise x → C)
    → C
Result-cases (ok a) f g = f a refl
Result-cases (raise x) f g = g x refl

bind_cong {ℓ κ} :
    {A : Type ℓ} {B : Type κ} (m : Result A) (f g : A → Result B) (k : B → Result B)
    → ((a : A) → f a ≡ (g a >>= k))
    → (m >>= f) ≡ ((m >>= g) >>= k)
bind_cong (ok a) f g k h = h a
bind_cong (raise x) f g k h = refl

abbrev pub ok_or {ℓ} : {A : Type ℓ} → A → Result A → A
ok_or d (ok a) = a
ok_or d (raise x) = d

pub ok_inj {ℓ} : {A : Type ℓ} (a b : A) → ok a ≡ ok b → a ≡ b
ok_inj a b h = ap (ok_or a) h

-- A loop `for e in events: ...` over a state, which a raise leaves at once.
module _ {ℓ κ} {S : Type ℓ} {E : Type κ} (step : S → E → Result S) where
  unfoldable pub replay : S → List E → Result S
  replay s [] = ok s
  replay s (e ∷ es) = step s e >>= λ s'. replay s' es

  pub replay-append :
      (s : S) (xs ys : List E) → replay s (xs ++ ys) ≡ (replay s xs >>= λ s'. replay s' ys)
  unfolding replay
  replay-append s [] ys = refl
  replay-append s (e ∷ xs) ys =
      bind_cong (step s e) (λ s'. replay s' (xs ++ ys)) (λ s'. replay s' xs) (λ s'. replay s' ys)
        (λ s'. replay-append s' xs ys)

  -- What every step keeps holds at the end.
  pub replay_inv {μ} :
      (P : S → Type μ)
      → ((s : S) (e : E) (s' : S) → P s → step s e ≡ ok s' → P s')
      → (s : S) (es : List E) (s' : S) → P s
      → replay s es ≡ ok s'
      → P s'
  unfolding replay
  replay_inv P keep s [] s' p h = rw (← ok_inj s s' h) p
  replay_inv P keep s (e ∷ es) s' p h =
      let (t, done, rest) = >>=-eq-ok (step s e) (λ t. replay t es) h in
      replay_inv P keep t es s' (keep s e t p done) rest

-- A computation that does not raise.
abbrev pub IsOk {ℓ} : {A : Type ℓ} → Result A → Type 0
IsOk (ok a) = Unit
IsOk (raise x) = ⊥

pub IsOk-value {ℓ} : {A : Type ℓ} (r : Result A) → IsOk r → (a : A) × (r ≡ ok a)
IsOk-value (ok a) h = (a, refl)
IsOk-value (raise x) h = absurd h

pub IsOk-of_eq {ℓ} : {A : Type ℓ} (r : Result A) (a : A) → r ≡ ok a → IsOk r
IsOk-of_eq (ok b) a h = tt
IsOk-of_eq (raise x) a h = cc
