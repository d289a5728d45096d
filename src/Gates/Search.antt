-- ===== src/Gates/Search.antt =====
-- What the search for a cycle finds: it answers true exactly if the ticket can be reached.
use boardroom_os.Base.{
  ℕ, zero, suc, String, ◌≡◌, refl, sym, ◌∙◌, Bool, true, false, ◌||◌, Option, none, some, List, [],
  ◌∷◌, ◌++◌, arith, text_eq, ◌==◌, Bool-cases, inl, inr, eq_iff, ◌↔◌, beq_self,
}
use mathlib.Core.Option.{some_inj}
use mathlib.Core.List.{reverse, reverse-cons}
use boardroom_os.Base.All.{any}
use boardroom_os.Gates.{elem, cycle_search}

-- A chain of dependencies from one ticket to another.
pub data Reaches (next : String → List String) (ticket : String) : String → Type 0 where
  here : Reaches next ticket ticket
  via :
      {x : String} (y : String)
      → elem y (next x) ≡ true
      → Reaches next ticket y
      → Reaches next ticket x

-- One of the tickets reaches it.
abbrev pub SomeReaches : (String → List String) → String → List String → Type 0
SomeReaches next ticket xs = (x : String) × (elem x xs ≡ true) × Reaches next ticket x

elem-append : (x : String) (xs ys : List String) → elem x (xs ++ ys) ≡ (elem x xs || elem x ys)
unfolding any
elem-append x [] ys = refl
elem-append x (z ∷ xs) ys = ground (arith, elem-append x xs ys)

elem-reverse : (x : String) (xs : List String) → elem x (reverse xs) ≡ elem x xs
unfolding any
elem-reverse x [] = refl
elem-reverse x (y ∷ xs) =
    rw (reverse-cons y xs) (ground (arith, elem-append x (reverse xs) (y ∷ []), elem-reverse x xs))

differ : {b : Bool} → b ≡ false → b ≡ true → ⊥
differ p q = let both : false ≡ true = sym p ∙ q in absurd (cc)

some_differ : ◌≡◌ {A = Option Bool} (some true) (some false) → ⊥
some_differ h = differ (some_inj.0 h) refl

pub some_none {ℓ κ} : {A : Type ℓ} {C : Type κ} {a : A} → ◌≡◌ {A = Option A} (some a) none → C
some_none h = absurd (cc)

module _ (next : String → List String) (ticket : String) where
  -- Where it answers true, a pending ticket reaches the ticket.
  found :
      (fuel : ℕ) (seen pending : List String)
      → cycle_search fuel next ticket seen pending ≡ some true
      → SomeReaches next ticket pending
  unfolding cycle_search any
  found zero seen pending h = absurd (cc)
  found (suc fuel) seen [] h = absurd (cc)
  found (suc fuel) seen (x ∷ rest) h = elim (Bool-cases (x == ticket)) [
    | inl hit ↦ (ticket, rw hit refl, here)
    | inr miss ↦ elim (Bool-cases (elem x seen)) [
      | inl again ↦
          let (y, there, reaches) = found fuel seen rest (rw (miss, again) at h) in
          (y, ground arith, reaches)
      | inr first ↦
          let (y, there, reaches) =
            found fuel (x ∷ seen) (reverse (next x) ++ rest) (rw (miss, first) at h) in
          elim (Bool-cases (elem y rest)) [
            | inl in_rest ↦ (y, ground arith, reaches)
            | inr expanded ↦ (
              x,
              ground (arith, eq_iff x x),
              via y (ground (arith, elem-append y (reverse (next x)) rest, elem-reverse y (next x)))
                  reaches,
            )
          ]
    ]
  ]

  -- The tickets that have been seen are not the ticket, and all that they wait for is seen or pending.
  abbrev Explored : List String → List String → Type 0
  Explored seen pending =
      (x : String)
      → elem x seen ≡ true
      → ((x == ticket) ≡ false)
        × ((y : String) → elem y (next x) ≡ true → (elem y seen || elem y pending) ≡ true)

  seen_of : (seen : List String) (y : String) → (elem y seen || false) ≡ true → elem y seen ≡ true
  seen_of seen y h = ground arith

  unreachable :
      (seen : List String)
      → Explored seen []
      → (x : String) → Reaches next ticket x
      → elem x seen ≡ false
  unfolding any
  unreachable seen e _ here = elim (Bool-cases (elem ticket seen)) [
    | inr unseen ↦ unseen
    | inl there ↦ cc ((e ticket there).0, beq_self ticket)
  ]
  unreachable seen e x (via y edge rest) = elim (Bool-cases (elem x seen)) [
    | inr unseen ↦ unseen
    | inl there ↦ cc (unreachable seen e y rest, seen_of seen y ((e x there).1 y edge))
  ]

  explore_again :
      (seen rest : List String) (x : String)
      → elem x seen ≡ true
      → Explored seen (x ∷ rest)
      → Explored seen rest
  unfolding any
  explore_again seen rest x again e z there =
      let (other, closed) = e z there in
      (other, λ y edge. ground (arith, closed y edge, eq_iff x y))

  explore_first :
      (seen rest : List String) (x : String)
      → (x == ticket) ≡ false
      → Explored seen (x ∷ rest)
      → Explored (x ∷ seen) (reverse (next x) ++ rest)
  unfolding any
  explore_first seen rest x other e z there = elim (Bool-cases (x == z)) [
    | inl same ↦
        let p : x ≡ z = (eq_iff x z).0 same in
        rw (← p) (
          other,
          λ y edge. ground (arith, elem-append y (reverse (next x)) rest, elem-reverse y (next x)),
        )
    | inr different ↦
        let (apart, closed) = e z (ground arith) in
        (apart, λ y edge. ground (arith, closed y edge, elem-append y (reverse (next x)) rest))
  ]

  -- Where it answers false, no pending ticket and no seen one reaches the ticket.
  not_found :
      (fuel : ℕ) (seen pending : List String)
      → Explored seen pending
      → cycle_search fuel next ticket seen pending ≡ some false
      → (x : String) → (elem x seen || elem x pending) ≡ true
      → Reaches next ticket x
      → ⊥
  unfolding cycle_search any
  not_found zero seen pending e h x there reaches = absurd (cc)
  not_found (suc fuel) seen [] e h x there reaches =
      differ (unreachable seen e x reaches) (seen_of seen x there)
  not_found (suc fuel) seen (y ∷ rest) e h x there reaches = elim (Bool-cases (y == ticket)) [
    | inl hit ↦ some_differ (rw hit at h)
    | inr miss ↦ elim (Bool-cases (elem y seen)) [
      | inl again ↦
          not_found fuel seen rest (explore_again seen rest y again e) (rw (miss, again) at h) x
            (ground (arith, eq_iff y x)) reaches
      | inr first ↦
          not_found fuel (y ∷ seen) (reverse (next y) ++ rest) (explore_first seen rest y miss e)
            (rw (miss, first) at h) x (ground (arith, elem-append x (reverse (next y)) rest))
            reaches
    ]
  ]

  -- An answer is right: true exactly if one of the first tickets reaches the ticket.
  pub cycle_search_iff :
      (fuel : ℕ) (first : List String) (b : Bool)
      → cycle_search fuel next ticket [] (reverse first) ≡ some b
      → (b ≡ true) ↔ SomeReaches next ticket first
  unfolding any
  cycle_search_iff fuel first true h = (
    λ _.
        let (x, there, reaches) = found fuel [] (reverse first) h in
        (x, sym (elem-reverse x first) ∙ there, reaches),
    λ _. refl,
  )
  cycle_search_iff fuel first false h = (
    λ taken. absurd (differ refl taken),
    λ reaching.
        let (x, there, reaches) = reaching in
        absurd (
          not_found fuel [] (reverse first) (λ x unseen. absurd (differ refl unseen)) h x
            (elem-reverse x first ∙ there) reaches),
  )
