-- ===== src/Employee/Sort.antt =====
-- `sorted(projections)` of a dictionary whose keys are texts or None.
use boardroom_os.Base.{
  ℕ, String, ◌≡◌, refl, ◌∙◌, ap, sym, subst, Bool, true, false, ◌&&◌, ◌||◌, Option, none, some,
  List, [], ◌∷◌, arith, ◌==◌, ltb, nat_eq, text_eq, option_eq, option_beq_iff, if◌then◌else◌,
  Bool-cases, inl, inr,
}
use boardroom_os.Base.Result.{Result, ok, raise, type_error, ok_inj, Error}
use boardroom_os.Base.All.{any}
use boardroom_os.Base.Dict.{Dict, get, Entries}
use boardroom_os.Base.Text.{codes}

-- `s < t`: texts are compared by their code points.
abbrev pub codes_ltb : List ℕ → List ℕ → Bool
codes_ltb s [] = false
codes_ltb [] (d ∷ t) = true
codes_ltb (c ∷ s) (d ∷ t) = ltb c d || (c == d && codes_ltb s t)

pub codes_ltb_irrefl : (s : List ℕ) → codes_ltb s s ≡ false
codes_ltb_irrefl [] = refl
codes_ltb_irrefl (c ∷ s) = ground (arith, codes_ltb_irrefl s)

pub codes_ltb_asymm : (s t : List ℕ) → codes_ltb s t ≡ true → codes_ltb t s ≡ false
codes_ltb_asymm [] [] h = refl
codes_ltb_asymm [] (d ∷ t) h = refl
codes_ltb_asymm (c ∷ s) [] h = cc
codes_ltb_asymm (c ∷ s) (d ∷ t) h = ground (arith, codes_ltb_asymm s t)

-- None before every text; `sort_ids` never compares it.
abbrev pub id_ltb : Option String → Option String → Bool
id_ltb x none = false
id_ltb none (some t) = true
id_ltb (some s) (some t) = codes_ltb (codes s) (codes t)

pub id_ltb_irrefl : (x : Option String) → id_ltb x x ≡ false
id_ltb_irrefl none = refl
id_ltb_irrefl (some s) = codes_ltb_irrefl (codes s)

pub id_ltb_asymm : (x y : Option String) → id_ltb x y ≡ true → id_ltb y x ≡ false
id_ltb_asymm none none h = refl
id_ltb_asymm none (some t) h = refl
id_ltb_asymm (some s) none h = cc
id_ltb_asymm (some s) (some t) h = codes_ltb_asymm (codes s) (codes t) h

-- A smaller id is another id.
id_ltb-differ : (x y k : Option String) → id_ltb x y ≡ true → (y == k) ≡ true → (x == k) ≡ false
id_ltb-differ x y k less hit = elim (Bool-cases (x == k)) [
  | inr miss ↦ miss
  | inl same ↦
      let e : x ≡ y = (option_beq_iff x k).0 same ∙ sym ((option_beq_iff y k).0 hit) in
      cc (id_ltb_irrefl y, rw e at less)
]

abbrev IsRaised {ℓ} : {A : Type ℓ} → Result A → Type 0
IsRaised (raise x) = Unit
IsRaised (ok a) = ⊥

raised {ℓ} : {A : Type ℓ} {x : Error} {a : A} → raise x ≡ ok a → ⊥
raised h = subst IsRaised h tt

module _ {V : Type 0} where
  unfoldable pub insert_id : Option String → V → Dict (Option String) V → Dict (Option String) V
  insert_id k v [] = (k, v) ∷ []
  insert_id k v ((j, w) ∷ d) =
      let rest = insert_id k v d in if id_ltb j k then (j, w) ∷ rest else (k, v) ∷ (j, w) ∷ d

  unfoldable pub insert_ids : Dict (Option String) V → Dict (Option String) V
  unfolding insert_id
  insert_ids [] = []
  insert_ids ((k, v) ∷ d) = insert_id k v (insert_ids d)

  abbrev pub is_none : Option String × V → Bool
  is_none (none, v) = true
  is_none (some s, v) = false

  -- None and a text cannot be compared; a single key is not compared.
  unfoldable pub sort_ids : Dict (Option String) V → Result (Dict (Option String) V)
  unfolding insert_ids any
  sort_ids [] = ok []
  sort_ids (e ∷ []) = ok (e ∷ [])
  sort_ids (e ∷ f ∷ d) =
      if any is_none (e ∷ f ∷ d) then raise type_error else ok (insert_ids (e ∷ f ∷ d))

  -- The ids stand in ascending order.
  abbrev pub Ascending : Dict (Option String) V → Type 0
  Ascending [] = Unit
  Ascending ((k, v) ∷ []) = Unit
  Ascending ((k, v) ∷ (j, w) ∷ d) = (id_ltb j k ≡ false) × Ascending ((j, w) ∷ d)

  insert_id-Ascending :
      (k : Option String) (v : V) (d : Dict (Option String) V)
      → Ascending d
      → Ascending (insert_id k v d)
  unfolding insert_id
  insert_id-Ascending k v [] h = tt
  insert_id-Ascending k v ((j, w) ∷ []) h = elim (Bool-cases (id_ltb j k)) [
    | inl less ↦ rw less (id_ltb_asymm j k less, tt)
    | inr more ↦ rw more (more, tt)
  ]
  insert_id-Ascending k v ((j, w) ∷ (i, x) ∷ d) h =
      let rest = insert_id-Ascending k v ((i, x) ∷ d) h.1 in
      elim (Bool-cases (id_ltb j k)) [
        | inr more ↦ rw more (more, h)
        | inl less ↦ rw less (elim (Bool-cases (id_ltb i k)) [
          | inl again ↦ rw again (h.0, rw again at rest)
          | inr more ↦ rw more (id_ltb_asymm j k less, rw more at rest)
        ])
      ]

  insert_ids-Ascending : (d : Dict (Option String) V) → Ascending (insert_ids d)
  unfolding insert_ids
  insert_ids-Ascending [] = tt
  insert_ids-Ascending ((k, v) ∷ d) =
      insert_id-Ascending k v (insert_ids d) (insert_ids-Ascending d)

  get-insert_id :
      (k j : Option String) (v : V) (d : Dict (Option String) V)
      → get j (insert_id k v d) ≡ (if k == j then some v else get j d)
  unfolding insert_id get
  get-insert_id k j v [] = refl
  get-insert_id k j v ((i, w) ∷ d) = elim (Bool-cases (id_ltb i k)) [
    | inl less ↦ rw less (ground (arith, get-insert_id k j v d, id_ltb-differ i k j less))
    | inr more ↦ rw more refl
  ]

  get-insert_ids : (j : Option String) (d : Dict (Option String) V) → get j (insert_ids d) ≡ get j d
  unfolding insert_ids get
  get-insert_ids j [] = refl
  get-insert_ids j ((k, v) ∷ d) =
      get-insert_id k j v (insert_ids d)
      ∙ ap (λ o. if k == j then some v else o) (get-insert_ids j d)

  insert_id-Entries :
      (P : Option String → V → Type 0) (k : Option String) (v : V) (d : Dict (Option String) V)
      → P k v
      → Entries P d
      → Entries P (insert_id k v d)
  unfolding insert_id
  insert_id-Entries P k v [] p h = (p, tt)
  insert_id-Entries P k v ((j, w) ∷ d) p h = elim (Bool-cases (id_ltb j k)) [
    | inl less ↦ rw less (h.0, insert_id-Entries P k v d p h.1)
    | inr more ↦ rw more (p, h)
  ]

  insert_ids-Entries :
      (P : Option String → V → Type 0) (d : Dict (Option String) V)
      → Entries P d
      → Entries P (insert_ids d)
  unfolding insert_ids
  insert_ids-Entries P [] h = tt
  insert_ids-Entries P ((k, v) ∷ d) h =
      insert_id-Entries P k v (insert_ids d) h.0 (insert_ids-Entries P d h.1)

  -- What a sorted dictionary keeps of the dictionary, and what it gains.
  pub record IsSorted (d s : Dict (Option String) V) : Type 1 where
    pub same_entry : (k : Option String) → get k s ≡ get k d
    pub keeps : (P : Option String → V → Type 0) → Entries P d → Entries P s
    pub ascending : Ascending s

  insert_ids-IsSorted : (d : Dict (Option String) V) → IsSorted d (insert_ids d)
  insert_ids-IsSorted d = record {
    same_entry = λ k. get-insert_ids k d;
    keeps = λ P h. insert_ids-Entries P d h;
    ascending = insert_ids-Ascending d;
  }

  pub sort_ids-IsSorted : (d s : Dict (Option String) V) → sort_ids d ≡ ok s → IsSorted d s
  unfolding sort_ids
  sort_ids-IsSorted [] s h =
      rw (← ok_inj [] s h) (record { same_entry = λ k. refl; keeps = λ P p. p; ascending = tt })
  sort_ids-IsSorted (e ∷ []) s h =
      rw (← ok_inj (e ∷ []) s h)
        (record { same_entry = λ k. refl; keeps = λ P p. p; ascending = tt })
  sort_ids-IsSorted (e ∷ f ∷ d) s h = elim (Bool-cases (any is_none (e ∷ f ∷ d))) [
    | inl mixed ↦ absurd (raised (rw mixed at h))
    | inr texts ↦
        rw (← ok_inj (insert_ids (e ∷ f ∷ d)) s (rw texts at h)) (insert_ids-IsSorted (e ∷ f ∷ d))
  ]
