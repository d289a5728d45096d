-- ===== src/Projection/Laws.antt =====
-- What every projection has, whatever its events write.
use boardroom_os.Base.{
  ◌≡◌, Bool, beq_self, refl, sym, ap, ◌∙◌, ◌↔◌, false, Option, none, some, List, [], ◌∷◌, ◌++◌,
  arith, Eq, Bool-cases, inl, inr,
}
use boardroom_os.Base.All.{All, keep, keep-All}
use boardroom_os.Base.Result.{
  Result, ok, raise, ◌>>=◌, >>=-eq-ok, ok_inj, replay, replay-append, replay_inv,
}
use boardroom_os.Base.Dict.{
  Dict, get, get-put, Entries, Entries-put, Entries-get, Distinct, put-Distinct,
}
use boardroom_os.Projection.{
  Write, apply, step, project, touch, effect, hits, trace, touches, Succeeds,
}

module _ {ℓ} {K V : Type ℓ} where
  -- `P` held of what was there, if anything was.
  abbrev pub Was {μ} : (P : K → V → Type μ) → K → Option V → Type μ
  Was P k none = Unit
  Was P k (some v) = P k v

  -- A write that makes `P` hold, if it held before.
  abbrev pub Writes {μ} : (P : K → V → Type μ) → Result (Option (Write K V)) → Type (ℓ ⊔ μ)
  Writes P (ok (some w)) = (o : Option V) → Was P w.key o → P w.key (w.update o)
  Writes P _ = Unit

  pub Writes-bind {μ κ} :
      {A : Type κ} (P : K → V → Type μ) (m : Result A) (f : A → Result (Option (Write K V)))
      → ((a : A) → m ≡ ok a → Writes P (f a))
      → Writes P (m >>= f)
  Writes-bind P (ok a) f h = h a refl
  Writes-bind P (raise x) f h = tt

module _ {ℓ} {K V : Type ℓ} ⦃eq : Eq K⦄ where
  get-apply :
      (k : K) (w : Option (Write K V)) (d : Dict K V) → get k (apply w d) ≡ touch k (get k d) w
  unfolding apply touch
  get-apply k none d = refl
  get-apply k (some w) d =
      ground (arith, get-put w.key k (w.update (get w.key d)) d, eq.beq_iff w.key k)

  apply-Distinct : (w : Option (Write K V)) (d : Dict K V) → Distinct d → Distinct (apply w d)
  unfolding apply
  apply-Distinct none d h = h
  apply-Distinct (some w) d h = put-Distinct w.key _ d h

  pub effect-eq_of_miss :
      (k : K) (o : Option V) (r : Result (Option (Write K V))) → hits k r ≡ false → effect k o r ≡ o
  unfolding effect hits
  effect-eq_of_miss k o (ok none) h = refl
  effect-eq_of_miss k o (ok (some w)) h = rw h
  effect-eq_of_miss k o (raise x) h = refl

  Was-get {μ} :
      (P : K → V → Type μ) (k : K) (d : Dict K V) (o : Option V)
      → get k d ≡ o
      → Entries P d
      → Was P k o
  Was-get P k d none g h = tt
  Was-get P k d (some v) g h = Entries-get P k v d h g

  apply-Entries {μ} :
      (P : K → V → Type μ) (w : Option (Write K V)) (d : Dict K V)
      → Writes P (ok w)
      → Entries P d
      → Entries P (apply w d)
  unfolding apply
  apply-Entries P none d p h = h
  apply-Entries P (some w) d p h =
      Entries-put P w.key (w.update (get w.key d)) d
        (p (get w.key d) (Was-get P w.key d (get w.key d) refl h)) h

module _ {ℓ} {K V E : Type ℓ} ⦃eq : Eq K⦄ (plan : E → Result (Option (Write K V))) where
  -- Reading the log in two parts is reading it at once.
  pub project-append :
      (xs ys : List E)
      → project plan (xs ++ ys) ≡ (project plan xs >>= λ d. replay (step plan) d ys)
  unfolding project
  project-append xs ys = replay-append (step plan) [] xs ys

  step-eq-ok :
      (d : Dict K V) (e : E) (d' : Dict K V)
      → step plan d e ≡ ok d'
      → (w : Option (Write K V)) × (plan e ≡ ok w) × (d' ≡ apply w d)
  unfolding step
  step-eq-ok d e d' h =
      let (w, p, q) = >>=-eq-ok (plan e) (λ w. ok (apply w d)) h in
      (w, p, ok_inj d' (apply w d) (cc))

  -- No key is listed twice.
  pub project-Distinct : (es : List E) (d : Dict K V) → project plan es ≡ ok d → Distinct d
  unfolding project
  project-Distinct es d h =
      replay_inv (step plan) Distinct
        (λ s e s' a p. let (w, _, q) = step-eq-ok s e s' p in rw q (apply-Distinct w s a)) [] es d
        tt h

  replay-trace :
      (k : K) (d : Dict K V) (es : List E) (d' : Dict K V)
      → replay (step plan) d es ≡ ok d'
      → get k d' ≡ trace plan k (get k d) es
  unfolding replay trace
  replay-trace k d [] d' h = ap (get k) (ok_inj d' d (cc))
  replay-trace k d (e ∷ es) d' h =
      let (t, p, rest) = >>=-eq-ok (step plan d e) (λ t. replay (step plan) t es) h in
      let (w, q, r) = step-eq-ok d e t p in
      rw q (replay-trace k t es d' rest ∙ ap (λ o. trace plan k o es) (rw r (get-apply k w d)))

  -- The entry of a key is the fold of the events over that key alone.
  pub get-project :
      (k : K) (es : List E) (d : Dict K V) → project plan es ≡ ok d → get k d ≡ trace plan k none es
  unfolding project get
  get-project k es d h = replay-trace k [] es d h

  -- Events that do not write the entry of a key can be left out.
  pub trace-keep :
      (k : K) (p : E → Bool)
      → ((e : E) → p e ≡ false → touches plan k e ≡ false)
      → (o : Option V) (es : List E) → trace plan k o (keep p es) ≡ trace plan k o es
  unfolding trace keep touches
  trace-keep k p miss o [] = refl
  trace-keep k p miss o (e ∷ es) = elim (Bool-cases (p e)) [
    | inl kept ↦ rw kept (trace-keep k p miss (effect k o (plan e)) es)
    | inr dropped ↦ rw dropped (
        trace-keep k p miss o es
        ∙ ap (λ q. trace plan k q es) (sym (effect-eq_of_miss k o (plan e) (miss e dropped))))
  ]

  pub trace-eq_of_misses :
      (k : K) (o : Option V) (es : List E)
      → All (λ e. touches plan k e ≡ false) es
      → trace plan k o es ≡ o
  unfolding trace touches
  trace-eq_of_misses k o [] h = refl
  trace-eq_of_misses k o (e ∷ es) h =
      rw (effect-eq_of_miss k o (plan e) h.0) (trace-eq_of_misses k o es h.1)

  -- The entry that a key has in the end is the one that its own events alone give it.
  pub trace-append :
      (k : K) (o : Option V) (xs ys : List E)
      → trace plan k o (xs ++ ys) ≡ trace plan k (trace plan k o xs) ys
  unfolding trace
  trace-append k o [] ys = refl
  trace-append k o (e ∷ xs) ys = trace-append k (effect k o (plan e)) xs ys

  -- A predicate that every write establishes, given that it held of what was there, holds of every
  -- entry.
  pub project-Entries {μ} :
      (P : K → V → Type μ)
      → ((e : E) → Writes P (plan e))
      → (es : List E) (d : Dict K V) → project plan es ≡ ok d
      → Entries P d
  unfolding project
  project-Entries P establish es d h =
      replay_inv (step plan) (Entries P)
        (λ s e s' a p.
          let (w, q, r) = step-eq-ok s e s' p in
          rw r (apply-Entries P w s (rw q at (establish e)) a))
        [] es d tt h

  replay-Succeeds :
      (s : Dict K V) (es : List E) (d : Dict K V)
      → replay (step plan) s es ≡ ok d
      → All (Succeeds plan) es
  unfolding replay
  replay-Succeeds s [] d h = tt
  replay-Succeeds s (e ∷ es) d h =
      let (t, p, rest) = >>=-eq-ok (step plan s e) (λ t. replay (step plan) t es) h in
      let (w, q, _) = step-eq-ok s e t p in ((w, q), replay-Succeeds t es d rest)

  Succeeds-replay :
      (s : Dict K V) (es : List E)
      → All (Succeeds plan) es
      → (d : Dict K V) × (replay (step plan) s es ≡ ok d)
  unfolding replay step
  Succeeds-replay s [] h = (s, refl)
  Succeeds-replay s (e ∷ es) h = let (w, q) = h.0 in rw q (Succeeds-replay (apply w s) es h.1)

  -- The whole log can be read exactly if each of its events can.
  pub project-ok_iff :
      (es : List E) → ((d : Dict K V) × (project plan es ≡ ok d)) ↔ All (Succeeds plan) es
  unfolding project
  project-ok_iff es =
      (λ h. let (d, p) = h in replay-Succeeds [] es d p, λ h. Succeeds-replay [] es h)

  pub trace-write :
      (o : Option V) (e : E) (w : Write K V) (ys : List E)
      → plan e ≡ ok (some w)
      → All (λ y. touches plan w.key y ≡ false) ys
      → trace plan w.key o (e ∷ ys) ≡ some (w.update o)
  unfolding trace effect touch
  trace-write o e w ys p miss =
      rw p (rw (beq_self w.key) (trace-eq_of_misses w.key (some (w.update o)) ys miss))

  -- What each of the events keeps of an entry, all of them keep.
  pub trace_inv {μ κ} :
      (k : K) (Q : Option V → Type μ) (R : E → Type κ)
      → ((e : E) (o : Option V) → R e → Q o → Q (effect k o (plan e)))
      → (o : Option V) (es : List E) → All R es
      → Q o
      → Q (trace plan k o es)
  unfolding trace
  trace_inv k Q R keeps o [] r q = q
  trace_inv k Q R keeps o (e ∷ es) r q =
      trace_inv k Q R keeps (effect k o (plan e)) es r.1 (keeps e o r.0 q)

  -- The entry right after an event that writes it.
  pub trace_of_write :
      (o : Option V) (e : E) (w : Write K V) (ys : List E)
      → plan e ≡ ok (some w)
      → trace plan w.key o (e ∷ ys) ≡ trace plan w.key (some (w.update o)) ys
  unfolding trace effect touch
  trace_of_write o e w ys p = rw p (rw (beq_self w.key))

  pub project-keep :
      (p : E → Bool) (es : List E) (d : Dict K V)
      → project plan es ≡ ok d
      → (d' : Dict K V) × (project plan (keep p es) ≡ ok d')
  project-keep p es d h =
      (project-ok_iff (keep p es)).1 (keep-All p (Succeeds plan) es ((project-ok_iff es).0 (d, h)))
