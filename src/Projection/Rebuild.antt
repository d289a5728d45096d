-- ===== src/Projection/Rebuild.antt =====
-- The list that a `rebuild_*_projections` returns: what holds of its elements, and how an element
-- follows from the log. `id` is the key that an element is stored under.
use boardroom_os.Base.{
  ◌≡◌, refl, sym, ◌∙◌, ◌↔◌, Bool, false, Option, none, some, List, ◌∷◌, ◌++◌, Eq,
}
use boardroom_os.Base.All.{All, All-weaken, All-split, keep}
use boardroom_os.Base.Result.{Result, ok, >>=-eq-ok, ok_inj}
use boardroom_os.Base.Dict.{
  Dict, values, Entries, values-All, find_by, find_by-values, DistinctIds, values-DistinctIds,
}
use boardroom_os.Projection.{Write, project, rebuild, trace, touches, Succeeds}
use boardroom_os.Projection.Laws.{
  Writes, project-Entries, project-Distinct, get-project, trace-keep, trace-append, trace-write,
  project-ok_iff, project-keep,
}

module _ {ℓ} {K V E : Type ℓ} ⦃eq : Eq K⦄ (plan : E → Result (Option (Write K V))) where
  rebuild-eq-ok :
      (es : List E) (vs : List V)
      → rebuild plan es ≡ ok vs
      → (d : Dict K V) × (project plan es ≡ ok d) × (vs ≡ values d)
  unfolding rebuild
  rebuild-eq-ok es vs h =
      let (d, p, q) = >>=-eq-ok (project plan es) (λ (d : Dict K V). ok (values d)) h in
      (d, p, ok_inj vs (values d) (sym q))

  pub rebuild-All {μ ν} :
      (P : K → V → Type μ) (Q : V → Type ν)
      → ((k : K) (v : V) → P k v → Q v)
      → ((e : E) → Writes P (plan e))
      → (es : List E) (vs : List V) → rebuild plan es ≡ ok vs
      → All Q vs
  rebuild-All P Q weaken establish es vs h =
      let (d, p, q) = rebuild-eq-ok es vs h in
      rw q (values-All P Q weaken d (project-Entries plan P establish es d p))

  pub rebuild-ok_iff :
      (es : List E) → ((vs : List V) × (rebuild plan es ≡ ok vs)) ↔ All (Succeeds plan) es
  unfolding rebuild
  rebuild-ok_iff es = (
    λ h. let (d, p, _) = rebuild-eq-ok es h.0 h.1 in (project-ok_iff plan es).0 (d, p),
    λ h. let (d, p) = (project-ok_iff plan es).1 h in (values d, rw p refl),
  )

  -- What stands in a log that can be read does not raise.
  pub rebuild-Succeeds :
      (xs ys : List E) (e : E) (vs : List V) → rebuild plan (xs ++ e ∷ ys) ≡ ok vs → Succeeds plan e
  rebuild-Succeeds xs ys e vs h =
      (All-split (Succeeds plan) xs (e ∷ ys) ((rebuild-ok_iff (xs ++ e ∷ ys)).0 (vs, h))).1.0

-- `P` is what the writes establish of the element under a key, and it gives the element's id.
module _ {ℓ μ} {K V E : Type ℓ} ⦃eq : Eq K⦄ (plan : E → Result (Option (Write K V))) (id : V → K)
    (P : K → V → Type μ) (own : (k : K) (v : V) → P k v → id v ≡ k)
    (establish : (e : E) → Writes P (plan e)) where
  project-own : (es : List E) (d : Dict K V) → project plan es ≡ ok d → Entries (λ k v. id v ≡ k) d
  project-own es d h =
      All-weaken (λ (p : K × V). P p.0 p.1) (λ (p : K × V). id p.1 ≡ p.0) (λ p q. own p.0 p.1 q) d
        (project-Entries plan P establish es d h)

  pub rebuild-DistinctIds :
      (es : List E) (vs : List V) → rebuild plan es ≡ ok vs → DistinctIds id vs
  rebuild-DistinctIds es vs h =
      let (d, p, q) = rebuild-eq-ok plan es vs h in
      rw q (values-DistinctIds id d (project-own es d p) (project-Distinct plan es d p))

  pub find_by-rebuild :
      (k : K) (es : List E) (vs : List V)
      → rebuild plan es ≡ ok vs
      → find_by id k vs ≡ trace plan k none es
  find_by-rebuild k es vs h =
      let (d, p, q) = rebuild-eq-ok plan es vs h in
      rw q (find_by-values id k d (project-own es d p) ∙ get-project plan k es d p)

  -- The log can be cut down to a part that holds every event about an id.
  pub rebuild-keep :
      (k : K) (p : E → Bool)
      → ((e : E) → p e ≡ false → touches plan k e ≡ false)
      → (es : List E) (vs : List V) → rebuild plan es ≡ ok vs
      → (vs' : List V) × (rebuild plan (keep p es) ≡ ok vs') × (find_by id k vs' ≡ find_by id k vs)
  rebuild-keep k p miss es vs h =
      let (d, q, _) = rebuild-eq-ok plan es vs h in
      let (d', q') = project-keep plan p es d q in
      let done : rebuild plan (keep p es) ≡ ok (values d') = unfold rebuild in rw q' refl in
      (
        values d',
        done,
        find_by-rebuild k (keep p es) (values d') done
            ∙ (trace-keep plan k p miss none es ∙ sym (find_by-rebuild k es vs h)),
      )

  -- After its last event an element is what that event wrote.
  pub rebuild_last :
      (xs ys : List E) (e : E) (w : Write K V) (vs : List V)
      → plan e ≡ ok (some w)
      → All (λ y. touches plan w.key y ≡ false) ys
      → rebuild plan (xs ++ e ∷ ys) ≡ ok vs
      → find_by id w.key vs ≡ some (w.update (trace plan w.key none xs))
  rebuild_last xs ys e w vs p miss h =
      find_by-rebuild w.key (xs ++ e ∷ ys) vs h
      ∙ (trace-append plan w.key none xs (e ∷ ys)
          ∙ trace-write plan (trace plan w.key none xs) e w ys p miss)
