-- ===== src/Ticket/Cut.antt =====
-- A log that is cut down to the events about one ticket computes the same times for it
-- (`rebuild_ticket_projections` of backend/app/core/reducer.py).
use boardroom_os.Base.{
  String, ◌≡◌, refl, ap, subst, Bool, true, false, Option, none, List, [], ◌∷◌, ◌++◌, inl, inr,
  Bool-cases, option_eq, text_eq,
}
use mathlib.Core.List.{append-nil}
use boardroom_os.Base.All.{keep}
use boardroom_os.Field.{get}
use boardroom_os.Event.{Event}
use boardroom_os.Projection.{trace, touches}
use boardroom_os.Projection.Laws.{trace-keep}
use boardroom_os.Ticket.{plan}
use boardroom_os.Ticket.Clock.{IsInTime, LogIsInTime}

keep-append {ℓ} :
    {A : Type ℓ} (p : A → Bool) (xs ys : List A) → keep p (xs ++ ys) ≡ (keep p xs ++ keep p ys)
unfolding keep
keep-append p [] ys = refl
keep-append p (x ∷ xs) ys = elim (Bool-cases (p x)) [
  | inl kept ↦ rw kept (ap (λ l. x ∷ l) (keep-append p xs ys))
  | inr dropped ↦ rw dropped (keep-append p xs ys)
]

module _ (k : Option String) (p : Event → Bool)
    (owns : (e : Event) → p e ≡ true → get e.payload.ticket_id ≡ k)
    (miss : (e : Event) → p e ≡ false → touches plan k e ≡ false) where
  IsInTime-keep :
      (before : List Event) (e : Event)
      → p e ≡ true
      → IsInTime e (trace plan (get e.payload.ticket_id) none before)
      → IsInTime e (trace plan (get e.payload.ticket_id) none (keep p before))
  IsInTime-keep before e kept h =
      rw (owns e kept, trace-keep plan k p miss none before) (rw (owns e kept) at h)

  pub LogIsInTime-keep :
      (before es : List Event) → LogIsInTime before es → LogIsInTime (keep p before) (keep p es)
  unfolding keep
  LogIsInTime-keep before [] h = tt
  LogIsInTime-keep before (e ∷ es) h =
      let others = LogIsInTime-keep (before ++ e ∷ []) es h.1 in
      let split = keep-append p before (e ∷ []) in
      elim (Bool-cases (p e)) [
        | inl kept ↦ rw kept (
          IsInTime-keep before e kept h.0,
          subst (λ l. LogIsInTime l (keep p es)) (rw kept at split) others,
        )
        | inr dropped ↦ rw dropped (
            subst (λ l. LogIsInTime l (keep p es))
              (rw (dropped, append-nil (keep p before)) at split) others)
      ]
