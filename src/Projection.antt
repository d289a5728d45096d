-- ===== src/Projection.antt =====
-- The shape that every loop of backend/app/core/reducer.py has: one pass over the events, in which
-- an event raises, changes nothing, or runs `projections[key] = {**projections.get(key, base), ...}`.
-- A component gives the write of each event; the loop and its laws are here.
pub mod Laws
pub mod Rebuild
use boardroom_os.Base.{
  Bool, true, false, Option, none, some, List, [], ◌∷◌, Eq, ◌==◌, if◌then◌else◌, ◌≡◌,
}
use boardroom_os.Base.Result.{Result, ok, raise, ◌>>=◌, replay}
use boardroom_os.Base.Dict.{Dict, get, put, values}

-- `update` is given what the dictionary holds at the key, if anything.
pub record Write {ℓ} (K V : Type ℓ) : Type ℓ where
  pub key : K
  pub update : Option V → V

module _ {ℓ} {K V : Type ℓ} ⦃eq : Eq K⦄ where
  unfoldable pub apply : Option (Write K V) → Dict K V → Dict K V
  apply none d = d
  apply (some w) d = put w.key (w.update (get w.key d)) d

  -- What one event does to the entry of a key.
  unfoldable pub touch : K → Option V → Option (Write K V) → Option V
  touch k o none = o
  touch k o (some w) = if w.key == k then some (w.update o) else o

  unfoldable pub effect : K → Option V → Result (Option (Write K V)) → Option V
  unfolding touch
  effect k o (ok w) = touch k o w
  effect k o (raise x) = o

  unfoldable pub hits : K → Result (Option (Write K V)) → Bool
  hits k (ok (some w)) = w.key == k
  hits k _ = false

module _ {ℓ} {K V E : Type ℓ} ⦃eq : Eq K⦄ (plan : E → Result (Option (Write K V))) where
  unfoldable pub step : Dict K V → E → Result (Dict K V)
  unfolding apply
  step d e = do w ← plan e; ok (apply w d)

  unfoldable pub project : List E → Result (Dict K V)
  unfolding step
  project es = replay step [] es

  -- `return list(projections.values())`
  unfoldable pub rebuild : List E → Result (List V)
  rebuild es = do d ← project es; ok (values d)

  -- The entry of a key, from the events alone.
  unfoldable pub trace : K → Option V → List E → Option V
  unfolding effect
  trace k o [] = o
  trace k o (e ∷ es) = trace k (effect k o (plan e)) es

  -- The events that write the entry of a key.
  unfoldable pub touches : K → E → Bool
  unfolding hits
  touches k e = hits k (plan e)

  abbrev pub Succeeds : E → Type ℓ
  Succeeds e = (w : Option (Write K V)) × (plan e ≡ ok w)
