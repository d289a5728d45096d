-- ===== src/Base/Strip.antt =====
-- What is stripped has no spaces to strip.
use Prim.Native.Char.{Char, code}
use Prim.Native.String.{String}
use mathlib.Core.Path.{◌≡◌, refl, ap}
use mathlib.Core.Bool.{false}
use mathlib.Core.Logic.{inl, inr}
use mathlib.Core.List.{List, [], ◌∷◌, ◌++◌, reverse, reverse-cons, reverse-append, reverse-reverse}
use native.Mathlib.Omega.{arith}
use boardroom_os.Base.Tests.{Bool-cases}
use boardroom_os.Base.Text.{strip, drop_spaces, is_space, chars, to_text}

chars-to_text : (cs : List Char) → chars (to_text cs) ≡ cs
chars-to_text [] = refl
chars-to_text (c ∷ cs) = ap (λ s. c ∷ s) (chars-to_text cs)

drop_spaces_idem : (cs : List Char) → drop_spaces (drop_spaces cs) ≡ drop_spaces cs
unfolding drop_spaces
drop_spaces_idem [] = refl
drop_spaces_idem (c ∷ cs) = elim (Bool-cases (is_space (code c))) [
  | inl space ↦ rw space (drop_spaces_idem cs)
  | inr other ↦ rw other (rw other refl)
]

drop_spaces-snoc :
    (cs : List Char) (c : Char)
    → is_space (code c) ≡ false
    → drop_spaces (cs ++ c ∷ []) ≡ (drop_spaces cs ++ c ∷ [])
unfolding drop_spaces
drop_spaces-snoc [] c h = rw h refl
drop_spaces-snoc (d ∷ ds) c h = ground (arith, drop_spaces-snoc ds c h)

-- No space at the front.
abbrev Trimmed : List Char → Type 0
Trimmed [] = Unit
Trimmed (c ∷ cs) = is_space (code c) ≡ false

drop_spaces-Trimmed : (cs : List Char) → Trimmed (drop_spaces cs)
unfolding drop_spaces
drop_spaces-Trimmed [] = tt
drop_spaces-Trimmed (c ∷ cs) = elim (Bool-cases (is_space (code c))) [
  | inl space ↦ rw space (drop_spaces-Trimmed cs)
  | inr other ↦ rw other other
]

drop_spaces_of_Trimmed : (cs : List Char) → Trimmed cs → drop_spaces cs ≡ cs
unfolding drop_spaces
drop_spaces_of_Trimmed [] h = refl
drop_spaces_of_Trimmed (c ∷ cs) h = rw h refl

-- Dropping the spaces at the end keeps the front trimmed.
back-Trimmed : (cs : List Char) → Trimmed cs → Trimmed (reverse (drop_spaces (reverse cs)))
unfolding drop_spaces
back-Trimmed [] h = tt
back-Trimmed (c ∷ cs) h =
    rw
      (
        reverse-cons c cs,
        drop_spaces-snoc (reverse cs) c h,
        reverse-append (drop_spaces (reverse cs)) (c ∷ []),
      )
      h

trim_ends_idem :
    (cs : List Char)
    → reverse
        (drop_spaces (reverse (drop_spaces (reverse (drop_spaces (reverse (drop_spaces cs)))))))
      ≡ reverse (drop_spaces (reverse (drop_spaces cs)))
trim_ends_idem cs =
    rw
      (
        drop_spaces_of_Trimmed (reverse (drop_spaces (reverse (drop_spaces cs))))
            (back-Trimmed (drop_spaces cs) (drop_spaces-Trimmed cs)),
        reverse-reverse (drop_spaces (reverse (drop_spaces cs))),
        drop_spaces_idem (reverse (drop_spaces cs)),
      )
      refl

pub strip_idem : (s : String) → strip (strip s) ≡ strip s
unfolding strip
strip_idem s =
    rw (chars-to_text (reverse (drop_spaces (reverse (drop_spaces (chars s))))))
      (ap to_text (trim_ends_idem (chars s)))
