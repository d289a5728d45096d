-- ===== src/Staffing/Dedupe.antt =====
-- backend/app/core/staffing_containment.py, `_dedupe_string_values`.
use boardroom_os.Base.{
  String, ◌≡◌, Bool, false, not, ◌&&◌, ◌||◌, Option, List, [], ◌∷◌, arith, ◌==◌, text_eq,
  if◌then◌else◌, Bool-cases, inl, inr, eq_iff,
}
use boardroom_os.Base.All.{any}
use boardroom_os.Base.Text.{strip}
use boardroom_os.Field.{text}

-- `x in xs`
unfoldable pub member : String → List String → Bool
unfolding any
member x xs = any (λ y. y == x) xs

-- The values after the ones that gave `seen`.
unfoldable pub dedupe_from : List String → List (Option String) → List String
unfolding strip member
dedupe_from seen [] = []
dedupe_from seen (v ∷ vs) =
    let normalized = strip (text v) in
    let skipped = normalized == "" || member normalized seen in
    let rest = dedupe_from (if skipped then seen else normalized ∷ seen) vs in
    if skipped then rest else normalized ∷ rest

unfoldable pub dedupe_string_values : List (Option String) → List String
unfolding dedupe_from
dedupe_string_values = dedupe_from []

-- No text twice.
abbrev pub NoRepeats : List String → Type 0
NoRepeats [] = Unit
NoRepeats (x ∷ xs) = (member x xs ≡ false) × NoRepeats xs

-- `x` is one of the values, once they are stripped.
unfoldable pub given : String → List (Option String) → Bool
unfolding any strip
given x vs = any (λ v. strip (text v) == x) vs

pub member-dedupe_from :
    (x : String) (seen : List String) (vs : List (Option String))
    → member x (dedupe_from seen vs) ≡ (not (x == "") && given x vs && not (member x seen))
unfolding dedupe_from any member given
member-dedupe_from x seen [] = ground arith
member-dedupe_from x seen (v ∷ vs) = elim (Bool-cases (strip (text v) == "")) [
  | inl empty ↦
      rw (empty, member-dedupe_from x seen vs)
        (ground (arith, eq_iff (strip (text v)) "", eq_iff (strip (text v)) x, eq_iff x ""))
  | inr there ↦ elim (Bool-cases (member (strip (text v)) seen)) [
    | inl old ↦
        rw (there, old, member-dedupe_from x seen vs)
          (ground (arith, eq_iff (strip (text v)) x, old))
    | inr new ↦
        rw (there, new, member-dedupe_from x (strip (text v) ∷ seen) vs)
          (ground (arith, eq_iff (strip (text v)) "", eq_iff (strip (text v)) x, eq_iff x ""))
  ]
]
