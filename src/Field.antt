-- ===== src/Field.antt =====
-- What a key of a JSON dictionary holds, and the ways in which the source reads it.
use boardroom_os.Base.{
  String, Bool, false, Option, none, some, if◌then◌else◌, ◌==◌, text_eq, ◌≡◌, arith,
}
use boardroom_os.Base.Result.{Result, ok, raise, key_error}

pub data Field {ℓ} (A : Type ℓ) : Type ℓ where
  absent : Field A
  null : Field A
  value : A → Field A

module _ {ℓ} {A : Type ℓ} where
  -- `payload.get(key)`
  abbrev pub get : Field A → Option A
  get (value a) = some a
  get _ = none

  -- `payload.get(key, default)`: a null that is there is not replaced.
  abbrev pub get_or : Field A → Option A → Option A
  get_or absent d = d
  get_or null d = none
  get_or (value a) d = some a

  -- `payload[key]`
  abbrev pub item : String → Field A → Result (Option A)
  item k absent = raise (key_error k)
  item k null = ok none
  item k (value a) = ok (some a)

  -- The value of a key in `{**old, **new}`.
  abbrev pub merge_field : Field A → Field A → Field A
  merge_field old absent = old
  merge_field old null = null
  merge_field old (value a) = value a

-- `str(x or "")`
abbrev pub text : Option String → String
text none = ""
text (some s) = s

-- `str(x)`
abbrev pub str : Option String → String
str none = "None"
str (some s) = s

-- `x or y`, where `x` is text or None
abbrev pub or_else : Option String → Option String → Option String
or_else none y = y
or_else (some s) y = if s == "" then y else some s

-- `bool(x)`
abbrev pub truthy : Option Bool → Bool
truthy none = false
truthy (some b) = b

pub item-get {ℓ} :
    {A : Type ℓ} (k : String) (f : Field A) (o : Option A) (a : A)
    → item k f ≡ ok o
    → get f ≡ some a
    → o ≡ some a
item-get k f o a h g = ground arith

pub item-eq-get {ℓ} :
    {A : Type ℓ} (k : String) (f : Field A) (o : Option A) → item k f ≡ ok o → o ≡ get f
item-eq-get k f o h = ground arith
