-- ===== src/Base/Text.antt =====
-- `str.strip` and `str.upper` on code points. `upper` is exact for what becomes an ASCII letter: the
-- letters themselves, the dotless i and the long s. Characters that Python turns into other
-- non-ASCII letters are left as they are.
use Prim.Native.Nat.{ℕ, ◌-◌}
use Prim.Native.Char.{Char, code}
use Prim.Native.String.{String}
use mathlib.Core.Path.{◌≡◌, refl}
use mathlib.Core.Bool.{Bool, true, false, ◌&&◌, ◌||◌}
use mathlib.Core.List.{List, [], ◌∷◌, map, reverse}
use boardroom_os.Base.Tests.{leb, nat_eq, ◌==◌, if◌then◌else◌}

abbrev pub codes : String → List ℕ
codes String.[] = []
codes (String.◌∷◌ c s) = code c ∷ codes s

-- `str.isspace` of a character
unfoldable pub is_space : ℕ → Bool
is_space c =
    (leb 9 c && leb c 13)
    || (leb 28 c && leb c 32)
    || c == 133
    || c == 160
    || c == 5760
    || (leb 8192 c && leb c 8202)
    || c == 8232
    || c == 8233
    || c == 8239
    || c == 8287
    || c == 12288

abbrev pub chars : String → List Char
chars String.[] = []
chars (String.◌∷◌ c s) = c ∷ chars s

abbrev pub to_text : List Char → String
to_text [] = String.[]
to_text (c ∷ s) = String.◌∷◌ c (to_text s)

unfoldable pub drop_spaces : List Char → List Char
unfolding is_space
drop_spaces [] = []
drop_spaces (c ∷ s) = if is_space (code c) then drop_spaces s else c ∷ s

unfoldable pub strip : String → String
unfolding drop_spaces
strip s = to_text (reverse (drop_spaces (reverse (drop_spaces (chars s)))))

unfoldable pub upper_char : ℕ → ℕ
upper_char c =
    if leb b'a' c && leb c b'z'
    then c - 32
    else if c == 305
    then b'I'
    else if c == 383
    then b'S'
    else c

-- As code points.
unfoldable pub upper : String → List ℕ
unfolding upper_char
upper s = map upper_char (codes s)

abbrev pub codes_beq : List ℕ → List ℕ → Bool
codes_beq [] [] = true
codes_beq (c ∷ s) (d ∷ t) = c == d && codes_beq s t
codes_beq _ _ = false

upper-strip : upper (strip "  Buıld ") ≡ codes "BUILD"
unfolding strip upper
upper-strip = refl
