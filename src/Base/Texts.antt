-- ===== src/Base/Texts.antt =====
-- Texts: the code points of a text, which are its bytes where it is ASCII, and the classes of
-- characters that the program's regular expressions name.
use Prim.Native.Char.{code}
use Prim.Native.Nat.{ℕ}
use Prim.Native.String.{String, len, ◌++◌}
use mathlib.Core.Bool.{Bool, false, ◌&&◌, ◌||◌}
use mathlib.Core.List.{List, [], ◌∷◌}
use mathlib.Core.Option.{Option, none, some}
use floatlab_core.Base.Keys.{◌==◌, nat_eq}
use floatlab_core.Base.Lists.{all, length}
use floatlab_core.Base.Tests.{leb, if◌then◌else◌}

-- `s + t`
abbrev pub concat : String → String → String
concat s t = s ++ t

-- `len(s)`, in bytes.
abbrev pub byte_length : String → ℕ
byte_length s = len s

abbrev pub codes : String → List ℕ
codes String.[] = []
codes (String.◌∷◌ c s) = code c ∷ codes s

-- `[0-9]`
abbrev pub is_digit : ℕ → Bool
is_digit c = leb b'0' c && leb c b'9'

-- `[A-Za-z]`
abbrev pub is_letter : ℕ → Bool
is_letter c = leb b'A' c && leb c b'Z' || leb b'a' c && leb c b'z'

abbrev pub is_alnum : ℕ → Bool
is_alnum c = is_digit c || is_letter c

-- What follows a prefix, `strings.CutPrefix`.
abbrev pub cut_prefix : List ℕ → List ℕ → Option (List ℕ)
cut_prefix [] s = some s
cut_prefix (p ∷ ps) [] = none
cut_prefix (p ∷ ps) (c ∷ s) = let rest = cut_prefix ps s in if p == c then rest else none

-- `^[first][rest]{0,n}$` for two classes of characters.
abbrev pub is_name : (ℕ → Bool) → (ℕ → Bool) → ℕ → List ℕ → Bool
is_name first rest n [] = false
is_name first rest n (c ∷ cs) = first c && all rest cs && leb (length cs) n
