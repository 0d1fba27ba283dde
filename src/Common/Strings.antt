-- ===== src/Common/Strings.antt =====
-- `std::string` as a list of bytes, with the members of the class and the helpers of
-- common/string.cpp that the program uses. `npos` is `none`.
use Prim.Native.Nat.{ℕ, min, suc, ◌+◌, ◌-◌, ◌*◌}
use Prim.Native.Char.{code}
use Prim.Native.String.{String}
use mathlib.Core.Path.{◌≡◌, refl}
use mathlib.Core.Logic.{◌↔◌}
use mathlib.Core.Bool.{Bool, true, false, ◌&&◌, ◌||◌}
use mathlib.Core.List.{List, [], ◌∷◌, map, reverse}
use mathlib.Core.Option
use mathlib.Core.Option.{Option, none, some}
use native.Mathlib.Omega.{arith}
use server_x.Common.Tests.{leb, ◌==◌, if◌then◌else◌}
use server_x.Common.Lists.{take, drop}

abbrev pub Bytes : Type 0
Bytes = List ℕ

-- The bytes of a literal; every literal of the model is ASCII.
abbrev pub codes : String → Bytes
codes String.[] = []
codes (String.◌∷◌ c s) = code c ∷ codes s

-- `operator==`.
unfoldable pub beq : Bytes → Bytes → Bool
beq [] [] = true
beq (x ∷ xs) (y ∷ ys) = x == y && beq xs ys
beq _ _ = false

pub beq_iff : (a b : Bytes) → (beq a b ≡ true) ↔ (a ≡ b)
unfolding beq
beq_iff (x ∷ a) (y ∷ b) = ground (arith, beq_iff a b)
beq_iff _ _ = ground arith

pub beq_refl : (a : Bytes) → beq a a ≡ true
beq_refl a = (beq_iff a a).1 refl

-- `empty()`.
abbrev pub is_empty : Bytes → Bool
is_empty [] = true
is_empty (_ ∷ _) = false

-- `find(c)`.
unfoldable pub find_byte : ℕ → Bytes → Option ℕ
find_byte c [] = none
find_byte c (x ∷ xs) = if x == c then some 0 else Option.map suc (find_byte c xs)

-- `rfind(c)`, `find_last_of(c)`.
unfoldable pub rfind_byte : ℕ → Bytes → Option ℕ
rfind_byte c [] = none
rfind_byte c (x ∷ xs) = elim (rfind_byte c xs) [
  | some i ↦ some (suc i)
  | none ↦ if x == c then some 0 else none
]

-- `find(c) != npos`.
unfoldable pub has_byte : ℕ → Bytes → Bool
has_byte c [] = false
has_byte c (x ∷ xs) = x == c || has_byte c xs

unfoldable pub starts_with : Bytes → Bytes → Bool
starts_with [] s = true
starts_with (n ∷ ns) [] = false
starts_with (n ∷ ns) (x ∷ xs) = n == x && starts_with ns xs

-- `find(needle)`.
unfoldable pub find_sub : Bytes → Bytes → Option ℕ
unfolding starts_with
find_sub needle [] = if starts_with needle [] then some 0 else none
find_sub needle (x ∷ xs) =
    if starts_with needle (x ∷ xs) then some 0 else Option.map suc (find_sub needle xs)

abbrev pub is_some {ℓ} : {A : Type ℓ} → Option A → Bool
is_some none = false
is_some (some _) = true

-- `isspace`, `isdigit` and `tolower` in the C locale.
unfoldable pub is_space : ℕ → Bool
is_space c = c == b' ' || (leb 9 c && leb c 13)

unfoldable pub is_digit : ℕ → Bool
is_digit c = leb b'0' c && leb c b'9'

unfoldable pub to_lower_byte : ℕ → ℕ
to_lower_byte c = if leb b'A' c && leb c b'Z' then c + 32 else c

-- `utils::toLower`, `Headers::normalizeKey`.
unfoldable pub to_lower : Bytes → Bytes
unfolding to_lower_byte
to_lower = map to_lower_byte

-- `utils::isAllDigit`: the empty string passes.
unfoldable pub is_all_digit : Bytes → Bool
unfolding is_digit
is_all_digit [] = true
is_all_digit (c ∷ cs) = is_digit c && is_all_digit cs

-- The set " \r\t\n" of `utils::trim`.
unfoldable pub is_trimmed : ℕ → Bool
is_trimmed c = c == b' ' || c == b'\r' || c == b'\t' || c == b'\n'

unfoldable pub trim_left : Bytes → Bytes
unfolding is_trimmed
trim_left [] = []
trim_left (c ∷ cs) = if is_trimmed c then trim_left cs else c ∷ cs

-- `utils::trim`.
unfoldable pub trim : Bytes → Bytes
unfolding trim_left
trim s = reverse (trim_left (reverse (trim_left s)))

-- `substr(pos, n)` for a `pos` within the string.
abbrev pub substr : Bytes → ℕ → ℕ → Bytes
substr s pos n = take n (drop pos s)

-- Decimal digits read from the front, onto `acc`, and what follows them.
unfoldable pub read_digits : ℕ → Bytes → ℕ
unfolding is_digit
read_digits acc [] = acc
read_digits acc (c ∷ cs) =
    let more = read_digits (acc * 10 + (c - b'0')) cs in if is_digit c then more else acc

-- `utils::fromString` to an unsigned type whose greatest value is `max`, of a text of digits: a
-- value that is too large becomes `max`.
unfoldable pub from_string : ℕ → Bytes → ℕ
unfolding read_digits
from_string max s = min (read_digits 0 s) max
