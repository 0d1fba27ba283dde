-- ===== src/Config/Directives/BodySize.antt =====
-- src/config/directives/ClientMaxBodySize.cpp.
use server_x.Common.{
  ℕ, ◌-◌, ◌*◌, ◌/◌, ◌%◌, ◌^◌, ◌≤◌, min, ◌≡◌, refl, sym, ap, ap₂, ◌∙◌, true, false, not, ◌&&◌, ◌||◌,
  Option, none, some, List, [], ◌∷◌, ◌++◌, arith, ltb, ◌==◌, if◌then◌else◌, if-holds, if-false,
  length, take, get_last?, length-append, cut_at, Bytes, codes, is_empty, is_all_digit, read_digits,
  from_string, config_error, out_of_range, Result, returns, throws, ◌>>=◌, ◌>>◌, require, Ensures,
  Anything, refused, ensures_any, ensures-bind, require-Ensures,
}
use server_x.Config.Argument.{integer}
use server_x.Config.Block.{push_arg}
use server_x.Config.Lexer.{Token, number, string, identifier}
use server_x.Config.Parser.{eq_type}
use server_x.Config.Directives.{Target, block_of, with_block, check, anywhere}

-- The factor that a last character stands for; 1 for one that is no unit.
unfoldable pub multiplier : ℕ → ℕ
multiplier unit =
    if unit == b'k' || unit == b'K'
    then 1024
    else if unit == b'm' || unit == b'M'
    then 1024 * 1024
    else if unit == b'g' || unit == b'G'
    then 1024 * 1024 * 1024
    else 1

abbrev pub size_max : ℕ
size_max = 2 ^ 64 - 1

-- The number and its unit: `numberPart` and `multiplier`.
unfoldable pub scaled : Bytes → ℕ → Result ℕ
unfolding is_all_digit from_string
scaled number_part factor =
    let size = from_string size_max number_part in
    require (not (is_empty number_part) && is_all_digit number_part) config_error
    >> require (not (ltb 0 factor && ltb (size_max / factor) size)) config_error
    >> returns (size * factor % 2 ^ 64)

-- By the last character.
by_unit : Bytes → Option ℕ → Result ℕ
unfolding scaled multiplier
by_unit literal none = throws config_error
by_unit literal (some unit) =
    if multiplier unit == 1
    then scaled literal 1
    else scaled (take (length literal - 1) literal) (multiplier unit)

unfoldable pub size_of : Bytes → Result ℕ
unfolding by_unit
size_of literal = by_unit literal (get_last? literal)

unfoldable pub size_value : List Token → Result ℕ
unfolding eq_type size_of
size_value [] = throws out_of_range
size_value (a ∷ _) =
    require (eq_type a.kind number || (eq_type a.kind string || eq_type a.kind identifier))
      config_error
    >> size_of a.literal

unfoldable pub client_max_body_size : Target → List Token → Result Target
unfolding check size_value push_arg
client_max_body_size t args =
    check anywhere 1 1 t args
    >> (size_value args >>= λ total.
        returns
          (with_block (push_arg (codes "client_max_body_size") (integer total) (block_of t)) t))

-- The letters, and what they stand for.
pub data IsUnit : ℕ → ℕ → Type 0 where
  lower_k : IsUnit b'k' 1024
  upper_k : IsUnit b'K' 1024
  lower_m : IsUnit b'm' (1024 * 1024)
  upper_m : IsUnit b'M' (1024 * 1024)
  lower_g : IsUnit b'g' (1024 * 1024 * 1024)
  upper_g : IsUnit b'G' (1024 * 1024 * 1024)

multiplier-IsUnit : (u m : ℕ) → IsUnit u m → multiplier u ≡ m
unfolding multiplier
multiplier-IsUnit u m lower_k = refl
multiplier-IsUnit u m upper_k = refl
multiplier-IsUnit u m lower_m = refl
multiplier-IsUnit u m upper_m = refl
multiplier-IsUnit u m lower_g = refl
multiplier-IsUnit u m upper_g = refl

get_last?-append {ℓ} : {A : Type ℓ} (xs : List A) (x : A) → get_last? (xs ++ x ∷ []) ≡ some x
get_last?-append [] x = refl
get_last?-append (y ∷ []) x = refl
get_last?-append (y ∷ z ∷ xs) x = get_last?-append (z ∷ xs) x

-- Where the number is written in digits, no product beyond 2^64 is stored.
module _ (n : ℕ) where
  in_range : ℕ → Result ℕ
  in_range m =
      require (not (ltb 0 m && ltb (size_max / m) (min n size_max))) config_error
      >> returns (min n size_max * m % 2 ^ 64)

  checked : ℕ → Result ℕ
  checked m = if ltb (n * m) (2 ^ 64) then returns (n * m) else throws config_error

  in_range-kilo : in_range 1024 ≡ checked 1024
  unfolding in_range checked require
  in_range-kilo = ground arith

  in_range-mega : in_range (1024 * 1024) ≡ checked (1024 * 1024)
  unfolding in_range checked require
  in_range-mega = ground arith

  in_range-giga : in_range (1024 * 1024 * 1024) ≡ checked (1024 * 1024 * 1024)
  unfolding in_range checked require
  in_range-giga = ground arith

-- What is left of a literal in front of its last character.
size_of-append :
    (ds : Bytes) (u m : ℕ)
    → multiplier u ≡ m
    → (m == 1) ≡ false
    → size_of (ds ++ u ∷ []) ≡ scaled ds m
unfolding size_of by_unit
size_of-append ds u m e ne =
    ap (by_unit (ds ++ u ∷ [])) (get_last?-append ds u)
    ∙ if-false _ _ (ap (λ k. k == 1) e ∙ ne)
    ∙ ap₂ scaled
        (sym
          (cut_at _ ds (u ∷ []) (ds ++ u ∷ []) refl (omega (arith, length-append ds (u ∷ [])))).0)
        e

scaled_digits :
    (ds : Bytes) (m : ℕ)
    → is_empty ds ≡ false
    → is_all_digit ds ≡ true
    → scaled ds m ≡ in_range (read_digits 0 ds) m
unfolding scaled in_range from_string require
scaled_digits ds m ne dg = rw (ne, dg) refl

in_range-IsUnit : (n u m : ℕ) → IsUnit u m → in_range n m ≡ checked n m
in_range-IsUnit n u m lower_k = in_range-kilo n
in_range-IsUnit n u m upper_k = in_range-kilo n
in_range-IsUnit n u m lower_m = in_range-mega n
in_range-IsUnit n u m upper_m = in_range-mega n
in_range-IsUnit n u m lower_g = in_range-giga n
in_range-IsUnit n u m upper_g = in_range-giga n

IsUnit-not_one : (u m : ℕ) → IsUnit u m → (m == 1) ≡ false
IsUnit-not_one u m lower_k = refl
IsUnit-not_one u m upper_k = refl
IsUnit-not_one u m lower_m = refl
IsUnit-not_one u m upper_m = refl
IsUnit-not_one u m lower_g = refl
IsUnit-not_one u m upper_g = refl

-- A number of digits with a unit is stored as the product, where that is below 2^64, and refused
-- otherwise; the units are k and K for 1024, m and M for 1024 * 1024, and g and G for
-- 1024 * 1024 * 1024.
pub size_of_exact :
    (ds : Bytes) (u m : ℕ)
    → IsUnit u m
    → is_empty ds ≡ false
    → is_all_digit ds ≡ true
    → size_of (ds ++ u ∷ []) ≡ (
        if ltb (read_digits 0 ds * m) (2 ^ 64)
        then returns (read_digits 0 ds * m)
        else throws config_error)
unfolding checked
size_of_exact ds u m i ne dg =
    size_of-append ds u m (multiplier-IsUnit u m i) (IsUnit-not_one u m i)
    ∙ scaled_digits ds m ne dg
    ∙ in_range-IsUnit (read_digits 0 ds) u m i

scaled-Ensures : (number_part : Bytes) (factor : ℕ) → Ensures Anything (scaled number_part factor)
unfolding scaled
scaled-Ensures number_part factor =
    ensures-bind _ _ (require-Ensures _)
      λ _ _. ensures-bind _ _ (require-Ensures _) λ _ _. ensures_any _

by_unit-Ensures : (literal : Bytes) (last : Option ℕ) → Ensures Anything (by_unit literal last)
unfolding by_unit
by_unit-Ensures literal none = refused
by_unit-Ensures literal (some unit) =
    if-holds (Ensures Anything) (multiplier unit == 1) (λ _. scaled-Ensures literal 1)
      (λ _. scaled-Ensures (take (length literal - 1) literal) (multiplier unit))

pub size_value-Ensures : (args : List Token) → 1 ≤ length args → Ensures Anything (size_value args)
unfolding size_value size_of
size_value-Ensures [] h = absurd (omega arith)
size_value-Ensures (a ∷ _) h =
    ensures-bind _ _ (require-Ensures _) λ _ _. by_unit-Ensures a.literal (get_last? a.literal)
