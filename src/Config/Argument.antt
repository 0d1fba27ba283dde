-- ===== src/Config/Argument.antt =====
-- inc/config/arguments and src/config/arguments: the values of directives. A class of the
-- hierarchy `IArgument` is a constructor; ArgumentFactory builds a `ConcatenatedValue` of strings
-- and variables only.
pub mod Decimal
use server_x.Common.{
  ℕ, zero, suc, ◌+◌, ◌/◌, ◌%◌, Bool, true, false, ◌||◌, List, [], ◌∷◌, ◌++◌, if◌then◌else◌, beq,
  Bytes, codes, to_lower, Result, returns, throws, config_error, Ensures, Anything, ensures_any,
  refused,
}

pub data Part : Type 0 where
  text variable_part : Bytes → Part

pub data Argument : Type 0 where
  string : Bytes → Argument
  integer : ℕ → Argument
  variable : Bytes → Argument
  concatenated : List Part → Argument
  boolean : Bool → Argument

-- `utils::toString` of a number: the decimal digits, in front of `rest`. The fuel is the number
-- itself, which has no more digits than its value.
unfoldable pub digits_onto : ℕ → ℕ → Bytes → Bytes
digits_onto zero n rest = (b'0' + n % 10) ∷ rest
digits_onto (suc fuel) n rest =
    let more = digits_onto fuel (n / 10) ((b'0' + n % 10) ∷ rest) in
    elim (n / 10) [ zero ↦ (b'0' + n % 10) ∷ rest | suc _ ↦ more ]

unfoldable pub to_string : ℕ → Bytes
unfolding digits_onto
to_string n = digits_onto n n []

-- `Variable::evaluate`: the table `getMap` holds the variable `host`, whose function returns the
-- header Host of the request; `host` is that value.
unfoldable pub evaluate_variable : Bytes → Bytes → Bytes
evaluate_variable host name = if beq name (codes "host") then host else []

evaluate_parts : Bytes → List Part → Bytes
unfolding evaluate_variable
evaluate_parts host [] = []
evaluate_parts host (text s ∷ ps) = s ++ evaluate_parts host ps
evaluate_parts host (variable_part v ∷ ps) = evaluate_variable host v ++ evaluate_parts host ps

-- `evaluate(req)`, with the request's header Host.
unfoldable pub evaluate : Bytes → Argument → Bytes
unfolding evaluate_variable evaluate_parts to_string
evaluate host (string s) = s
evaluate host (integer n) = to_string n
evaluate host (variable v) = evaluate_variable host v
evaluate host (concatenated ps) = evaluate_parts host ps
evaluate host (boolean b) = if b then codes "true" else codes "false"

raw_parts : List Part → Bytes
raw_parts [] = []
raw_parts (text s ∷ ps) = s ++ raw_parts ps
raw_parts (variable_part v ∷ ps) = v ++ raw_parts ps

unfoldable pub get_raw_value : Argument → Bytes
unfolding raw_parts to_string
get_raw_value (string s) = s
get_raw_value (integer n) = to_string n
get_raw_value (variable v) = v
get_raw_value (concatenated ps) = raw_parts ps
get_raw_value (boolean b) = if b then codes "on" else codes "off"

-- `Bool::init`, on the lower-cased value.
bool_of_lower : Bytes → Result Bool
bool_of_lower lower =
    if beq lower (codes "true")
      || beq lower (codes "on")
      || beq lower (codes "yes")
      || beq lower (codes "1")
    then returns true
    else if beq lower (codes "false")
        || beq lower (codes "off")
        || beq lower (codes "no")
        || beq lower (codes "0")
    then returns false
    else throws config_error

unfoldable pub bool_of : Bytes → Result Bool
unfolding bool_of_lower
bool_of value = bool_of_lower (to_lower value)

either-Ensures :
    (a b : Bool)
    → Ensures Anything
        (if a then returns true else if b then returns false else throws config_error)
either-Ensures true b = ensures_any true
either-Ensures false true = ensures_any false
either-Ensures false false = refused

pub bool_of-Ensures : (value : Bytes) → Ensures Anything (bool_of value)
unfolding bool_of bool_of_lower
bool_of-Ensures value = either-Ensures _ _
