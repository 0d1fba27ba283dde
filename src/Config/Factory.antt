-- ===== src/Config/Factory.antt =====
-- src/config/arguments/ArgumentFactory.cpp: the value that a token stands for. The positions in
-- the text are what is left of it.
pub mod Unparse
pub mod Errors
use server_x.Common.{
  ℕ, zero, suc, ◌-◌, ◌^◌, Bool, false, not, ◌&&◌, ◌||◌, List, [], ◌∷◌, leb, ◌==◌, if◌then◌else◌,
  length, drop, Bytes, is_empty, has_byte, from_string, Result, returns, throws, config_error,
  ◌>>=◌,
}
use server_x.Config.Argument.{
  Part, text, variable_part, Argument, string, integer, variable, concatenated, boolean, bool_of,
}
use server_x.Config.Lexer
use server_x.Config.Lexer.{Token, TokenType}

unfoldable pub is_valid_variable_char : ℕ → Bool
is_valid_variable_char c = (leb b'a' c && leb c b'z') || ((leb b'0' c && leb c b'9') || c == b'_')

-- The text before the first `$`, and the rest from there on.
unfoldable pub before_dollar : Bytes → Bytes × Bytes
before_dollar [] = ([], [])
before_dollar (c ∷ cs) =
    if c == b'$' then ([], c ∷ cs) else (c ∷ (before_dollar cs).0, (before_dollar cs).1)

-- The name of `getVariableLength` bytes, and what stands behind it.
unfoldable pub variable_name : Bytes → Bytes × Bytes
unfolding is_valid_variable_char
variable_name [] = ([], [])
variable_name (c ∷ cs) =
    if is_valid_variable_char c
    then (c ∷ (variable_name cs).0, (variable_name cs).1)
    else ([], c ∷ cs)

-- `add(new String(...))` for a text that is not empty.
unfoldable pub add_text : Bytes → List Part → List Part
add_text [] ps = ps
add_text (c ∷ cs) ps = text (c ∷ cs) ∷ ps

-- The variable behind a `$`; the rest of the loop is `more`.
unfoldable pub add_variable :
    Bytes → Bytes × Bytes → (Bytes → Result (List Part)) → Result (List Part)
unfolding add_text
add_variable before ([], rest) more = throws config_error
add_variable before (c ∷ cs, rest) more =
    more rest >>= λ ps. returns (add_text before (variable_part (c ∷ cs) ∷ ps))

after_text : Bytes → Bytes → (Bytes → Result (List Part)) → Result (List Part)
unfolding add_variable variable_name
after_text before [] more = returns (add_text before [])
after_text before (_ ∷ rest) more = add_variable before (variable_name rest) more

-- The loop of `handleStringVariable`. A round takes a byte at least.
unfoldable pub concatenated_parts : ℕ → Bytes → Result (List Part)
unfolding after_text before_dollar
concatenated_parts zero s = returns []
concatenated_parts (suc fuel) s =
    if is_empty s
    then returns []
    else after_text (before_dollar s).0 (before_dollar s).1 (concatenated_parts fuel)

or_string : Bytes → Result Bool → Argument
or_string s (returns b) = boolean b
or_string s (throws e) = string s

-- A variable alone: its name fills the text behind the `$`.
unfoldable pub is_lone_variable : Bytes → Bool
unfolding variable_name
is_lone_variable [] = false
is_lone_variable (c ∷ cs) =
    c == b'$' && (not (is_empty (variable_name cs).0) && is_empty (variable_name cs).1)

unfoldable pub handle_string_variable : Bytes → Result Argument
unfolding concatenated_parts or_string is_lone_variable bool_of has_byte variable_name
handle_string_variable s =
    if not (has_byte b'$' s)
    then returns (or_string s (bool_of s))
    else if is_lone_variable s
    then returns (variable (variable_name (drop 1 s)).0)
    else (concatenated_parts (length s) s >>= λ ps. returns (concatenated ps))

get_of : TokenType → Bytes → Result Argument
unfolding handle_string_variable from_string
get_of Lexer.string s = handle_string_variable s
get_of Lexer.number s = returns (integer (from_string (2 ^ 64 - 1) s))
get_of _ s = throws config_error

-- `get(Token)`, and `get` of a token list.
unfoldable pub get : Token → Result Argument
unfolding get_of
get t = get_of t.kind t.literal

unfoldable pub get_all : List Token → Result (List Argument)
unfolding get
get_all [] = returns []
get_all (t ∷ ts) = get t >>= λ a. get_all ts >>= λ rest. returns (a ∷ rest)
