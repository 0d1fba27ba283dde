-- ===== src/Config/Factory/Errors.antt =====
-- A token list that has no value is refused with `ConfigError`, and with nothing else.
use server_x.Common.{
  value_with, ap, refl, suc, ◌≡◌, ℕ, zero, suc, not, List, [], ◌∷◌, if-holds, length, Bytes,
  is_empty, has_byte, Result, Ensures, Anything, refused, ensures_any, ensures-bind,
}
use server_x.Config.Argument.{Part}
use server_x.Config.Lexer
use server_x.Config.Lexer.{Token, TokenType}
use server_x.Config.Factory.{
  before_dollar, variable_name, add_variable, after_text, concatenated_parts, is_lone_variable,
  handle_string_variable, get_of, get, get_all,
}

add_variable-Ensures :
    (before : Bytes) (name : Bytes × Bytes) (more : Bytes → Result (List Part))
    → ((rest : Bytes) → Ensures Anything (more rest))
    → Ensures Anything (add_variable before name more)
unfolding add_variable
add_variable-Ensures before ([], rest) more h = refused
add_variable-Ensures before (c ∷ cs, rest) more h =
    ensures-bind Anything _ (h rest) λ ps _. ensures_any _

after_text-Ensures :
    (before s : Bytes) (more : Bytes → Result (List Part))
    → ((rest : Bytes) → Ensures Anything (more rest))
    → Ensures Anything (after_text before s more)
unfolding after_text
after_text-Ensures before [] more h = ensures_any _
after_text-Ensures before (_ ∷ rest) more h =
    add_variable-Ensures before (variable_name rest) more h

concatenated_parts-Ensures : (fuel : ℕ) (s : Bytes) → Ensures Anything (concatenated_parts fuel s)
unfolding concatenated_parts
concatenated_parts-Ensures zero s = ensures_any _
concatenated_parts-Ensures (suc fuel) s =
    if-holds (Ensures Anything) (is_empty s) (λ _. ensures_any _)
      λ _.
        after_text-Ensures (before_dollar s).0 (before_dollar s).1 (concatenated_parts fuel)
          (concatenated_parts-Ensures fuel)

handle_string_variable-Ensures : (s : Bytes) → Ensures Anything (handle_string_variable s)
unfolding handle_string_variable
handle_string_variable-Ensures s =
    if-holds (Ensures Anything) (not (has_byte b'$' s)) (λ _. ensures_any _)
      λ _.
        if-holds (Ensures Anything) (is_lone_variable s) (λ _. ensures_any _)
          λ _.
            ensures-bind Anything _ (concatenated_parts-Ensures (length s) s) λ ps _. ensures_any _

get_of-Ensures : (kind : TokenType) (s : Bytes) → Ensures Anything (get_of kind s)
unfolding get_of
get_of-Ensures Lexer.string s = handle_string_variable-Ensures s
get_of-Ensures Lexer.number s = ensures_any _
get_of-Ensures Lexer.identifier s = refused
get_of-Ensures Lexer.endpoint s = refused
get_of-Ensures Lexer.left_brace s = refused
get_of-Ensures Lexer.right_brace s = refused
get_of-Ensures Lexer.semicolon s = refused
get_of-Ensures Lexer.unknown s = refused
get_of-Ensures Lexer.end_of_file s = refused

-- There is an argument for each token.
pub get_all-Ensures : (ts : List Token) → Ensures (λ values. length values ≡ length ts) (get_all ts)
unfolding get_all get
get_all-Ensures [] = value_with _ refl
get_all-Ensures (t ∷ ts) = ensures-bind Anything _ (get_of-Ensures t.kind t.literal) λ a _.
    ensures-bind (λ values. length values ≡ length ts) _ (get_all-Ensures ts)
      λ rest e. value_with _ (ap suc e)
