-- ===== src/Config/Parser.antt =====
-- src/config/pipeline/Parser.cpp, inc/config/internal/ConfigNode.hpp and Token.cpp: the syntax of
-- a configuration file. The tokens from `pos_` on stand for the position. The lexer ends every
-- token list with END_OF_FILE, which `currentToken` therefore answers beyond the end.
pub mod Grammar
mod Locations
pub mod Print
pub mod Meaning
pub mod Errors
use server_x.Common.{
  ℕ, zero, suc, Bool, true, false, ◌||◌, Option, none, some, List, [], ◌∷◌, ◌++◌, if◌then◌else◌,
  length, Bytes, codes, beq, Dict, lookup, insert, Result, returns, throws, config_error,
  out_of_fuel, ◌>>=◌,
}
use server_x.Config.Lexer.{
  Token, TokenType, token, identifier, string, number, endpoint, left_brace, right_brace, semicolon,
  unknown, end_of_file,
}

-- A node of a `location`, or what a node of a `server` is but for its children.
pub record ConfigNode : Type 0 where
  pub name : Bytes
  pub args : List Token
  pub directives : Dict (List Token)

-- A node of a `server`, whose children are its locations.
pub record ServerNode : Type 0 where
  pub node : ConfigNode
  pub children : List ConfigNode

-- `ConfigNode(conf_name)`.
abbrev pub new_node : Bytes → ConfigNode
new_node name = record { name = name; args = []; directives = [] }

abbrev pub current_token : List Token → Token
current_token [] = token end_of_file []
current_token (t ∷ _) = t

abbrev pub consume_token : List Token → List Token
consume_token [] = []
consume_token (_ ∷ ts) = ts

unfoldable pub eq_type : TokenType → TokenType → Bool
eq_type identifier identifier = true
eq_type string string = true
eq_type number number = true
eq_type endpoint endpoint = true
eq_type left_brace left_brace = true
eq_type right_brace right_brace = true
eq_type semicolon semicolon = true
eq_type unknown unknown = true
eq_type end_of_file end_of_file = true
eq_type _ _ = false

-- `expectToken` of a type, and of a literal.
unfoldable pub expect_type : TokenType → List Token → Result (List Token)
unfolding eq_type
expect_type kind ts =
    if eq_type (current_token ts).kind kind then returns (consume_token ts) else throws config_error

unfoldable pub expect_literal : Bytes → List Token → Result (List Token)
expect_literal literal ts =
    if beq (current_token ts).literal literal
    then returns (consume_token ts)
    else throws config_error

-- `isTokenAValue`, of a token.
unfoldable pub is_value : Token → Bool
unfolding eq_type
is_value t = eq_type t.kind identifier || (eq_type t.kind string || eq_type t.kind number)

unfoldable pub add_to :
    Bytes → List Token → Dict (List Token) → Option (List Token) → Dict (List Token)
add_to name args m none = insert name args m
add_to name args m (some there) = insert name (there ++ args) m

-- `addDirective`: the arguments of a directive that is there already go behind those it has.
unfoldable pub add_directive : ConfigNode → Bytes × List Token → ConfigNode
unfolding add_to
add_directive node (name, args) = record node {
  directives = add_to name args node.directives (lookup name node.directives);
}

-- The loop over the parameters.
unfoldable pub values : List Token → List Token × List Token
unfolding is_value
values [] = ([], [])
values (t ∷ ts) = if is_value t then (t ∷ (values ts).0, (values ts).1) else ([], t ∷ ts)

unfoldable pub handle_directive : List Token → Result ((Bytes × List Token) × List Token)
unfolding values expect_type
handle_directive ts =
    let t = current_token ts in
    let vs = values (consume_token ts) in
    if is_value t
    then (expect_type semicolon vs.1 >>= λ rest. returns ((t.literal, vs.0), rest))
    else throws config_error

-- `while (currentToken().type != RIGHT_BRACE)` of a location.
unfoldable pub directives_until : ℕ → ConfigNode → List Token → Result (ConfigNode × List Token)
unfolding handle_directive add_directive
directives_until zero node ts = throws out_of_fuel
directives_until (suc fuel) node ts =
    let rest = λ (r : (Bytes × List Token) × List Token).
      directives_until fuel (add_directive node r.0) r.1 in
    if eq_type (current_token ts).kind right_brace
    then returns (node, ts)
    else (handle_directive ts >>= rest)

-- The loop over the location's name: until a brace or the end.
location_args : List Token → Result (List Token × List Token)
location_args [] = returns ([], [])
location_args (t ∷ ts) =
    let rest = location_args ts in
    if eq_type t.kind left_brace || eq_type t.kind end_of_file
    then returns ([], t ∷ ts)
    else if is_value t
    then (rest >>= λ r. returns (t ∷ r.0, r.1))
    else throws config_error

location_body : ℕ → List Token × List Token → Result (ConfigNode × List Token)
unfolding directives_until expect_type
location_body fuel ([], ts) = throws config_error
location_body fuel (a ∷ args, ts) = expect_type left_brace ts >>= λ ts1.
    directives_until fuel (record (new_node (codes "location")) { args = a ∷ args }) ts1 >>= λ r.
    expect_type right_brace r.1 >>= λ ts2. returns (r.0, ts2)

unfoldable pub handle_location_block : ℕ → List Token → Result (ConfigNode × List Token)
unfolding expect_literal location_args location_body
handle_location_block fuel ts =
    expect_literal (codes "location") ts >>= λ ts1. location_args ts1 >>= location_body fuel

unfoldable pub handle_statement : ℕ → ServerNode → List Token → Result (ServerNode × List Token)
unfolding handle_location_block handle_directive add_directive
handle_statement fuel s ts =
    if beq (current_token ts).literal (codes "location")
    then (handle_location_block fuel ts >>= λ r.
        returns (record s { children = s.children ++ (r.0 ∷ []) }, r.1))
    else (handle_directive ts >>= λ r. returns (record s { node = add_directive s.node r.0 }, r.1))

unfoldable pub statements_until : ℕ → ServerNode → List Token → Result (ServerNode × List Token)
unfolding handle_statement
statements_until zero s ts = throws out_of_fuel
statements_until (suc fuel) s ts =
    let rest = λ (r : ServerNode × List Token). statements_until fuel r.0 r.1 in
    if eq_type (current_token ts).kind right_brace
    then returns (s, ts)
    else (handle_statement fuel s ts >>= rest)

abbrev pub new_server_node : ServerNode
new_server_node = record { node = new_node (codes "server"); children = [] }

-- `handleServerBlock`.
unfoldable pub handle_server_block : ℕ → List Token → Result (List ServerNode)
unfolding statements_until expect_literal expect_type
handle_server_block zero ts = throws out_of_fuel
handle_server_block (suc fuel) ts =
    let rest = λ (s : ServerNode) (ts' : List Token).
      handle_server_block fuel ts' >>= λ ss. returns (s ∷ ss) in
    if eq_type (current_token ts).kind end_of_file
    then returns []
    else (expect_literal (codes "server") ts >>= λ ts1. expect_type left_brace ts1 >>= λ ts2.
        statements_until fuel new_server_node ts2 >>= λ r.
        expect_type right_brace r.1 >>= λ ts3. rest r.0 ts3)

-- Every round of every loop takes a token at least, so that their number is fuel enough.
unfoldable pub parse : List Token → Result (List ServerNode)
unfolding handle_server_block
parse ts = handle_server_block (suc (length ts)) ts
