-- ===== src/Config/Parser/Grammar.antt =====
-- The grammar of a configuration file: what it lets one write, the tokens of that, and the nodes.
use server_x.Common.{Bool, true, false, not, ◌&&◌, List, [], ◌∷◌, ◌++◌, codes, beq}
use server_x.Config.Lexer.{Token, token, string, semicolon, left_brace, right_brace, end_of_file}
use server_x.Config.Parser.{
  ConfigNode, ServerNode, new_node, new_server_node, is_value, add_directive,
}

-- `directive = IDENTIFIER { parameter } ";"`.
pub record Directive : Type 0 where
  pub name : Token
  pub parameters : List Token

-- `statement = directive | location_block`.
pub data Statement : Type 0 where
  directive : Directive → Statement
  location : List Token → List Directive → Statement

unfoldable pub all_values : List Token → Bool
unfolding is_value
all_values [] = true
all_values (t ∷ ts) = is_value t && all_values ts

unfoldable pub is_directive : Directive → Bool
unfolding all_values
is_directive d = is_value d.name && all_values d.parameters

unfoldable pub all_directives : List Directive → Bool
unfolding is_directive
all_directives [] = true
all_directives (d ∷ ds) = is_directive d && all_directives ds

-- Names and parameters are values, a location has an argument, and no directive of a server is
-- called "location".
unfoldable pub is_statement : Statement → Bool
unfolding all_directives
is_statement (directive d) = is_directive d && not (beq d.name.literal (codes "location"))
is_statement (location [] ds) = false
is_statement (location (a ∷ args) ds) = all_values (a ∷ args) && all_directives ds

unfoldable pub all_statements : List Statement → Bool
unfolding is_statement
all_statements [] = true
all_statements (s ∷ ss) = is_statement s && all_statements ss

unfoldable pub all_servers : List (List Statement) → Bool
unfolding all_statements
all_servers [] = true
all_servers (s ∷ ss) = all_statements s && all_servers ss

abbrev pub semi : List Token → List Token
semi ts = token semicolon (codes ";") ∷ ts

abbrev pub opened : List Token → List Token
opened ts = token left_brace (codes "{") ∷ ts

abbrev pub closed : List Token → List Token
closed ts = token right_brace (codes "}") ∷ ts

-- What is written, in front of the tokens `ts`.
abbrev pub put_directive : Directive → List Token → List Token
put_directive d ts = d.name ∷ (d.parameters ++ semi ts)

abbrev pub put_directives : List Directive → List Token → List Token
put_directives [] ts = ts
put_directives (d ∷ ds) ts = put_directive d (put_directives ds ts)

abbrev pub put_statement : Statement → List Token → List Token
put_statement (directive d) ts = put_directive d ts
put_statement (location args ds) ts =
    token string (codes "location") ∷ (args ++ opened (put_directives ds (closed ts)))

abbrev pub put_statements : List Statement → List Token → List Token
put_statements [] ts = ts
put_statements (s ∷ ss) ts = put_statement s (put_statements ss ts)

abbrev pub put_servers : List (List Statement) → List Token
put_servers [] = token end_of_file [] ∷ []
put_servers (s ∷ ss) =
    token string (codes "server") ∷ opened (put_statements s (closed (put_servers ss)))

-- What it means.
abbrev pub with_directive : ConfigNode → Directive → ConfigNode
with_directive node d = add_directive node (d.name.literal, d.parameters)

abbrev pub with_directives : ConfigNode → List Directive → ConfigNode
with_directives node [] = node
with_directives node (d ∷ ds) = with_directives (with_directive node d) ds

abbrev pub with_statement : ServerNode → Statement → ServerNode
with_statement s (directive d) = record s { node = with_directive s.node d }
with_statement s (location args ds) = record s {
  children =
      s.children
      ++ (with_directives (record (new_node (codes "location")) { args = args }) ds ∷ []);
}

abbrev pub with_statements : ServerNode → List Statement → ServerNode
with_statements s [] = s
with_statements s (st ∷ sts) = with_statements (with_statement s st) sts

abbrev pub nodes_of : List (List Statement) → List ServerNode
nodes_of [] = []
nodes_of (s ∷ ss) = with_statements new_server_node s ∷ nodes_of ss
