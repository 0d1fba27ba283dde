-- ===== src/Config/Tests.antt =====
-- The configuration at concrete inputs.
use server_x.Common.{
  ℕ, true, false, Option, none, some, List, [], ◌∷◌, ◌++◌, ◌≡◌, refl, arith, Bytes, codes, insert,
  returns, Result,
}
use server_x.Config.Block.{Block, new_block, add_string}
use server_x.Config.Lexer.{Token, token, string, number, left_brace, right_brace, end_of_file, run}
use server_x.Config.Lexer.Print.{
  Lexeme, word, quoted, comment, blank, opening, closing, stop, all_tokens, print,
}
use server_x.Config.Lexer.Fuel.{run-fuel}
use server_x.Config.Location.{LocationBlock, new_location}
use server_x.Config.Parser.{parse}
use server_x.Config.Parser.Grammar.{
  Directive, Statement, directive, location, put_servers, nodes_of,
}
use server_x.Config.Parser.Meaning.{Parsed, parse-Parsed}
use server_x.Config.Server.{LocationMap, ServerBlock, new_server, best_match_location}
use server_x.Config.Server.Matching.{best_match_location-first_found}
use server_x.Config.Servers.{add_servers, get_server}
use server_x.Config.Servers.Choice.{
  at_port, first_with, or_first, names_it, is_one_of, with_port, get_server-listening,
}

abbrev location_at : Bytes → LocationBlock
location_at path = record new_location { path = path }

abbrev two_locations : LocationMap
two_locations =
    (codes "/", location_at (codes "/")) ∷ (codes "/images/", location_at (codes "/images/")) ∷ []

best_match_location-first_found_example :
    best_match_location two_locations (codes "/images/a/b") ≡ some (location_at (codes "/images/"))
unfolding server_x.Common.lookup server_x.Common.beq
best_match_location-first_found_example =
    best_match_location-first_found two_locations (codes "/images/a/b")

abbrev named : Bytes → ServerBlock
named name = record new_server {
  block = add_string (codes "server_name") name (new_block (codes "server"));
  port = some 80;
}

abbrev two_servers : List ServerBlock
two_servers = named (codes "one") ∷ named (codes "two") ∷ []

get_server-listening_example :
    get_server 80 (codes "two:80") (add_servers [] two_servers)
    ≡ returns (some (named (codes "two")))
unfolding at_port first_with or_first names_it is_one_of server_x.Common.lookup
    server_x.Config.Block.add insert server_x.Common.beq server_x.Config.Argument.get_raw_value
    server_x.Common.find_byte
get_server-listening_example =
    get_server-listening 80 (codes "two:80") (codes "two") two_servers
      (with_port (codes "two") (codes "80") refl)

abbrev listen_line : List Lexeme
listen_line =
    word (codes "listen")
    ∷ blank (codes " ")
    ∷ comment (codes " the port")
    ∷ word (codes "80")
    ∷ stop
    ∷ quoted (codes "a b")
    ∷ []

run-fuel_example : run 5 (codes "a;") ≡ run 30 (codes "a;")
run-fuel_example = run-fuel 5 30 (codes "a;") (omega arith) (omega arith)

abbrev a_file : List (List Statement)
a_file =
    (directive (record {
      name = token string (codes "listen");
      parameters = token number (codes "80") ∷ [];
    })
      ∷ location (token string (codes "/") ∷ []) (
          record {
            name = token string (codes "autoindex");
            parameters = token string (codes "on") ∷ [];
          }
          ∷ [])
      ∷ [])
    ∷ []

parse-Parsed_example : Parsed a_file (parse (put_servers a_file))
unfolding server_x.Config.Parser.Grammar.all_servers server_x.Common.beq
parse-Parsed_example = parse-Parsed a_file refl
