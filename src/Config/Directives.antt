-- ===== src/Config/Directives.antt =====
-- src/config/directives, pipeline/DirectiveHandler and internal/ValidationUtils.hpp: what each
-- directive of a block checks and stores. A method `process` is the function of the directive's
-- name; `inet_pton` for IPv4 is an argument.
pub mod BodySize
pub mod Effects
use server_x.Common.{
  ℕ, Bool, true, false, not, ◌&&◌, ◌||◌, Option, none, some, List, [], ◌∷◌, ltb, leb, if◌then◌else◌,
  length, get_last?, Bytes, codes, beq, is_empty, starts_with, find_sub, is_some, from_string,
  config_error, out_of_range, Result, returns, throws, ◌>>=◌, ◌>>◌, require,
}
use server_x.Config.Argument.{boolean, bool_of}
use server_x.Config.Block.{Block, add, push_arg, add_string, add_strings, set_root}
use server_x.Config.Location.{LocationBlock}
use server_x.Config.Server.{ServerBlock}
use server_x.Config.Lexer.{Token, TokenType, number}
use server_x.Config.Parser.{eq_type}
use server_x.Config.Factory.{get_all}
use server_x.Config.Endpoint.{IpInfo, int_max, extract_ip_info}

-- The `Block &` that a directive is given: it is one of two classes.
pub data Target : Type 0 where
  of_server : ServerBlock → Target
  of_location : LocationBlock → Target

abbrev pub block_of : Target → Block
block_of (of_server s) = s.block
block_of (of_location l) = l.block

abbrev pub with_block : Block → Target → Target
with_block b (of_server s) = of_server (record s { block = b })
with_block b (of_location l) = of_location (record l { block = b })

-- `ValidatorUtils`.
unfoldable pub check_args : List Token → ℕ → ℕ → Result (Unit {0})
check_args args least most =
    require (leb least (length args) && leb (length args) most) config_error

unfoldable pub check_type : Token → TokenType → Result (Unit {0})
unfolding eq_type
check_type arg expected_type = require (eq_type arg.kind expected_type) config_error

unfoldable pub check_context : Target → Bytes → Result (Unit {0})
unfolding find_sub
check_context t allowed_contexts =
    require (is_some (find_sub (block_of t).name allowed_contexts)) config_error

-- `checkContext` and `checkArgs`, with which every directive begins.
unfoldable pub check : Bytes → ℕ → ℕ → Target → List Token → Result (Unit {0})
unfolding check_args check_context
check contexts least most t args = check_context t contexts >> check_args args least most

-- `b.add(name_, args)`.
unfoldable pub add_args : Bytes → List Token → Target → Result Target
unfolding get_all add
add_args name args t =
    get_all args >>= λ values. returns (with_block (add name values (block_of t)) t)

-- `args[0].literal`, where the number of arguments has been checked.
unfoldable pub first_literal : List Token → Result Bytes
first_literal [] = throws out_of_range
first_literal (a ∷ _) = returns a.literal

abbrev pub anywhere : Bytes
anywhere = codes "server location"

unfoldable pub alias : Target → List Token → Result Target
unfolding check add_args
alias t args = check (codes "location") 1 1 t args >> add_args (codes "alias") args t

unfoldable pub is_known_method : Bytes → Bool
is_known_method m =
    beq m (codes "GET")
    || (beq m (codes "POST") || (beq m (codes "DELETE") || beq m (codes "HEAD")))

unfoldable pub all_known_methods : List Token → Bool
unfolding is_known_method
all_known_methods [] = true
all_known_methods (a ∷ args) = is_known_method a.literal && all_known_methods args

unfoldable pub allow_methods : Target → List Token → Result Target
unfolding check add_args all_known_methods
allow_methods t args =
    check anywhere 1 3 t args
    >> require (all_known_methods args) config_error
    >> add_args (codes "allow_methods") args t

unfoldable pub set_auto_index : Bool → Target → Result Target
unfolding push_arg
set_auto_index b (of_server s) = throws config_error
set_auto_index b (of_location l) = returns (
    of_location
      (record l { auto_index = b; block = push_arg (codes "autoindex") (boolean b) l.block }))

unfoldable pub autoindex : Target → List Token → Result Target
unfolding check first_literal bool_of set_auto_index
autoindex t args =
    check (codes "location") 1 1 t args
    >> (first_literal args >>= λ literal. bool_of literal >>= λ b. set_auto_index b t)

unfoldable pub cgi_values : List Token → Block → Block
unfolding add
cgi_values [] b = add_string (codes "cgi_pass") (codes "enabled") b
cgi_values (a ∷ []) b = add_string (codes "cgi_pass") a.literal b
cgi_values (a ∷ c ∷ _) b = add_strings (codes "cgi_pass") a.literal c.literal b

unfoldable pub cgi_pass : Target → List Token → Result Target
unfolding check cgi_values
cgi_pass t args =
    check (codes "location") 0 2 t args >> returns (with_block (cgi_values args (block_of t)) t)

abbrev pub valid_codes : List Bytes
valid_codes =
    codes "400"
    ∷ codes "401"
    ∷ codes "403"
    ∷ codes "404"
    ∷ codes "405"
    ∷ codes "409"
    ∷ codes "411"
    ∷ codes "413"
    ∷ codes "415"
    ∷ codes "500"
    ∷ codes "501"
    ∷ codes "502"
    ∷ codes "503"
    ∷ codes "504"
    ∷ []

-- `find` in a set of strings.
unfoldable pub is_in : Bytes → List Bytes → Bool
is_in s [] = false
is_in s (x ∷ xs) = beq x s || is_in s xs

-- The loop over all arguments but the last, which is the path.
unfoldable pub add_pages : Bytes → List Token → Target → Result Target
unfolding check_type is_in add
add_pages path [] t = returns t
add_pages path (a ∷ []) t = returns t
add_pages path (a ∷ b ∷ args) t =
    check_type a number
    >> require (is_in a.literal valid_codes) config_error
    >> add_pages path (b ∷ args) (with_block (add_string a.literal path (block_of t)) t)

-- `args[args.size() - 1].literal`.
unfoldable pub last_literal : List Token → Result Bytes
last_literal args = elim (get_last? args) [
  | none ↦ throws out_of_range
  | some a ↦ returns a.literal
]

unfoldable pub error_page : Target → List Token → Result Target
unfolding check add_pages last_literal
error_page t args =
    check anywhere 2 20 t args >> (last_literal args >>= λ path. add_pages path args t)

unfoldable pub index : Target → List Token → Result Target
unfolding check add_args
index t args = check anywhere 1 10 t args >> add_args (codes "index") args t

-- `port(...)` and `address(...)` of the `ServerBlock` that the context says it is: a location, at
-- which the cast of the source is undefined, has been refused by `checkContext`.
unfoldable pub set_endpoint : IpInfo → Target → Result Target
set_endpoint i (of_location l) = throws config_error
set_endpoint i (of_server s) = returns (
    of_server (record s {
      port = some (elim i.port [ none ↦ 9191 | some p ↦ p ]);
      address = if is_empty i.ip then codes "0.0.0.0" else i.ip;
    }))

unfoldable pub set_listen : List Token → Option IpInfo → Target → Result Target
unfolding set_endpoint add_args
set_listen args none t = throws config_error
set_listen args (some i) t = set_endpoint i t >>= λ t1. add_args (codes "listen") args t1

unfoldable pub listen : (Bytes → Bool) → Target → List Token → Result Target
unfolding check first_literal extract_ip_info set_listen
listen inet_pton t args =
    check (codes "server") 1 1 t args
    >> (first_literal args >>= λ literal. set_listen args (extract_ip_info inet_pton literal) t)

-- `code < 200 || code >= 600`.
abbrev pub is_return_code : ℕ → Bool
is_return_code code = leb 200 code && ltb code 600

unfoldable pub return_args : Target → List Token → Result Target
unfolding check_type add_args add eq_type from_string
return_args t [] = throws out_of_range
return_args t (a ∷ []) =
    let code = from_string int_max a.literal in
    if eq_type a.kind number
    then require (is_return_code code) config_error
      >> require (not (leb 300 code && ltb code 400)) config_error
      >> add_args (codes "return") (a ∷ []) t
    else returns (with_block (add_strings (codes "return") (codes "302") a.literal (block_of t)) t)
return_args t (a ∷ b ∷ args) =
    check_type a number
    >> require (is_return_code (from_string int_max a.literal)) config_error
    >> add_args (codes "return") (a ∷ b ∷ args) t

-- `return`.
unfoldable pub return_to : Target → List Token → Result Target
unfolding check return_args
return_to t args = check anywhere 1 2 t args >> return_args t args

unfoldable pub root : Target → List Token → Result Target
unfolding check first_literal set_root
root t args =
    check anywhere 1 1 t args
    >> (first_literal args >>= λ literal.
        set_root literal (block_of t) >>= λ b. returns (with_block b t))

unfoldable pub server_name : Target → List Token → Result Target
unfolding check add_args
server_name t args = check (codes "server") 1 10 t args >> add_args (codes "server_name") args t

unfoldable pub upload_path : Target → List Token → Result Target
unfolding check first_literal add_args starts_with
upload_path t args =
    check (codes "location") 1 1 t args
    >> (first_literal args >>= λ literal.
        require (not (starts_with (codes "/") literal)) config_error
        >> add_args (codes "upload_path") args t)
