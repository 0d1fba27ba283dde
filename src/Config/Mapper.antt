-- ===== src/Config/Mapper.antt =====
-- src/config/pipeline: DirectiveHandler.hpp, Mapper.cpp and MapperDetails.cpp: blocks built from
-- the nodes of the parser. The parser makes no other children than locations.
pub mod Locations
pub mod Effects
use server_x.Common.{
  ◌-◌, Bool, false, ◌&&◌, Option, none, some, List, [], ◌∷◌, ltb, ◌==◌, if◌then◌else◌, length, take,
  drop, get_last?, Bytes, codes, beq, is_empty, Dict, lookup, out_of_range, Result, returns, throws,
  ◌>>=◌,
}
use server_x.Config.Block
use server_x.Config.Block.{Block, set_root}
use server_x.Config.Location.{LocationBlock, prefix, extension_match, new_location}
use server_x.Config.Server.{ServerBlock, new_server, has_location, add_location}
use server_x.Config.Lexer.{Token}
use server_x.Config.Parser.{ConfigNode, ServerNode}
use server_x.Config.Directives
use server_x.Config.Directives.{Target, of_server, of_location, add_args}
use server_x.Config.Directives.BodySize.{client_max_body_size}

abbrev pub Directive : Type 0
Directive = Target → List Token → Result Target

-- `pattern.substr(0, 2) == "\\."` and the `$` at the end.
unfoldable pub is_extension_pattern : Bytes → Bool
is_extension_pattern pattern =
    ltb 3 (length pattern)
    && (beq (take 2 pattern) (codes "\\.")
        && elim (get_last? pattern) [ none ↦ false | some c ↦ c == b'$' ])

-- A location behind `~`, and one with a path alone.
unfoldable pub by_pattern : Bytes → LocationBlock
unfolding is_extension_pattern
by_pattern pattern =
    if is_extension_pattern pattern
    then record new_location {
      path = pattern;
      match_type = extension_match;
      extension = take (length pattern - 2) (drop 1 pattern);
    }
    else record new_location { path = pattern; match_type = prefix }

unfoldable pub by_path : Bytes → LocationBlock
by_path path = record new_location { path = path; match_type = prefix }

unfoldable pub named_location : List Token → Result LocationBlock
unfolding by_pattern by_path
named_location [] = throws out_of_range
named_location (a ∷ b ∷ []) =
    if beq a.literal (codes "~")
    then returns (by_pattern b.literal)
    else returns (by_path a.literal)
named_location (a ∷ _) = returns (by_path a.literal)

-- The block stays of its class.
unfoldable pub as_location : Target → Result LocationBlock
as_location (of_location l) = returns l
as_location (of_server s) = throws out_of_range

unfoldable pub as_server : Target → Result ServerBlock
as_server (of_server s) = returns s
as_server (of_location l) = throws out_of_range

unfoldable pub complete_location_root : LocationBlock → ServerBlock → Result LocationBlock
unfolding set_root Block.root
complete_location_root l s =
    let inherited = Block.root s.block >>= λ path. set_root path l.block in
    (Block.root l.block >>= λ path. if is_empty path then inherited else set_root path l.block)
    >>= λ b. returns (record l { block = b })

module _ (inet_pton : Bytes → Bool) where
  -- The map that the constructor of `DirectiveHandler` fills.
  abbrev pub handlers : Dict Directive
  handlers =
      (codes "listen", Directives.listen inet_pton)
      ∷ (codes "root", Directives.root)
      ∷ (codes "error_page", Directives.error_page)
      ∷ (codes "return", Directives.return_to)
      ∷ (codes "client_max_body_size", client_max_body_size)
      ∷ (codes "index", Directives.index)
      ∷ (codes "alias", Directives.alias)
      ∷ (codes "server_name", Directives.server_name)
      ∷ (codes "upload_path", Directives.upload_path)
      ∷ (codes "allow_methods", Directives.allow_methods)
      ∷ (codes "cgi_pass", Directives.cgi_pass)
      ∷ (codes "autoindex", Directives.autoindex)
      ∷ []

  -- A directive that has no handler is stored as it is.
  unfoldable pub process_with : Option Directive → Bytes → Directive
  unfolding add_args
  process_with none key t args = add_args key args t
  process_with (some handler) key t args = handler t args

  -- `process` of one directive, and of a map.
  unfoldable pub process : Bytes → Directive
  unfolding process_with lookup
  process key = process_with (lookup key handlers) key

  unfoldable pub process_all : Target → Dict (List Token) → Result Target
  unfolding process
  process_all t [] = returns t
  process_all t ((key, args) ∷ m) = process key t args >>= λ t1. process_all t1 m

  unfoldable pub map_location_block : ConfigNode → Result LocationBlock
  unfolding named_location process_all as_location
  map_location_block node =
      named_location node.args >>= λ l. process_all (of_location l) node.directives >>= as_location

  -- A location whose path is there already is left out.
  unfoldable pub handle_location_block : ServerBlock → ConfigNode → Result ServerBlock
  unfolding map_location_block has_location add_location complete_location_root
  handle_location_block s node = map_location_block node >>= λ l.
      if has_location l s
      then returns s
      else (complete_location_root l s >>= λ l1. returns (add_location l1 s))

  unfoldable pub map_locations : ServerBlock → List ConfigNode → Result ServerBlock
  unfolding handle_location_block
  map_locations s [] = returns s
  map_locations s (n ∷ ns) = handle_location_block s n >>= λ s1. map_locations s1 ns

  unfoldable pub map_server_block : ServerNode → Result ServerBlock
  unfolding process_all as_server map_locations
  map_server_block n = process_all (of_server new_server) n.node.directives >>= as_server >>= λ s.
      map_locations s n.children

  -- `map`.
  unfoldable pub map_servers : List ServerNode → Result (List ServerBlock)
  unfolding map_server_block
  map_servers [] = returns []
  map_servers (n ∷ ns) = map_server_block n >>= λ s. map_servers ns >>= λ rest. returns (s ∷ rest)
