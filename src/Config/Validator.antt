-- ===== src/Config/Validator.antt =====
-- src/config/pipeline/Validator.cpp: defaults, and the servers that are in each other's way. The
-- flag for checks of the file system is stored and never read.
pub mod Listeners
pub mod Distinct
pub mod Defaults
use server_x.Common.{
  not, none, some, List, [], ◌∷◌, ◌++◌, map, if◌then◌else◌, Bytes, codes, is_empty, Dict, lookup,
  insert, config_error, Result, returns, throws, ◌>>=◌, ◌>>◌, require,
}
use server_x.Config.Argument.{to_string}
use server_x.Config.Block.{Block, has, add_string, add, get_raw_values}
use server_x.Config.Location.{LocationBlock}
use server_x.Config.Server.{ServerBlock, LocationMap, contains}

unfoldable pub validate_index : Block → Block
unfolding has add
validate_index b =
    if has (codes "index") b then b else add_string (codes "index") (codes "index.html") b

unfoldable pub validate_location : LocationBlock → LocationBlock
unfolding validate_index
validate_location l = record l { block = validate_index l.block }

unfoldable pub validate_locations : LocationMap → LocationMap
unfolding validate_location
validate_locations [] = []
validate_locations ((k, l) ∷ m) = (k, validate_location l) ∷ validate_locations m

unfoldable pub validate_server : ServerBlock → ServerBlock
unfolding validate_index validate_locations
validate_server s = record s {
  port = some (elim s.port [ none ↦ 9191 | some p ↦ p ]);
  address = if is_empty s.address then codes "0.0.0.0" else s.address;
  block = validate_index s.block;
  locations = validate_locations s.locations;
}

-- `address() + ":" + toString(port())`.
unfoldable pub listen_key : ServerBlock → Bytes
unfolding to_string
listen_key s = s.address ++ codes ":" ++ elim s.port [ none ↦ codes "-1" | some p ↦ to_string p ]

-- `names.empty()`, and the name that is put there then.
unfoldable pub or_unnamed : List Bytes → List Bytes
or_unnamed [] = codes "" ∷ []
or_unnamed (n ∷ ns) = n ∷ ns

-- The names of a server; one without a name has the empty one.
unfoldable pub server_names : ServerBlock → Result (List Bytes)
unfolding has get_raw_values or_unnamed
server_names s =
    (if has (codes "server_name") s.block
      then get_raw_values (codes "server_name") s.block
      else returns [])
    >>= λ names. returns (or_unnamed names)

-- `std::map<std::string, std::set<std::string> >`.
abbrev pub ListenMap : Type 0
ListenMap = Dict (List Bytes)

-- `listenMap[listenKey]`: a key that is missing gets the empty set.
abbrev pub names_at : Bytes → ListenMap → List Bytes
names_at key m = elim (lookup key m) [ none ↦ [] | some names ↦ names ]

-- `insert(names[j])` for the names of one server; `.second` tells whether the name is new.
unfoldable pub insert_names : Bytes → List Bytes → ListenMap → Result ListenMap
unfolding contains lookup insert
insert_names key [] m = returns m
insert_names key (n ∷ ns) m =
    require (not (contains (names_at key m) n)) config_error
    >> insert_names key ns (insert key (n ∷ names_at key m) m)

unfoldable pub insert_servers : List ServerBlock → ListenMap → Result ListenMap
unfolding server_names insert_names listen_key
insert_servers [] m = returns m
insert_servers (s ∷ ss) m =
    server_names s >>= λ names. insert_names (listen_key s) names m >>= insert_servers ss

unfoldable pub validate_global_constraints : List ServerBlock → Result (Unit {0})
unfolding insert_servers
validate_global_constraints ss = insert_servers ss [] >>= λ _. returns tt

-- `validate`, which changes the servers in place.
unfoldable pub validate : List ServerBlock → Result (List ServerBlock)
unfolding validate_server validate_global_constraints
validate [] = throws config_error
validate (s ∷ ss) =
    let servers = map validate_server (s ∷ ss) in
    validate_global_constraints servers >> returns servers
