-- ===== src/Http/Resolve.antt =====
-- src/http/Request.cpp, `resolvePath`: the file that a request is about.
use server_x.Common.{
  none, some, List, [], ◌∷◌, leb, if◌then◌else◌, length, drop, Bytes, codes, join_paths,
  out_of_range, Result, returns, throws, ◌>>=◌,
}
use server_x.Config.Block
use server_x.Config.Block.{has, get_evaluated}
use server_x.Config.Location.{LocationBlock, prefix, extension_match}
use server_x.Config.Server.{match_prefix_location}
use server_x.Http.Headers
use server_x.Http.Request.{Request}

-- A location of an extension has its path from the prefix location, where there is one.
unfoldable pub location_for_path : Request → LocationBlock → LocationBlock
unfolding match_prefix_location
location_for_path r l = elim l.match_type [
  | prefix ↦ l
  | extension_match ↦ elim r.server [
    | none ↦ l
    | some s ↦ elim (match_prefix_location s r.start_line.uri) [ none ↦ l | some p ↦ p ]
  ]
]

-- `[0]` of an empty vector is out of bounds; `alias` has one argument.
unfoldable pub first_value : List Bytes → Result Bytes
first_value [] = throws out_of_range
first_value (v ∷ _) = returns v

-- What is left of the path behind the location's.
unfoldable pub suffix : Bytes → Bytes → Bytes
suffix req_path loc_path =
    if leb (length loc_path) (length req_path) then drop (length loc_path) req_path else []

unfoldable pub resolve_at : Request → LocationBlock → Result Bytes
unfolding first_value suffix join_paths get_evaluated has Block.root
resolve_at r loc =
    if has (codes "alias") loc.block
    then (get_evaluated (codes "alias") (Headers.get (codes "Host") r.headers) loc.block
        >>= λ values. first_value values >>= λ alias_path.
            returns (join_paths alias_path (suffix r.start_line.path loc.path)))
    else (Block.root loc.block >>= λ root_path. returns (join_paths root_path r.start_line.path))

unfoldable pub resolve_path : Request → Result Bytes
unfolding resolve_at location_for_path
resolve_path r = elim r.location [
  | none ↦ returns []
  | some l ↦ resolve_at r (location_for_path r l)
]
