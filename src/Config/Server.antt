-- ===== src/Config/Server.antt =====
-- src/config/ServerBlock.cpp, ServerBlockDetails.cpp and inc/config/ServerBlock.hpp: a virtual
-- server, and the choice of the location for a request.
pub mod Matching
use server_x.Common.{
  ℕ, zero, suc, ◌+◌, ◌-◌, Bool, true, false, not, ◌&&◌, ◌||◌, Option, none, some, List, [], ◌∷◌,
  ◌++◌, leb, ◌==◌, if◌then◌else◌, length, take, drop, get_last?, Bytes, codes, beq, is_empty,
  rfind_byte, Dict, lookup, insert, has_key,
}
use server_x.Config.Block.{Block, new_block}
use server_x.Config.Location.{LocationBlock, extension_match, prefix}

abbrev pub LocationMap : Type 0
LocationMap = Dict LocationBlock

-- The port is an `int`, -1 until one is set: `none`.
pub record ServerBlock : Type 0 where
  pub block : Block
  pub port : Option ℕ
  pub address : Bytes
  pub locations : LocationMap
  pub extension_paths : List Bytes

-- The constructor.
abbrev pub new_server : ServerBlock
new_server = record {
  block = new_block (codes "server");
  port = none;
  address = [];
  locations = [];
  extension_paths = [];
}

unfoldable pub has_location : LocationBlock → ServerBlock → Bool
has_location b s = not (is_empty b.path) && has_key b.path s.locations

-- `map::insert` keeps an element that the key already has; `inserted` is the element then there.
unfoldable pub add_location : LocationBlock → ServerBlock → ServerBlock
add_location b s =
    let inserted : LocationBlock = elim (lookup b.path s.locations) [ none ↦ b | some old ↦ old ] in
    record s {
      locations = insert b.path inserted s.locations;
      extension_paths = elim inserted.match_type [
        | extension_match ↦ s.extension_paths ++ inserted.path ∷ []
        | prefix ↦ s.extension_paths
      ];
    }

-- `std::find(names.begin(), names.end(), s) != names.end()`.
unfoldable pub contains : List Bytes → Bytes → Bool
contains [] s = false
contains (n ∷ ns) s = beq n s || contains ns s

unfoldable pub match_server_name : List Bytes → Bytes → Bool
unfolding contains
match_server_name [] s = true
match_server_name (n ∷ ns) s = contains (n ∷ ns) s

-- `currentPath.rfind('/', currentPath.size() - 2)` and the resize behind it; `none` for `npos`.
-- At size 1 the subtraction wraps around, and the whole path is searched.
unfoldable pub parent_path : Bytes → Option Bytes
parent_path [] = none
parent_path (c ∷ []) = if c == b'/' then some (c ∷ []) else none
parent_path (c ∷ d ∷ cs) =
    let head = take (length (c ∷ cs)) (c ∷ d ∷ cs) in
    elim (rfind_byte b'/' head) [ none ↦ none | some pos ↦ some (take (pos + 1) head) ]

-- The loop of `bestMatchLocation`; `none` where it ends without a match.
unfoldable pub climb : ℕ → LocationMap → Bytes → Option LocationBlock
unfolding parent_path
climb zero ls path = none
climb (suc fuel) ls path = if is_empty path then none else elim (lookup path ls) [
  | some l ↦ some l
  | none ↦
      if beq path (b'/' ∷ [])
      then none
      else elim (parent_path path) [ none ↦ none | some up ↦ climb fuel ls up ]
]

-- The test for a location of the same name with a slash behind it.
with_slash : LocationMap → Bytes → Option LocationBlock
with_slash ls path = elim (get_last? path) [
  | none ↦ none
  | some c ↦ if c == b'/' then none else lookup (path ++ b'/' ∷ []) ls
]

or_else : Option LocationBlock → Option LocationBlock → Option LocationBlock
or_else (some l) other = some l
or_else none other = other

-- Each round of the loop shortens the path, so its length bounds the rounds.
unfoldable pub best_match_location : LocationMap → Bytes → Option LocationBlock
unfolding climb with_slash or_else
best_match_location ls path = or_else (lookup path ls) (
    or_else (with_slash ls path)
      (or_else (climb (suc (length path)) ls path) (lookup (b'/' ∷ []) ls)))

-- `uri.compare(uri.size() - n, n, extension) == 0` for a uri of n bytes or more.
unfoldable pub has_extension : Bytes → Bytes → Bool
has_extension uri extension =
    leb (length extension) (length uri) && beq (drop (length uri - length extension) uri) extension

unfoldable pub match_extension_location : LocationMap → List Bytes → Bytes → Option LocationBlock
unfolding has_extension
match_extension_location ls [] uri = none
match_extension_location ls (p ∷ ps) uri =
    let rest = match_extension_location ls ps uri in
    elim (lookup p ls) [
      | none ↦ rest
      | some l ↦ if has_extension uri l.extension then some l else rest
    ]

-- `matchPrefixLocation` and `matchLocation`, on the request's URI.
unfoldable pub match_prefix_location : ServerBlock → Bytes → Option LocationBlock
match_prefix_location s uri = best_match_location s.locations uri

unfoldable pub match_location : ServerBlock → Bytes → Option LocationBlock
unfolding or_else
match_location s uri =
    or_else (match_extension_location s.locations s.extension_paths uri)
      (best_match_location s.locations uri)
