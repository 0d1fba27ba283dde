-- ===== src/Config/Block.antt =====
-- src/config/internal/Block.cpp and inc/config/Block.hpp: the directives of a block. The copies
-- that `clone` makes and the deletions are those of values here.
pub mod Filled
use server_x.Common.{
  ℕ, Bool, Option, none, some, List, [], ◌∷◌, ◌++◌, map, Bytes, codes, if◌then◌else◌, Dict, lookup,
  insert, has_key, Result, returns, throws, out_of_range, ◌>>=◌,
}
use server_x.Config.Argument.{Argument, string, integer, get_raw_value, evaluate}

pub record Block : Type 0 where
  pub name : Bytes
  pub directives : Dict (List Argument)

-- The constructor.
abbrev pub new_block : Bytes → Block
new_block name = record { name = name; directives = [] }

unfoldable pub has : Bytes → Block → Bool
has key b = has_key key b.directives

unfoldable pub get : Bytes → Block → Result (List Argument)
get key b = elim (lookup key b.directives) [ none ↦ throws out_of_range | some args ↦ returns args ]

-- `add(key, ArgumentVector)`: what the key held is replaced.
unfoldable pub add : Bytes → List Argument → Block → Block
add key values b = record b { directives = insert key values b.directives }

-- `add(key, ArgumentPtr)`: the argument is appended to what the key holds.
unfoldable pub push_arg : Bytes → Argument → Block → Block
push_arg key value b = record b {
  directives =
      insert key (elim (lookup key b.directives) [ none ↦ [] | some args ↦ args ] ++ value ∷ [])
        b.directives;
}

-- `add(key, string)`, `add(key, string, string)`, `add(key, size_t)`.
abbrev pub add_string : Bytes → Bytes → Block → Block
add_string key value = add key (string value ∷ [])

abbrev pub add_strings : Bytes → Bytes → Bytes → Block → Block
add_strings key v1 v2 = add key (string v1 ∷ string v2 ∷ [])

abbrev pub add_number : Bytes → ℕ → Block → Block
add_number key value = add key (integer value ∷ [])

unfoldable pub get_raw_values : Bytes → Block → Result (List Bytes)
unfolding get
get_raw_values key b = do matched ← get key b; returns (map get_raw_value matched)

-- `matched[0]` of an empty vector is out of bounds; the directives that are read so hold one
-- value or more.
unfoldable pub first_raw : List Argument → Result Bytes
first_raw [] = throws out_of_range
first_raw (a ∷ _) = returns (get_raw_value a)

unfoldable pub get_first_raw_value : Bytes → Block → Result Bytes
unfolding get first_raw
get_first_raw_value key b = do matched ← get key b; first_raw matched

-- `get(key, req)`, with the request's header Host.
unfoldable pub get_evaluated : Bytes → Bytes → Block → Result (List Bytes)
unfolding get
get_evaluated key host b = do argv ← get key b; returns (map (evaluate host) argv)

first_evaluated : Bytes → List Argument → Bytes
first_evaluated host [] = []
first_evaluated host (a ∷ _) = evaluate host a

unfoldable pub get_first_evaluated_string : Bytes → Bytes → Block → Result Bytes
unfolding get first_evaluated
get_first_evaluated_string key host b = do argv ← get key b; returns (first_evaluated host argv)

-- `root()`.
unfoldable pub root : Block → Result Bytes
unfolding has get_first_raw_value
root b =
    let first = get_first_raw_value (codes "root") b in
    if has (codes "root") b then first else returns []

-- The same for a block of an accepted configuration, where a root has a value.
unfoldable pub root_of : Block → Bytes
unfolding root
root_of b = elim (root b) [ returns r ↦ r | throws _ ↦ [] ]

-- `root(path)`: the first argument is replaced, and those behind it stay. `it->second[0]` of an empty
-- vector is out of bounds.
unfoldable pub set_first : Bytes → Option (List Argument) → Result (List Argument)
set_first path none = returns (string path ∷ [])
set_first path (some []) = throws out_of_range
set_first path (some (_ ∷ rest)) = returns (string path ∷ rest)

unfoldable pub set_root : Bytes → Block → Result Block
unfolding set_first
set_root path b = set_first path (lookup (codes "root") b.directives) >>= λ values.
    returns (record b { directives = insert (codes "root") values b.directives })

abbrev pub index_files : Block → Result (List Bytes)
index_files = get_raw_values (codes "index")

-- `dynamic_cast` to `Integer` of the first argument.
int_value : Option (List Argument) → ℕ
int_value (some (integer n ∷ _)) = n
int_value _ = 0

unfoldable pub max_body_size : Block → ℕ
unfolding int_value
max_body_size b = int_value (lookup (codes "client_max_body_size") b.directives)
