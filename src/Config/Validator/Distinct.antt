-- ===== src/Config/Validator/Distinct.antt =====
-- The constraint over all servers, as a statement on the addresses and names that they listen for.
use server_x.Common.{
  Option, none, some, map, codes, out_of_range, ◌≡◌, refl, sym, ap, ◌∙◌, Bool, true, false, not,
  ◌&&◌, ◌||◌, List, [], ◌∷◌, ◌++◌, arith, if◌then◌else◌, Bytes, beq, beq_iff, lookup, insert,
  lookup-insert, config_error, Result, returns, throws, ◌>>=◌, ◌>>◌, require, bind_assoc,
  bind_congr,
}
use server_x.Config.Argument.{Argument, get_raw_value}
use server_x.Config.Block.{has, get, get_raw_values}
use server_x.Config.Server.{ServerBlock, contains}
use server_x.Config.Validator.{
  ListenMap, names_at, listen_key, or_unnamed, server_names, insert_names, insert_servers,
  validate_global_constraints,
}
use server_x.Config.Validator.Listeners.{
  names_of, all_listeners, all_differ, with_key, listeners, occurs, distinct, distinct-listeners,
}

server_names-returns : (s : ServerBlock) → server_names s ≡ returns (names_of s)
unfolding server_names names_of has get_raw_values get or_unnamed
server_names-returns s = by_names (lookup (codes "server_name") s.block.directives)
  where
    by_names :
        (o : Option (List Argument))
        → ((if (elim o [ none ↦ false | some _ ↦ true ])
              then (elim o [ none ↦ throws out_of_range | some args ↦ returns args ] >>= λ args.
                  returns (map get_raw_value args))
              else returns [])
            >>= λ names. returns (or_unnamed names))
          ≡ returns (elim o [
            | none ↦ [] ∷ []
            | some [] ↦ [] ∷ []
            | some (a ∷ args) ↦ map get_raw_value (a ∷ args)
          ])
    by_names none = refl
    by_names (some []) = refl
    by_names (some (a ∷ args)) = refl

insert_pairs : List (Bytes × Bytes) → ListenMap → Result ListenMap
insert_pairs [] m = returns m
insert_pairs ((k, n) ∷ ps) m =
    require (not (contains (names_at k m) n)) config_error
    >> insert_pairs ps (insert k (n ∷ names_at k m) m)

insert_names-pairs :
    (k : Bytes) (ns : List Bytes) (ps : List (Bytes × Bytes)) (m : ListenMap)
    → insert_pairs (with_key k ns ++ ps) m ≡ (insert_names k ns m >>= insert_pairs ps)
unfolding insert_pairs insert_names with_key require
insert_names-pairs k [] ps m = refl
insert_names-pairs k (n ∷ ns) ps m =
    ap (λ r. require (not (contains (names_at k m) n)) config_error >> r)
      (insert_names-pairs k ns ps (insert k (n ∷ names_at k m) m))
    ∙ sym (
        bind_assoc (require (not (contains (names_at k m) n)) config_error)
          (λ _. insert_names k ns (insert k (n ∷ names_at k m) m)) (insert_pairs ps))

insert_servers-pairs :
    (ss : List ServerBlock) (m : ListenMap) → insert_servers ss m ≡ insert_pairs (listeners ss) m
unfolding insert_servers listeners insert_pairs
insert_servers-pairs [] m = refl
insert_servers-pairs (s ∷ ss) m =
    ap (λ r. r >>= λ names. insert_names (listen_key s) names m >>= insert_servers ss)
      (server_names-returns s)
    ∙ bind_congr (insert_names (listen_key s) (names_of s) m) _ _ (insert_servers-pairs ss)
    ∙ sym (insert_names-pairs (listen_key s) (names_of s) (listeners ss) m)

-- Whether a name is taken at an address, and whether none of the pairs is.
taken : Bytes × Bytes → ListenMap → Bool
taken p m = contains (names_at p.0 m) p.1

all_fresh : ListenMap → List (Bytes × Bytes) → Bool
unfolding taken
all_fresh m [] = true
all_fresh m (p ∷ ps) = not (taken p m) && all_fresh m ps

taken-insert :
    (k n : Bytes) (p : Bytes × Bytes) (m : ListenMap)
    → taken p (insert k (n ∷ names_at k m) m) ≡ ((beq k p.0 && beq n p.1) || taken p m)
unfolding taken contains
taken-insert k n p m = ground (arith, lookup-insert k p.0 (n ∷ names_at k m) m, beq_iff k p.0)

all_fresh-insert :
    (k n : Bytes) (m : ListenMap) (ps : List (Bytes × Bytes))
    → all_fresh (insert k (n ∷ names_at k m) m) ps ≡ (all_fresh m ps && not (occurs (k, n) ps))
unfolding all_fresh occurs
all_fresh-insert k n m [] = refl
all_fresh-insert k n m (p ∷ ps) = ground (arith, taken-insert k n p m, all_fresh-insert k n m ps)

insert_pairs-distinct :
    (ps : List (Bytes × Bytes)) (m : ListenMap)
    → (insert_pairs ps m >>= λ _. returns tt) ≡ require (all_fresh m ps && distinct ps) config_error
unfolding insert_pairs all_fresh distinct require
insert_pairs-distinct [] m = refl
insert_pairs-distinct ((k, n) ∷ ps) m =
    let m1 = insert k (n ∷ names_at k m) m in
    ground (arith, insert_pairs-distinct ps m1, all_fresh-insert k n m ps)

all_fresh-empty : (ps : List (Bytes × Bytes)) → all_fresh [] ps ≡ true
unfolding all_fresh taken contains lookup
all_fresh-empty [] = refl
all_fresh-empty (p ∷ ps) = all_fresh-empty ps

require-if : (b : Bool) → require b config_error ≡ (if b then returns tt else throws config_error)
unfolding require
require-if true = refl
require-if false = refl

-- The check over all servers passes when no name is listened for twice at one address and port,
-- where a server without names counts as one with the empty name; otherwise it throws
-- `ConfigError`.
pub validate_global_constraints-distinct :
    (ss : List ServerBlock)
    → validate_global_constraints ss
      ≡ (if all_differ (all_listeners ss) then returns tt else throws config_error)
unfolding validate_global_constraints
validate_global_constraints-distinct ss =
    ap (λ r. r >>= λ _. returns tt) (insert_servers-pairs ss [])
    ∙ insert_pairs-distinct (listeners ss) []
    ∙ ap (λ b. require (b && distinct (listeners ss)) config_error) (all_fresh-empty (listeners ss))
    ∙ require-if (distinct (listeners ss))
    ∙ ap (λ b. if b then returns tt else throws config_error) (distinct-listeners ss)
