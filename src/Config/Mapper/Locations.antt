-- ===== src/Config/Mapper/Locations.antt =====
-- What the locations of a server hold, and what the mapper does to them.
use server_x.Common.{
  Anything, insert, bytes_lt, is_empty, ◌≤◌, Option, none, some, List, [], ◌∷◌, arith, if-holds,
  length, All, Bytes, codes, beq, lookup, Ensures, value_with, ensures-bind,
}
use server_x.Config.Block.Filled.{Filled, new_block-Filled, set_root-Ensures, root-Ensures}
use server_x.Config.Location.{LocationBlock, new_location}
use server_x.Config.Server.{LocationMap, ServerBlock, add_location}
use server_x.Config.Endpoint.Ports.{InRange}
use server_x.Config.Lexer.{Token}
use server_x.Config.Mapper.{
  is_extension_pattern, by_pattern, by_path, complete_location_root, named_location,
}

abbrev pub FilledLocation : LocationBlock → Type 0
FilledLocation l = Filled l.block

abbrev pub FilledEntry : Bytes × LocationBlock → Type 0
FilledEntry e = Filled e.1.block

-- A server whose port is in range, and whose block and locations are filled.
pub record Ported (s : ServerBlock) : Type 0 where
  pub in_range : InRange s.port
  pub filled : Filled s.block
  pub all_filled : All FilledEntry s.locations

new_location-Filled : FilledLocation new_location
new_location-Filled = new_block-Filled new_location.block.name

by_pattern-Filled : (pattern : Bytes) → FilledLocation (by_pattern pattern)
unfolding by_pattern
by_pattern-Filled pattern =
    if-holds FilledLocation (is_extension_pattern pattern) (λ _. new_location-Filled)
      (λ _. new_location-Filled)

by_path-Filled : (path : Bytes) → FilledLocation (by_path path)
unfolding by_path
by_path-Filled path = new_location-Filled

pub named_location-Ensures :
    (args : List Token) → 1 ≤ length args → Ensures FilledLocation (named_location args)
unfolding named_location
named_location-Ensures [] h = absurd (omega arith)
named_location-Ensures (a ∷ []) h = value_with _ (by_path-Filled a.literal)
named_location-Ensures (a ∷ b ∷ []) h =
    if-holds (Ensures FilledLocation) (beq a.literal (codes "~"))
      (λ _. value_with _ (by_pattern-Filled b.literal))
      (λ _. value_with _ (by_path-Filled a.literal))
named_location-Ensures (a ∷ b ∷ c ∷ args) h = value_with _ (by_path-Filled a.literal)

pub complete-Ensures :
    (l : LocationBlock) (s : ServerBlock)
    → FilledLocation l
    → Filled s.block
    → Ensures FilledLocation (complete_location_root l s)
unfolding complete_location_root
complete-Ensures l s f g =
    ensures-bind Filled _
      (ensures-bind Anything _ (root-Ensures l.block f) λ path _.
        if-holds (Ensures Filled) (is_empty path)
          (λ _.
            ensures-bind Anything _ (root-Ensures s.block g)
              λ inherited _. set_root-Ensures inherited l.block f)
          (λ _. set_root-Ensures path l.block f))
      λ b h. value_with _ h

insert-all_filled :
    (k : Bytes) (l : LocationBlock) (m : LocationMap)
    → FilledLocation l
    → All FilledEntry m
    → All FilledEntry (insert k l m)
unfolding insert
insert-all_filled k l [] f h = (f, tt)
insert-all_filled k l ((j, w) ∷ m) f h =
    if-holds (All FilledEntry) (beq j k) (λ _. (f, h.1))
      (λ _.
        if-holds (All FilledEntry) (bytes_lt k j) (λ _. (f, h))
          (λ _. (h.0, insert-all_filled k l m f h.1)))

-- The element that the map has or gets.
there_or :
    (k : Bytes) (l : LocationBlock) (m : LocationMap)
    → FilledLocation l
    → All FilledEntry m
    → FilledLocation (elim (lookup k m) [ none ↦ l | some old ↦ old ])
unfolding lookup
there_or k l [] f h = f
there_or k l ((j, w) ∷ m) f h =
    if-holds (λ (o : Option LocationBlock). FilledLocation (elim o [ none ↦ l | some old ↦ old ]))
      (beq j k) (λ _. h.0) (λ _. there_or k l m f h.1)

pub add_location-Ported :
    (l : LocationBlock) (s : ServerBlock) → FilledLocation l → Ported s → Ported (add_location l s)
unfolding add_location
add_location-Ported l s f h = record {
  in_range = h.in_range;
  filled = h.filled;
  all_filled =
      insert-all_filled l.path _ s.locations (there_or l.path l s.locations f h.all_filled)
        h.all_filled;
}
