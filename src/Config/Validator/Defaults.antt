-- ===== src/Config/Validator/Defaults.antt =====
-- What the validator adds, an address and a port to every server, and what it leaves.
use server_x.Common.{
  codes, ℕ, ◌≤◌, ◌<◌, ◌≡◌, refl, true, Option, none, some, List, [], ◌∷◌, map, arith, if-holds, All,
  Ensures, value_with, refused, ensures-bind,
}
use server_x.Config.Endpoint.Ports.{InRange}
use server_x.Config.Server.{ServerBlock, LocationMap}
use server_x.Config.Argument.{string}
use server_x.Config.Block.{Block, has}
use server_x.Config.Block.Filled.{Filled, add-Filled}
use server_x.Config.Mapper.Locations.{Ported, FilledEntry}
use server_x.Config.Validator.{
  validate_index, validate_location, validate_locations, validate_server,
  validate_global_constraints, validate,
}
use server_x.Config.Validator.Listeners.{all_listeners, all_differ}
use server_x.Config.Validator.Distinct.{validate_global_constraints-distinct}

-- A socket can be bound for the server.
pub record Listening (s : ServerBlock) : Type 0 where
  pub at : ℕ
  pub is_port : s.port ≡ some at
  pub positive : 0 < at
  pub bounded : at ≤ 65535

port_Listening :
    (s : ServerBlock) (o : Option ℕ) → s.port ≡ o → InRange o → Listening (validate_server s)
unfolding validate_server
port_Listening s none e r = record {
  at = 9191;
  is_port = rw e refl;
  positive = omega arith;
  bounded = omega arith;
}
port_Listening s (some p) e r = record {
  at = p;
  is_port = rw e refl;
  positive = r.0;
  bounded = r.1;
}

validate_server-Listening : (s : ServerBlock) → Ported s → Listening (validate_server s)
validate_server-Listening s h = port_Listening s s.port refl h.in_range

All-Listening : (ss : List ServerBlock) → All Ported ss → All Listening (map validate_server ss)
All-Listening [] h = tt
All-Listening (s ∷ ss) h = (validate_server-Listening s h.0, All-Listening ss h.1)

-- The directives of a server and its locations whose first value is read have one.
abbrev pub FilledServer : ServerBlock → Type 0
FilledServer s = Filled s.block × All FilledEntry s.locations

validate_index-Filled : (b : Block) → Filled b → Filled (validate_index b)
unfolding validate_index
validate_index-Filled b f =
    if-holds Filled (has (codes "index") b) (λ _. f)
      (λ _. add-Filled (codes "index") (string (codes "index.html") ∷ []) b f (λ _. omega arith))

validate_locations-Filled :
    (m : LocationMap) → All FilledEntry m → All FilledEntry (validate_locations m)
unfolding validate_locations validate_location
validate_locations-Filled [] h = tt
validate_locations-Filled ((k, l) ∷ m) h =
    (validate_index-Filled l.block h.0, validate_locations-Filled m h.1)

All-Filled : (ss : List ServerBlock) → All Ported ss → All FilledServer (map validate_server ss)
unfolding validate_server
All-Filled [] h = tt
All-Filled (s ∷ ss) h = (
  (validate_index-Filled s.block h.0.filled, validate_locations-Filled s.locations h.0.all_filled),
  All-Filled ss h.1,
)

-- The servers that are accepted, all of them listening, with values, and none in another's way.
pub record Valid (ss : List ServerBlock) : Type 0 where
  pub listening : All Listening ss
  pub filled : All FilledServer ss
  pub differ : all_differ (all_listeners ss) ≡ true

constraints-Ensures :
    (ss : List ServerBlock)
    → Ensures (λ _. all_differ (all_listeners ss) ≡ true) (validate_global_constraints ss)
constraints-Ensures ss = rw (validate_global_constraints-distinct ss) (
    if-holds (Ensures (λ _. all_differ (all_listeners ss) ≡ true)) (all_differ (all_listeners ss))
      (λ e. value_with tt e) (λ _. refused))

pub validate-Ensures : (ss : List ServerBlock) → All Ported ss → Ensures Valid (validate ss)
unfolding validate
validate-Ensures [] h = refused
validate-Ensures (s ∷ ss) h =
    ensures-bind _ _ (constraints-Ensures (map validate_server (s ∷ ss))) λ _ d.
      value_with _ (record {
        listening = All-Listening (s ∷ ss) h;
        filled = All-Filled (s ∷ ss) h;
        differ = d;
      })
