-- ===== src/Config/Mapper/Effects.antt =====
-- What the mapper ensures: its servers have ports in range, or `ConfigError` is thrown.
use server_x.Common.{
  ◌≡◌, ◌≢◌, ◌∙◌, refl, sym, ap, false, Bool-cases, inl, inr, beq_iff, true-not_false, if-false, ℕ,
  Bool, Option, none, some, List, [], ◌∷◌, arith, if-holds, All, Bytes, codes, beq, Dict, lookup,
  Ensures, value_with, refused, ensures-bind,
}
use mathlib.Core.Path.{subst}
use server_x.Config.Argument.{boolean}
use server_x.Config.Block.{Block}
use server_x.Config.Block.Filled.{Filled, is_read_first, new_block-Filled, push_arg-Filled}
use server_x.Config.Location.{LocationBlock}
use server_x.Config.Server.{ServerBlock, new_server, has_location}
use server_x.Config.Endpoint.{IpInfo}
use server_x.Config.Endpoint.Ports.{InRange}
use server_x.Config.Lexer.{Token}
use server_x.Config.Parser.{ConfigNode, ServerNode}
use server_x.Config.Parser.Errors.{Named, LocationsNamed}
use server_x.Config.Directives.{
  Target, of_server, of_location, block_of, with_block, set_endpoint, set_auto_index,
}
use server_x.Config.Directives.Effects
use server_x.Config.Mapper.{
  Directive, handlers, process_with, process, process_all, as_location, as_server,
  map_location_block, handle_location_block, map_locations, map_server_block, map_servers,
}
use server_x.Config.Mapper.Locations.{
  FilledLocation, FilledEntry, Ported, named_location-Ensures, complete-Ensures,
  add_location-Ported,
}

-- A server whose port is in range, and a location.
pub data IsServer : Target → Type 0 where
  a_server :
      (s : ServerBlock)
      → InRange s.port
      → Filled s.block
      → s.locations ≡ []
      → IsServer (of_server s)

pub data IsLocation : Target → Type 0 where
  a_location : (l : LocationBlock) → Filled l.block → IsLocation (of_location l)

IsServer-with_block : (t : Target) (b : Block) → IsServer t → Filled b → IsServer (with_block b t)
IsServer-with_block t b (a_server s h f e) g = a_server _ h g e

IsServer-Filled : (t : Target) → IsServer t → Filled (block_of t)
IsServer-Filled t (a_server s h f e) = f

IsLocation-with_block :
    (t : Target) (b : Block) → IsLocation t → Filled b → IsLocation (with_block b t)
IsLocation-with_block t b (a_location l f) g = a_location _ g

IsLocation-Filled : (t : Target) → IsLocation t → Filled (block_of t)
IsLocation-Filled t (a_location l f) = f

-- What every one of the directives keeps.
abbrev Keeps : (Target → Type 0) → Directive → Type 0
Keeps P d = (t : Target) (args : List Token) → P t → Ensures P (d t args)

abbrev AllKeep : (Target → Type 0) → Dict Directive → Type 0
AllKeep P [] = Unit
AllKeep P ((_, d) ∷ m) = Keeps P d × AllKeep P m

-- The directives whose first value is read have a handler.
handled :
    (inet_pton : Bytes → Bool) (key : Bytes)
    → lookup key (handlers inet_pton) ≡ none
    → is_read_first key ≡ false
unfolding is_read_first lookup beq
handled inet_pton key n = elim (Bool-cases (beq key (codes "root"))) [
  | inl e ↦
      absurd
        (root_handled (ap (λ k. lookup k (handlers inet_pton)) (sym ((beq_iff key _).0 e)) ∙ n))
  | inr e ↦ elim (Bool-cases (beq key (codes "upload_path"))) [
    | inr f ↦ rw (e, f) refl
    | inl f ↦
        absurd
          (upload_handled (ap (λ k. lookup k (handlers inet_pton)) (sym ((beq_iff key _).0 f)) ∙ n))
  ]
]
  where
    root_handled : lookup (codes "root") (handlers inet_pton) ≢ none
    root_handled q = cc

    upload_handled : lookup (codes "upload_path") (handlers inet_pton) ≢ none
    upload_handled q = cc

module _ (inet_pton : Bytes → Bool) (P : Target → Type 0)
    (filled : (t : Target) → P t → Filled (block_of t))
    (keeps : (t : Target) (b : Block) → P t → Filled b → P (with_block b t))
    (endpoint : (t : Target) (i : IpInfo) → P t → InRange i.port → Ensures P (set_endpoint i t))
    (auto : (t : Target) (b : Bool) → P t → Ensures P (set_auto_index b t)) where
  handlers-AllKeep : AllKeep P (handlers inet_pton)
  handlers-AllKeep = (
    (λ t args h. Effects.listen-Ensures P filled keeps inet_pton t args (λ i r. endpoint t i h r)),
    (
      (λ t args h. Effects.root-Ensures P filled keeps t args h),
      (
        (λ t args h. Effects.error_page-Ensures P filled keeps t args h),
        (
          (λ t args h. Effects.return_to-Ensures P filled keeps t args h),
          (
            (λ t args h. Effects.client_max_body_size-Ensures P filled keeps t args h),
            (
              (λ t args h. Effects.index-Ensures P filled keeps t args h),
              (
                (λ t args h. Effects.alias-Ensures P filled keeps t args h),
                (
                  (λ t args h. Effects.server_name-Ensures P filled keeps t args h),
                  (
                    (λ t args h. Effects.upload_path-Ensures P filled keeps t args h),
                    (
                      (λ t args h. Effects.allow_methods-Ensures P filled keeps t args h),
                      (
                        (λ t args h. Effects.cgi_pass-Ensures P filled keeps t args h),
                        (
                          (λ t args h.
                              Effects.autoindex-Ensures P filled keeps t args (λ b. auto t b h)),
                          tt,
                        ),
                      ),
                    ),
                  ),
                ),
              ),
            ),
          ),
        ),
      ),
    ),
  )

  process_with-Keeps :
      (key : Bytes) (m : Dict Directive)
      → AllKeep P m
      → (lookup key m ≡ none → is_read_first key ≡ false)
      → Keeps P (process_with inet_pton (lookup key m) key)
  unfolding process_with lookup
  process_with-Keeps key [] hm k t args h =
      Effects.add_args-Ensures P filled keeps key args t h
        λ r. absurd (true-not_false (sym r ∙ k refl))
  process_with-Keeps key ((j, d) ∷ m) hm k t args h =
      if-holds (λ o. Ensures P (process_with inet_pton o key t args)) (beq j key)
        (λ _. hm.0 t args h)
        (λ e. process_with-Keeps key m hm.1 (λ n. k (if-false _ _ e ∙ n)) t args h)

  process_all-Ensures :
      (t : Target) (m : Dict (List Token)) → P t → Ensures P (process_all inet_pton t m)
  unfolding process_all process
  process_all-Ensures t [] h = value_with t h
  process_all-Ensures t ((key, args) ∷ m) h =
      ensures-bind P _
        (process_with-Keeps key (handlers inet_pton) handlers-AllKeep (handled inet_pton key) t args
          h)
        λ t1 h1. process_all-Ensures t1 m h1

set_endpoint-IsServer :
    (t : Target) (i : IpInfo) → IsServer t → InRange i.port → Ensures IsServer (set_endpoint i t)
unfolding set_endpoint
set_endpoint-IsServer t i (a_server s h f e) r =
    value_with _ (a_server _ (port_in_range i.port r) f e)
  where
    port_in_range :
        (o : Option ℕ) → InRange o → InRange (some (elim o [ none ↦ 9191 | some p ↦ p ]))
    port_in_range none r = (omega arith, omega arith)
    port_in_range (some p) r = r

set_auto_index-IsServer :
    (t : Target) (b : Bool) → IsServer t → Ensures IsServer (set_auto_index b t)
unfolding set_auto_index
set_auto_index-IsServer t b (a_server s h f e) = refused

set_endpoint-IsLocation :
    (t : Target) (i : IpInfo)
    → IsLocation t
    → InRange i.port
    → Ensures IsLocation (set_endpoint i t)
unfolding set_endpoint
set_endpoint-IsLocation t i (a_location l f) r = refused

set_auto_index-IsLocation :
    (t : Target) (b : Bool) → IsLocation t → Ensures IsLocation (set_auto_index b t)
unfolding set_auto_index
set_auto_index-IsLocation t b (a_location l f) =
    value_with _ (a_location _ (push_arg-Filled (codes "autoindex") (boolean b) l.block f))

as_location-Ensures : (t : Target) → IsLocation t → Ensures FilledLocation (as_location t)
unfolding as_location
as_location-Ensures t (a_location l f) = value_with l f

as_server-Ensures : (t : Target) → IsServer t → Ensures Ported (as_server t)
unfolding as_server
as_server-Ensures t (a_server s h f e) =
    value_with s
      (record { in_range = h; filled = f; all_filled = subst (All FilledEntry) (sym e) tt })

module _ (inet_pton : Bytes → Bool) where
  map_location_block-Ensures :
      (node : ConfigNode) → Named node → Ensures FilledLocation (map_location_block inet_pton node)
  unfolding map_location_block
  map_location_block-Ensures node n =
      ensures-bind FilledLocation _ (named_location-Ensures node.args n) λ l f.
        ensures-bind IsLocation _
          (process_all-Ensures inet_pton IsLocation IsLocation-Filled IsLocation-with_block
            set_endpoint-IsLocation set_auto_index-IsLocation (of_location l) node.directives
            (a_location l f))
          as_location-Ensures

  handle_location_block-Ensures :
      (s : ServerBlock) (node : ConfigNode)
      → Ported s
      → Named node
      → Ensures Ported (handle_location_block inet_pton s node)
  unfolding handle_location_block
  handle_location_block-Ensures s node h n =
      ensures-bind FilledLocation _ (map_location_block-Ensures node n) λ l f.
        if-holds (Ensures Ported) (has_location l s) (λ _. value_with _ h)
          (λ _.
            ensures-bind FilledLocation _ (complete-Ensures l s f h.filled)
              λ l1 f1. value_with _ (add_location-Ported l1 s f1 h))

  map_locations-Ensures :
      (s : ServerBlock) (ns : List ConfigNode)
      → Ported s
      → All Named ns
      → Ensures Ported (map_locations inet_pton s ns)
  unfolding map_locations
  map_locations-Ensures s [] h n = value_with s h
  map_locations-Ensures s (node ∷ ns) h n =
      ensures-bind Ported _ (handle_location_block-Ensures s node h n.0)
        λ s1 h1. map_locations-Ensures s1 ns h1 n.1

  map_server_block-Ensures :
      (n : ServerNode) → LocationsNamed n → Ensures Ported (map_server_block inet_pton n)
  unfolding map_server_block
  map_server_block-Ensures n h =
      ensures-bind Ported _
        (ensures-bind IsServer _
          (process_all-Ensures inet_pton IsServer IsServer-Filled IsServer-with_block
            set_endpoint-IsServer set_auto_index-IsServer (of_server new_server) n.node.directives
            (a_server new_server tt (new_block-Filled (codes "server")) refl))
          as_server-Ensures)
        λ s hs. map_locations-Ensures s n.children hs h

  pub map_servers-Ensures :
      (ns : List ServerNode)
      → All LocationsNamed ns
      → Ensures (All Ported) (map_servers inet_pton ns)
  unfolding map_servers
  map_servers-Ensures [] h = value_with [] tt
  map_servers-Ensures (n ∷ ns) h = ensures-bind Ported _ (map_server_block-Ensures n h.0) λ s hs.
      ensures-bind (All Ported) _ (map_servers-Ensures ns h.1) λ rest hr. value_with _ (hs, hr)
