-- ===== src/Config/Parser/Meaning.antt =====
-- What the nodes of a parsed file hold, told from the file alone.
use server_x.Common.{
  ◌≡◌, refl, sym, ap, ◌∙◌, Bool-cases, inl, inr, ◌⊎◌, Bool, Dict, true, false, Option, none, some,
  List, [], ◌∷◌, ◌++◌, map, append-nil, append_assoc, if◌then◌else◌, Bytes, codes, beq, beq_iff,
  lookup, lookup-insert, Result, returns,
}
use mathlib.Core.Path.{subst}
use server_x.Config.Lexer.{Token}
use server_x.Config.Parser.{
  ConfigNode, ServerNode, new_node, new_server_node, add_to, add_directive, parse,
}
use server_x.Config.Parser.Grammar.{
  Directive, Statement, directive, location, all_servers, put_servers, with_directive,
  with_directives, with_statement, with_statements, nodes_of,
}
use server_x.Config.Parser.Print.{parse-put_servers}

abbrev or_empty : Option (List Token) → List Token
or_empty none = []
or_empty (some ts) = ts

-- The parameters of all directives of a name, in order; `none` if there is no directive of it.
unfoldable pub gathered : Bytes → List Directive → Option (List Token)
gathered k [] = none
gathered k (d ∷ ds) =
    let rest = gathered k ds in
    if beq d.name.literal k then some (d.parameters ++ or_empty rest) else rest

-- The directives of a server itself, and its locations.
unfoldable pub own : List Statement → List Directive
own [] = []
own (directive d ∷ sts) = d ∷ own sts
own (location args ds ∷ sts) = own sts

unfoldable pub locations : List Statement → List (List Token × List Directive)
locations [] = []
locations (directive d ∷ sts) = locations sts
locations (location args ds ∷ sts) = (args, ds) ∷ locations sts

pub record IsNode (args : List Token) (ds : List Directive) (n : ConfigNode) : Type 0 where
  pub arguments : n.args ≡ args
  pub parameters : (k : Bytes) → lookup k n.directives ≡ gathered k ds

pub data AreNodes : List (List Token × List Directive) → List ConfigNode → Type 0 where
  no_nodes : AreNodes [] []
  one_more :
      (args : List Token) (ds : List Directive) (n : ConfigNode)
      (ls : List (List Token × List Directive)) (ns : List ConfigNode)
      → IsNode args ds n
      → AreNodes ls ns
      → AreNodes ((args, ds) ∷ ls) (n ∷ ns)

pub record IsServer (sts : List Statement) (s : ServerNode) : Type 0 where
  pub itself : IsNode [] (own sts) s.node
  pub children : AreNodes (locations sts) s.children

pub data AreServers : List (List Statement) → List ServerNode → Type 0 where
  no_servers : AreServers [] []
  one_server :
      (sts : List Statement) (s : ServerNode) (ss : List (List Statement)) (ns : List ServerNode)
      → IsServer sts s
      → AreServers ss ns
      → AreServers (sts ∷ ss) (s ∷ ns)

-- What a name holds behind further directives.
joined : Option (List Token) → Option (List Token) → Option (List Token)
joined none o = o
joined (some ts) none = some ts
joined (some ts) (some us) = some (ts ++ us)

insert-joined :
    (k name : Bytes) (args : List Token) (m : Dict (List Token)) (o : Option (List Token))
    → lookup k (add_to name args m o) ≡ (if beq name k then joined o (some args) else lookup k m)
unfolding add_to joined
insert-joined k name args m none = lookup-insert name k args m
insert-joined k name args m (some there) = lookup-insert name k (there ++ args) m

lookup-add_to :
    (k name : Bytes) (args : List Token) (n : ConfigNode)
    → lookup k (add_directive n (name, args)).directives
      ≡ (if beq name k then joined (lookup k n.directives) (some args) else lookup k n.directives)
unfolding add_directive
lookup-add_to k name args n =
    insert-joined k name args n.directives (lookup name n.directives)
    ∙ at_name (Bool-cases (beq name k))
  where
    at_name :
        ((beq name k ≡ true) ⊎ (beq name k ≡ false))
        → (if beq name k
            then joined (lookup name n.directives) (some args)
            else lookup k n.directives)
          ≡ (if beq name k
              then joined (lookup k n.directives) (some args)
              else lookup k n.directives)
    at_name (inl e) =
        ap
          (λ j.
            if beq name k
            then joined (lookup j n.directives) (some args)
            else lookup k n.directives)
          ((beq_iff name k).0 e)
    at_name (inr e) = rw e refl

joined-none : (o : Option (List Token)) → joined o none ≡ o
unfolding joined
joined-none none = refl
joined-none (some ts) = refl

joined_twice :
    (o rest : Option (List Token)) (args : List Token)
    → joined (joined o (some args)) rest ≡ joined o (some (args ++ or_empty rest))
unfolding joined
joined_twice none none args = ap some (sym (append-nil args))
joined_twice none (some us) args = refl
joined_twice (some ts) none args = ap (λ l. some (ts ++ l)) (sym (append-nil args))
joined_twice (some ts) (some us) args = ap some (append_assoc ts args us)

lookup-with_directives :
    (k : Bytes) (n : ConfigNode) (ds : List Directive)
    → lookup k (with_directives n ds).directives ≡ joined (lookup k n.directives) (gathered k ds)
unfolding gathered
lookup-with_directives k n [] = sym (joined-none (lookup k n.directives))
lookup-with_directives k n (d ∷ ds) =
    lookup-with_directives k (with_directive n d) ds
    ∙ ap (λ o. joined o (gathered k ds)) (lookup-add_to k d.name.literal d.parameters n)
    ∙ by_name (beq d.name.literal k)
  where
    by_name :
        (b : Bool)
        → joined
            (if b
              then joined (lookup k n.directives) (some d.parameters)
              else lookup k n.directives)
            (gathered k ds)
          ≡ joined
              (lookup k n.directives)
              (if b then some (d.parameters ++ or_empty (gathered k ds)) else gathered k ds)
    by_name true = joined_twice (lookup k n.directives) (gathered k ds) d.parameters
    by_name false = refl

args-with_directives : (n : ConfigNode) (ds : List Directive) → (with_directives n ds).args ≡ n.args
unfolding add_directive
args-with_directives n [] = refl
args-with_directives n (d ∷ ds) = args-with_directives (with_directive n d) ds

with_directives-IsNode :
    (name : Bytes) (args : List Token) (ds : List Directive)
    → IsNode args ds (with_directives (record (new_node name) { args = args }) ds)
unfolding lookup joined
with_directives-IsNode name args ds = record {
  arguments = args-with_directives (record (new_node name) { args = args }) ds;
  parameters = λ k. lookup-with_directives k (record (new_node name) { args = args }) ds;
}

node-with_statements :
    (s : ServerNode) (sts : List Statement)
    → (with_statements s sts).node ≡ with_directives s.node (own sts)
unfolding own
node-with_statements s [] = refl
node-with_statements s (directive d ∷ sts) =
    node-with_statements (with_statement s (directive d)) sts
node-with_statements s (location args ds ∷ sts) =
    node-with_statements (with_statement s (location args ds)) sts

location_node : List Token × List Directive → ConfigNode
location_node (args, ds) = with_directives (record (new_node (codes "location")) { args = args }) ds

children-with_statements :
    (s : ServerNode) (sts : List Statement)
    → (with_statements s sts).children ≡ s.children ++ map location_node (locations sts)
unfolding locations location_node
children-with_statements s [] = sym (append-nil s.children)
children-with_statements s (directive d ∷ sts) =
    children-with_statements (with_statement s (directive d)) sts
children-with_statements s (location args ds ∷ sts) =
    children-with_statements (with_statement s (location args ds)) sts
    ∙ append_assoc s.children (location_node (args, ds) ∷ []) (map location_node (locations sts))

map-AreNodes : (ls : List (List Token × List Directive)) → AreNodes ls (map location_node ls)
unfolding location_node
map-AreNodes [] = no_nodes
map-AreNodes ((args, ds) ∷ ls) =
    one_more args ds _ ls _ (with_directives-IsNode (codes "location") args ds) (map-AreNodes ls)

with_statements-IsServer :
    (sts : List Statement) → IsServer sts (with_statements new_server_node sts)
with_statements-IsServer sts = record {
  itself =
      subst (IsNode [] (own sts)) (sym (node-with_statements new_server_node sts))
        (with_directives-IsNode (codes "server") [] (own sts));
  children =
      subst (AreNodes (locations sts)) (sym (children-with_statements new_server_node sts))
        (map-AreNodes (locations sts));
}

nodes_of-AreServers : (ss : List (List Statement)) → AreServers ss (nodes_of ss)
nodes_of-AreServers [] = no_servers
nodes_of-AreServers (sts ∷ ss) =
    one_server sts _ ss _ (with_statements-IsServer sts) (nodes_of-AreServers ss)

-- What `parse` returns for a file.
pub data Parsed (ss : List (List Statement)) : Result (List ServerNode) → Type 0 where
  parsed : (ns : List ServerNode) → AreServers ss ns → Parsed ss (returns ns)

-- Every file of the grammar's form is parsed: for servers whose directives and locations are named
-- and given parameters by values, no directive of a server being called "location" and every
-- location having an argument, `parse` of their tokens throws nothing and returns a node for each
-- server, with a child for each of its locations, in order. In each node a name holds the parameters
-- of all directives of that name, in order, and a name without a directive nothing; a child has the
-- location's arguments.
pub parse-Parsed :
    (ss : List (List Statement)) → all_servers ss ≡ true → Parsed ss (parse (put_servers ss))
parse-Parsed ss e =
    subst (Parsed ss) (sym (parse-put_servers ss e)) (parsed (nodes_of ss) (nodes_of-AreServers ss))
