-- ===== src/Config/Servers/Choice.antt =====
-- Which server answers, told from the list of the servers in the file alone.
use server_x.Common.{
  Bool, ◌==◌, ◌||◌, find_byte, find_byte-append, take-length_append, codes, beq, lookup, map,
  returns, throws, out_of_range, ◌>>=◌, true-not_false, ℕ, true, false, Option, none, some, List,
  [], ◌∷◌, ◌++◌, append_assoc, append-nil, ◌≡◌, refl, sym, ap, ◌∙◌, arith, ==_iff, if◌then◌else◌,
  Bytes, Bool-cases, inl, inr,
}
use server_x.Config.Argument.{Argument, get_raw_value}
use server_x.Config.Block.{has, get, get_raw_values}
use server_x.Config.Server.{ServerBlock, contains, match_server_name}
use server_x.Config.Servers.{
  is_named, first_named, ServerBlockMap, same_port, blocks_at, add_server, add_servers, choose,
  host_name, get_server,
}

-- The servers of the file that listen on the port, in their order.
listening : Option ℕ → List ServerBlock → List ServerBlock
unfolding same_port
listening port [] = []
listening port (s ∷ ss) =
    let rest = listening port ss in if same_port s.port port then s ∷ rest else rest

-- The same, of a number.
listens : ℕ → Option ℕ → Bool
listens port none = false
listens port (some p) = p == port

unfoldable pub at_port : ℕ → List ServerBlock → List ServerBlock
unfolding listens
at_port port [] = []
at_port port (s ∷ ss) = let rest = at_port port ss in if listens port s.port then s ∷ rest else rest

listens-same_port : (port : ℕ) (o : Option ℕ) → same_port o (some port) ≡ listens port o
unfolding listens same_port
listens-same_port port none = refl
listens-same_port port (some p) = refl

listening-at_port : (port : ℕ) (ss : List ServerBlock) → listening (some port) ss ≡ at_port port ss
unfolding listening at_port
listening-at_port port [] = refl
listening-at_port port (s ∷ ss) = rw (listens-same_port port s.port, listening-at_port port ss) refl

-- The blocks of a port; none where the map has no entry.
abbrev entry : Option (List ServerBlock) → List ServerBlock
entry none = []
entry (some blocks) = blocks

same_port_iff : (a b : Option ℕ) → same_port a b ≡ true → a ≡ b
unfolding same_port
same_port_iff none none e = refl
same_port_iff (some a) (some b) e = ap some ((==_iff a b).0 e)
same_port_iff none (some b) e = cc
same_port_iff (some a) none e = cc

same_port_refl : (a : Option ℕ) → same_port a a ≡ true
unfolding same_port
same_port_refl none = refl
same_port_refl (some a) = ground arith

agree : (p q r : Option ℕ) → same_port p q ≡ true → same_port q r ≡ same_port p r
agree p q r e = ap (λ x. same_port x r) (sym (same_port_iff p q e))

apart : (p q r : Option ℕ) → same_port p q ≡ false → same_port p r ≡ true → same_port q r ≡ false
apart p q r e t = elim (Bool-cases (same_port q r)) [
  | inr f ↦ f
  | inl f ↦
      let same : p ≡ q = same_port_iff p r t ∙ sym (same_port_iff q r f) in
      absurd (true-not_false (sym (same_port_refl p) ∙ ap (same_port p) same ∙ e))
]

entry-add_server :
    (port : Option ℕ) (s : ServerBlock) (m : ServerBlockMap)
    → entry (blocks_at port (add_server s m)) ≡ entry (blocks_at port m) ++ listening port (s ∷ [])
unfolding blocks_at add_server listening
entry-add_server port s [] = ground arith
entry-add_server port s ((p, blocks) ∷ m) = elim (Bool-cases (same_port p s.port)) [
  | inl e ↦ elim (Bool-cases (same_port p port)) [
    | inl f ↦ simp (e, f, agree p s.port port e)
    | inr f ↦ simp (e, f, agree p s.port port e, append-nil)
  ]
  | inr e ↦ elim (Bool-cases (same_port p port)) [
    | inl f ↦ simp (e, f, apart p s.port port e f, append-nil)
    | inr f ↦ simp (e, f, entry-add_server port s m)
  ]
]

entry-listening_nil :
    (port : Option ℕ) (m : ServerBlockMap)
    → entry (blocks_at port m) ≡ entry (blocks_at port m) ++ listening port []
unfolding listening
entry-listening_nil port m = sym (append-nil (entry (blocks_at port m)))

listening-cons :
    (port : Option ℕ) (s : ServerBlock) (ss : List ServerBlock)
    → listening port (s ∷ []) ++ listening port ss ≡ listening port (s ∷ ss)
unfolding listening
listening-cons port s ss = ground arith

entry-add_servers :
    (port : Option ℕ) (m : ServerBlockMap) (ss : List ServerBlock)
    → entry (blocks_at port (add_servers m ss)) ≡ entry (blocks_at port m) ++ listening port ss
unfolding add_servers
entry-add_servers port m [] = entry-listening_nil port m
entry-add_servers port m (s ∷ ss) =
    entry-add_servers port (add_server s m) ss
    ∙ ap (λ l. l ++ listening port ss) (entry-add_server port s m)
    ∙ append_assoc (entry (blocks_at port m)) (listening port (s ∷ [])) (listening port ss)
    ∙ ap (◌++◌ (entry (blocks_at port m))) (listening-cons port s ss)

choose-entry :
    (host : Bytes) (o : Option (List ServerBlock)) → choose host o ≡ choose host (some (entry o))
choose-entry host none = refl
choose-entry host (some blocks) = refl

get_server-eq :
    (port : ℕ) (host : Bytes) (m : ServerBlockMap)
    → get_server port host m ≡ choose (host_name host) (blocks_at (some port) m)
unfolding get_server
get_server-eq port host m = refl

blocks_at-nil : (port : Option ℕ) → entry (blocks_at port []) ≡ []
unfolding blocks_at
blocks_at-nil port = refl

get_server-choose :
    (port : ℕ) (host : Bytes) (servers : List ServerBlock)
    → get_server port host (add_servers [] servers)
      ≡ choose (host_name host) (some (at_port port servers))
get_server-choose port host servers =
    let o = blocks_at (some port) (add_servers [] servers) in
    get_server-eq port host (add_servers [] servers)
    ∙ choose-entry (host_name host) o
    ∙ ap (λ l. choose (host_name host) (some l))
        (entry-add_servers (some port) [] servers
          ∙ ap (λ l. l ++ listening (some port) servers) (blocks_at-nil (some port))
          ∙ listening-at_port port servers)

-- The header `Host`: a name, or a name and a port behind a colon.
pub data IsHost : Bytes → Bytes → Type 0 where
  bare : (name : Bytes) → find_byte b':' name ≡ none → IsHost name name
  with_port : (name port : Bytes) → find_byte b':' name ≡ none → IsHost (name ++ (b':' ∷ port)) name

host_name-IsHost : (header name : Bytes) → IsHost header name → host_name header ≡ name
unfolding host_name
host_name-IsHost header name (bare _ n) = rw n refl
host_name-IsHost header name (with_port _ port n) =
    rw (find_byte-append b':' name port n) (take-length_append name (b':' ∷ port))

-- The arguments of `server_name`, of which one is the name.
unfoldable pub is_one_of : Bytes → List Argument → Bool
is_one_of name [] = false
is_one_of name (a ∷ args) = beq (get_raw_value a) name || is_one_of name args

unfoldable pub names_it : Bytes → ServerBlock → Bool
unfolding is_one_of
names_it name s = elim (lookup (codes "server_name") s.block.directives) [
  | none ↦ false
  | some [] ↦ true
  | some (a ∷ args) ↦ is_one_of name (a ∷ args)
]

-- The first server of a list that has the name, else the first of all.
unfoldable pub first_with : Bytes → List ServerBlock → Option ServerBlock
unfolding names_it
first_with name [] = none
first_with name (s ∷ ss) = let rest = first_with name ss in if names_it name s then some s else rest

unfoldable pub or_first : Option ServerBlock → List ServerBlock → Option ServerBlock
or_first (some s) ss = some s
or_first none [] = none
or_first none (s ∷ ss) = some s

contains-is_one_of :
    (name : Bytes) (args : List Argument)
    → contains (map get_raw_value args) name ≡ is_one_of name args
unfolding contains is_one_of
contains-is_one_of name [] = refl
contains-is_one_of name (a ∷ args) = rw (contains-is_one_of name args) refl

is_named-names_it : (name : Bytes) (s : ServerBlock) → is_named name s ≡ returns (names_it name s)
unfolding is_named names_it has get_raw_values get match_server_name
is_named-names_it name s = by_names (lookup (codes "server_name") s.block.directives)
  where
    by_names :
        (o : Option (List Argument))
        → (if (elim o [ none ↦ false | some _ ↦ true ])
            then ((elim o [ none ↦ throws out_of_range | some args ↦ returns args ] >>= λ args.
                  returns (map get_raw_value args))
                >>= λ names. returns (match_server_name names name))
            else returns false)
          ≡ returns (elim o [
            | none ↦ false
            | some [] ↦ true
            | some (a ∷ args) ↦ is_one_of name (a ∷ args)
          ])
    by_names none = refl
    by_names (some []) = refl
    by_names (some (a ∷ args)) = ap returns (contains-is_one_of name (a ∷ args))

first_named-first_with :
    (name : Bytes) (fallback : ServerBlock) (ss rest : List ServerBlock)
    → (first_named name fallback ss >>= λ s. returns (some s))
      ≡ returns (or_first (first_with name ss) (fallback ∷ rest))
unfolding first_named first_with or_first
first_named-first_with name fallback [] rest = refl
first_named-first_with name fallback (s ∷ ss) rest = elim (Bool-cases (names_it name s)) [
  | inl e ↦ rw (is_named-names_it name s, e) refl
  | inr e ↦ rw (is_named-names_it name s, e) (first_named-first_with name fallback ss rest)
]

choose-first_with :
    (name : Bytes) (ss : List ServerBlock)
    → choose name (some ss) ≡ returns (or_first (first_with name ss) ss)
unfolding first_with or_first
choose-first_with name [] = refl
choose-first_with name (s ∷ ss) = first_named-first_with name s (s ∷ ss) ss

-- For the servers of a file, `getServer` answers, of those that listen on the port in the order of
-- the file, the first of which an argument of `server_name` is the host, the port behind a colon
-- left out; a `server_name` without arguments fits every host. If there is none it answers the first
-- that listens on the port, and no server if none listens there.
pub get_server-listening :
    (port : ℕ) (header name : Bytes) (servers : List ServerBlock)
    → IsHost header name
    → get_server port header (add_servers [] servers)
      ≡ returns (or_first (first_with name (at_port port servers)) (at_port port servers))
get_server-listening port header name servers h =
    get_server-choose port header servers
    ∙ ap (λ n. choose n (some (at_port port servers))) (host_name-IsHost header name h)
    ∙ choose-first_with name (at_port port servers)
