-- ===== src/Config/Build/Ports.antt =====
-- What a configuration that is accepted says about sockets, and how any other is refused.
use server_x.Common.{
  ℕ, ◌≤◌, ◌<◌, ◌≡◌, Bool, Option, some, List, [], ◌∷◌, arith, if-holds, length, length-append, All,
  All-append, Bytes, Exception, config_error, returns, throws, Ensures, value_with, ensures-bind,
  ensures-returns, ensures-throws,
}
use server_x.Config.Lexer.{tokenize}
use server_x.Config.Parser.Errors.{LocationsNamed, parse-Ensures}
use server_x.Config.Mapper.Effects.{map_servers-Ensures}
use server_x.Config.Mapper.Locations.{Ported}
use server_x.Config.Server.{ServerBlock}
use server_x.Config.Servers.{ServerBlockMap, same_port, add_server, add_servers}
use server_x.Config.Validator.Defaults.{Listening, FilledServer, Valid, validate-Ensures}
use server_x.Config.Build.{build}

-- A port that a socket can be bound to, and a server that answers there.
pub record IsBound (e : Option ℕ × List ServerBlock) : Type 0 where
  pub at : ℕ
  pub is_port : e.0 ≡ some at
  pub positive : 0 < at
  pub bounded : at ≤ 65535
  pub answered : 1 ≤ length e.1

add_server-IsBound :
    (s : ServerBlock) (m : ServerBlockMap)
    → Listening s
    → All IsBound m
    → All IsBound (add_server s m)
unfolding add_server
add_server-IsBound s [] l h = (
  record {
    at = l.at;
    is_port = l.is_port;
    positive = l.positive;
    bounded = l.bounded;
    answered = omega arith;
  },
  tt,
)
add_server-IsBound s ((p, blocks) ∷ m) l h =
    if-holds (All IsBound) (same_port p s.port)
      (λ _. (
        record {
          at = h.0.at;
          is_port = h.0.is_port;
          positive = h.0.positive;
          bounded = h.0.bounded;
          answered = omega (arith, length-append blocks (s ∷ []));
        },
        h.1,
      ))
      (λ _. (h.0, add_server-IsBound s m l h.1))

add_servers-IsBound :
    (m : ServerBlockMap) (ss : List ServerBlock)
    → All Listening ss
    → All IsBound m
    → All IsBound (add_servers m ss)
unfolding add_servers
add_servers-IsBound m [] l h = h
add_servers-IsBound m (s ∷ ss) l h =
    add_servers-IsBound (add_server s m) ss l.1 (add_server-IsBound s m l.0 h)

-- All servers of a port are filled.
abbrev pub FilledPort : Option ℕ × List ServerBlock → Type 0
FilledPort e = All FilledServer e.1

add_server-Filled :
    (s : ServerBlock) (m : ServerBlockMap)
    → FilledServer s
    → All FilledPort m
    → All FilledPort (add_server s m)
unfolding add_server
add_server-Filled s [] f h = ((f, tt), tt)
add_server-Filled s ((p, blocks) ∷ m) f h =
    if-holds (All FilledPort) (same_port p s.port)
      (λ _. (All-append FilledServer blocks (s ∷ []) h.0 (f, tt), h.1))
      (λ _. (h.0, add_server-Filled s m f h.1))

add_servers-Filled :
    (m : ServerBlockMap) (ss : List ServerBlock)
    → All FilledServer ss
    → All FilledPort m
    → All FilledPort (add_servers m ss)
unfolding add_servers
add_servers-Filled m [] f h = h
add_servers-Filled m (s ∷ ss) f h =
    add_servers-Filled (add_server s m) ss f.1 (add_server-Filled s m f.0 h)

abbrev Built : ServerBlockMap → Type 0
Built m = All IsBound m × All FilledPort m

module _ (inet_pton : Bytes → Bool) (content : Bytes) where
  build-Ensures : Ensures Built (build inet_pton content)
  unfolding build
  build-Ensures =
      ensures-bind Valid _
        (ensures-bind (All Ported) _
          (ensures-bind (All LocationsNamed) _ (parse-Ensures (tokenize content))
            (map_servers-Ensures inet_pton))
          validate-Ensures)
        λ ss v.
          value_with _
            (add_servers-IsBound [] ss v.listening tt, add_servers-Filled [] ss v.filled tt)

  -- A text that is accepted as a configuration gives servers under ports from 1 to 65535, each with
  -- at least one server.
  pub build-IsBound : (m : ServerBlockMap) → build inet_pton content ≡ returns m → All IsBound m
  build-IsBound m e = (ensures-returns Built m build-Ensures e).0

  -- In a configuration that is accepted, the directives `root` and `upload_path`, of which the program
  -- reads the first value without a look at their number, have a value wherever a server or a
  -- location has them.
  pub build-Filled : (m : ServerBlockMap) → build inet_pton content ≡ returns m → All FilledPort m
  build-Filled m e = (ensures-returns Built m build-Ensures e).1

  -- A text that is not accepted is refused with `ConfigError`: neither is an argument, a token or a
  -- directive read where there is none, which would throw `out_of_range`, nor does the fuel of the
  -- parser's loops run out.
  pub build_error : (e : Exception) → build inet_pton content ≡ throws e → e ≡ config_error
  build_error e h = ensures-throws Built e build-Ensures h
