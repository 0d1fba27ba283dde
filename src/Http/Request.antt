-- ===== src/Http/Request.antt =====
-- src/http/Request.cpp and inc/http/Request.hpp: the request line and the request, with what the
-- router puts into it. The pointers `location_` and `server_` into the configuration are the
-- blocks that they point to. Of the body's TempFile the model keeps whether it is open and what
-- has been written to it.
pub mod StartLine
use server_x.Common.{
  ℕ, ◌+◌, ◌*◌, Bool, false, Option, none, some, [], ◌∷◌, ◌==◌, if◌then◌else◌, take, drop, Bytes,
  codes, beq, is_space, find_byte,
}
use server_x.Config.Block
use server_x.Config.Block.{max_body_size}
use server_x.Config.Location.{LocationBlock}
use server_x.Config.Server.{ServerBlock}
use server_x.Http.Status.{HttpStatus, ok}
use server_x.Http.Headers
use server_x.Http.Headers.{Headers}

pub data Method : Type 0 where
  get head post put delete unknown : Method

pub record RequestStartLine : Type 0 where
  pub method : Method
  pub uri : Bytes
  pub path : Bytes
  pub query_string : Bytes
  pub version : Bytes

-- The constructor.
abbrev pub new_start_line : RequestStartLine
new_start_line = record {
  method = unknown;
  uri = [];
  path = [];
  query_string = [];
  version = codes "HTTP/1.1";
}

unfoldable pub match_http_method : Bytes → Method
match_http_method s =
    if beq s (codes "GET")
    then get
    else if beq s (codes "POST")
    then post
    else if beq s (codes "PUT")
    then put
    else if beq s (codes "DELETE")
    then delete
    else if beq s (codes "HEAD")
    then head
    else unknown

unfoldable pub method_to_string : Method → Bytes
method_to_string get = codes "GET"
method_to_string post = codes "POST"
method_to_string put = codes "PUT"
method_to_string delete = codes "DELETE"
method_to_string head = codes "HEAD"
method_to_string unknown = codes "UNKNOWN"

skip_spaces : Bytes → Bytes
unfolding is_space
skip_spaces [] = []
skip_spaces (c ∷ cs) = if is_space c then skip_spaces cs else c ∷ cs

-- A word, and what stands behind it.
word : Bytes → Bytes × Bytes
unfolding is_space
word [] = ([], [])
word (c ∷ cs) = if is_space c then ([], c ∷ cs) else (c ∷ (word cs).0, (word cs).1)

found_word : Bytes → Option (Bytes × Bytes)
unfolding word
found_word [] = none
found_word (c ∷ cs) = some (word (c ∷ cs))

-- `iss >> s`: `none` where the stream fails, which leaves `s` as it was.
unfoldable pub next_word : Bytes → Option (Bytes × Bytes)
unfolding skip_spaces found_word
next_word s = found_word (skip_spaces s)

split_uri : RequestStartLine → Option ℕ → RequestStartLine
split_uri rsl none = record rsl { path = rsl.uri; query_string = [] }
split_uri rsl (some pos) = record rsl {
  path = take pos rsl.uri;
  query_string = drop (pos + 1) rsl.uri;
}

-- `RequestStartLine::parse`: words are separated by any white space.
unfoldable pub parse_start_line : Bytes → RequestStartLine
unfolding next_word split_uri match_http_method find_byte
parse_start_line line = elim (next_word line) [
  | none ↦ new_start_line
  | some (m, r1) ↦ elim (next_word r1) [
    | none ↦ new_start_line
    | some (u, r2) ↦ elim (next_word r2) [
      | none ↦ record new_start_line { uri = u }
      | some (v, r3) ↦
          split_uri (record new_start_line { method = match_http_method m; uri = u; version = v })
            (find_byte b'?' u)
    ]
  ]
]

-- `utils::TempFile`.
pub record TempFile : Type 0 where
  pub is_open : Bool
  pub content : Bytes

abbrev pub new_temp_file : TempFile
new_temp_file = record { is_open = false; content = [] }

pub record Request : Type 0 where
  pub start_line : RequestStartLine
  pub headers : Headers
  pub body : Option TempFile
  pub location : Option LocationBlock
  pub server : Option ServerBlock
  pub status : HttpStatus
  pub remote_addr : Bytes

-- The constructor.
abbrev pub new_request : Request
new_request = record {
  start_line = new_start_line;
  headers = [];
  body = none;
  location = none;
  server = none;
  status = ok;
  remote_addr = [];
}

unfoldable pub wants_json : Request → Bool
wants_json r = beq (Headers.get (codes "Accept") r.headers) (codes "application/json")

-- `clear()` leaves the query string as it was.
unfoldable pub clear : Request → Request
clear r = record {
  start_line = record {
    method = unknown;
    uri = [];
    path = [];
    query_string = r.start_line.query_string;
    version = [];
  };
  headers = [];
  body = none;
  location = none;
  server = none;
  status = ok;
  remote_addr = [];
}

location_limit : Option LocationBlock → Option ℕ
location_limit none = none
location_limit (some l) =
    if Block.has (codes "client_max_body_size") l.block then some (max_body_size l.block) else none

server_limit : Option ServerBlock → ℕ
server_limit none = 0
server_limit (some s) =
    if Block.has (codes "client_max_body_size") s.block then max_body_size s.block else 0

unfoldable pub get_max_allowed_content_size : Request → ℕ
unfolding location_limit server_limit
get_max_allowed_content_size r =
    let limit : ℕ = elim (location_limit r.location) [
      | some n ↦ n
      | none ↦ server_limit r.server
    ] in
    if limit == 0 then 1024 * 1024 else limit
