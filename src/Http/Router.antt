-- ===== src/Http/Router.antt =====
-- src/http/Router.cpp: the server and the location of a request, and the handler that answers it.
-- The handlers' own work, and the error pages, are not modelled here.
pub mod Safety
use server_x.Common.{
  ℕ, Bool, true, Option, none, some, leb, if◌then◌else◌, codes, Result, returns, throws, ◌>>=◌,
}
use server_x.Config.Block.{has, get_raw_values}
use server_x.Config.Location.{LocationBlock, has_cgi_pass}
use server_x.Config.Server.{ServerBlock, contains, match_location}
use server_x.Config.Servers.{ServerBlockMap, get_server}
use server_x.Http.Status.{HttpStatus, value, not_found, method_not_allowed, internal_server_error}
use server_x.Http.Headers
use server_x.Http.Request.{Method, get, head, post, delete, Request, method_to_string}

-- The location is asked of the server by the whole target, the query included.
located : Request → Option ServerBlock → Request
located r none = record r { server = none }
located r (some s) = record r { server = some s; location = match_location s r.start_line.uri }

unfoldable pub match_server_and_location : ServerBlockMap → ℕ → Request → Result Request
unfolding located
match_server_and_location config port r =
    get_server port (Headers.get (codes "Host") r.headers) config >>= λ s. returns (located r s)

unfoldable pub is_allowed_at : Option LocationBlock → Method → Result Bool
unfolding method_to_string contains
is_allowed_at none m = returns true
is_allowed_at (some l) m =
    if has (codes "allow_methods") l.block
    then (get_raw_values (codes "allow_methods") l.block >>= λ allowed.
        returns (contains allowed (method_to_string m)))
    else returns true

unfoldable pub is_method_allowed : Request → Result Bool
unfolding is_allowed_at
is_method_allowed r = is_allowed_at r.location r.start_line.method

pub data Handler : Type 0 where
  cgi redirect file_delete file_upload head_header directory_listing static_file : Handler

-- What `executeHandler` does: set a status, or call a handler.
pub data Route : Type 0 where
  answer : HttpStatus → Route
  handle : Handler → Route

unfoldable pub handler_at : LocationBlock → Method → Handler
handler_at l m =
    if has_cgi_pass l then cgi else if has (codes "return") l.block then redirect else (elim m [
      | delete ↦ file_delete
      | post ↦ file_upload
      | head ↦ head_header
      | _ ↦ if l.auto_index then directory_listing else static_file
    ])

route_at : Option ServerBlock → Option LocationBlock → Request → Result Route
unfolding is_method_allowed handler_at
route_at (some s) (some l) r = is_method_allowed r >>= λ allowed.
    if allowed
    then returns (handle (handler_at l r.start_line.method))
    else returns (answer method_not_allowed)
route_at _ _ r = returns (answer not_found)

unfoldable pub execute_handler : Request → Result Route
unfolding route_at
execute_handler r = route_at r.server r.location r

-- The `catch` clauses of `dispatch`.
caught : Result Route → Route
caught (returns r) = r
caught (throws e) = answer internal_server_error

-- `dispatch`, up to the handler: a request with an error status is not routed.
unfoldable pub dispatch : Request → Route
unfolding execute_handler value caught
dispatch r = if leb 400 (value r.status) then answer r.status else caught (execute_handler r)
