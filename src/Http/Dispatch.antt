-- ===== src/Http/Dispatch.antt =====
-- src/http/Router.cpp, `dispatch` with what the handlers and the error pages do. The CGI handler,
-- which starts a process, is an argument, and so are the texts of exceptions.
mod Tests
pub mod Bodies
use server_x.Common.{
  ℕ, false, List, [], ltb, leb, if◌then◌else◌, Bytes, Exception, Result, returns, throws, ◌>>=◌,
}
use server_x.Http.Status.{value, internal_server_error}
use server_x.Http.Request.{Method, head, Request}
use server_x.Http.MimeTypes.{MimeTypes}
use server_x.Http.Files.{FileSystem, Action}
use server_x.Http.Handlers.{redirect, file_delete, head_header, static_file}
use server_x.Http.UploadHandler.{UploadSystem, file_upload}
use server_x.Http.Listing.{directory_listing}
use server_x.Http.Errors.{Caches, handle_error}
use server_x.Http.Response.{Response, set_status, set_status_message, set_no_body}
use server_x.Http.Router
use server_x.Http.Router.{Handler, Route, answer, handle, execute_handler}

-- What the router has at hand.
pub record Context : Type 0 where
  pub fs : FileSystem
  pub uploads : UploadSystem
  pub mime : MimeTypes
  pub format_time : ℕ → Bytes
  pub cgi : Request → Response → Result Response
  pub what : Exception → Bytes

abbrev without_action : Result Response → Result (Response × List Action)
without_action m = m >>= λ r. returns (r, [])

module _ (ctx : Context) where
  unfoldable pub run_handler : Handler → Request → Response → Result (Response × List Action)
  unfolding redirect file_delete file_upload head_header directory_listing static_file
  run_handler Router.cgi req res = without_action (ctx.cgi req res)
  run_handler Router.redirect req res = without_action (redirect req res)
  run_handler Router.file_delete req res = file_delete ctx.fs req res
  run_handler Router.file_upload req res = returns (file_upload ctx.uploads req res)
  run_handler Router.head_header req res = without_action (head_header ctx.fs ctx.mime req res)
  run_handler Router.directory_listing req res =
      without_action (directory_listing ctx.fs ctx.mime ctx.format_time req res)
  run_handler Router.static_file req res = without_action (static_file ctx.fs ctx.mime req res)

  -- `executeHandler`.
  run_route : Request → Response → Route → Result (Response × List Action)
  unfolding run_handler set_status
  run_route req res (answer s) = returns (set_status s res, [])
  run_route req res (handle h) = run_handler h req res

  -- The `catch` clauses: what a handler throws comes before it has changed the response.
  caught : Response → Result (Response × List Action) → Response × List Action
  unfolding set_status_message
  caught res (returns r) = r
  caught res (throws e) = (set_status_message internal_server_error (ctx.what e) res, [])

  strip : Method → Response → Response
  unfolding set_no_body
  strip head r = set_no_body false r
  strip _ r = r

  -- Behind the handler: an error gets a page.
  finish : Caches → Request → Response → Response × Caches
  unfolding strip value handle_error
  finish cs req r =
      let page = handle_error ctx.fs.file_size ctx.mime cs req r in
      if ltb (value r.status_code) 400
      then (strip req.start_line.method r, cs)
      else (strip req.start_line.method page.0, page.1)

  -- `dispatch`.
  unfoldable pub dispatch : Caches → Request → Response → (Response × Caches) × List Action
  unfolding finish caught run_route execute_handler value set_status handle_error
  dispatch cs req res =
      let done = caught res (execute_handler req >>= run_route req res) in
      if leb 400 (value req.status)
      then (handle_error ctx.fs.file_size ctx.mime cs req (set_status req.status res), [])
      else (finish cs req done.0, done.1)
