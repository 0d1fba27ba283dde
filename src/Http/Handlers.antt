-- ===== src/Http/Handlers.antt =====
-- src/http/handlers: what the handlers but the CGI one do to the response, and to the file system.
-- A handler gets the response of `Response::clear` or what an earlier step left of it.
pub mod Deletes
pub mod Returns
use server_x.Common.{
  ℕ, zero, suc, Bool, true, false, not, ◌||◌, Option, none, some, List, [], ◌∷◌, ◌++◌, ◌==◌,
  if◌then◌else◌, take, Bytes, codes, beq, is_empty, rfind_byte, get_file_extension, ends_in_slash,
  Result, returns, throws, ◌>>=◌,
}
use server_x.Config.Argument.{Argument, integer, evaluate}
use server_x.Config.Block
use server_x.Config.Block.{has, get, index_files}
use server_x.Config.Location.{LocationBlock}
use server_x.Http.Status.{
  HttpStatus, value, ok, no_content, moved_permanently, found, forbidden, not_found,
  method_not_allowed, conflict, internal_server_error, unknown_status, to_http_status,
}
use server_x.Http.Headers
use server_x.Http.Request.{Request}
use server_x.Http.MimeTypes.{MimeTypes, get_mime_type}
use server_x.Http.Resolve.{resolve_path}
use server_x.Http.Files.{
  Errno, enoent, enotdir, eacces, eperm, stat_of, stat_failed, StatAnswer, FileSystem, Action,
  unlinks, removes_dir,
}
use server_x.Http.Response.{
  Response, set_status, add_header, set_no_body, set_body_in_memory, set_body_from_file,
}

-- `CHECK_FOR_SERVER_AND_LOCATION`, with the location behind it.
unfoldable pub located : {A : Type 0} → Request → A → (LocationBlock → A) → A
located r missing k = elim r.location [
  | none ↦ missing
  | some l ↦ elim r.server [ none ↦ missing | some _ ↦ k l ]
]

unfoldable pub is_redirection : ℕ → Bool
is_redirection num = num == 301 || (num == 302 || (num == 303 || (num == 307 || num == 308)))

-- `return` with a status and a text.
return_status : ℕ → HttpStatus → Bytes → Response → Response
unfolding set_status is_redirection add_header set_body_in_memory
return_status num status second res = elim status [
  | unknown_status ↦ set_status internal_server_error res
  | s ↦
      if is_redirection num
      then add_header (codes "location") second (set_status s res)
      else set_body_in_memory second (codes "text/plain") (set_status s res)
]

unfoldable pub return_with : Bytes → List Argument → Response → Response
unfolding return_status to_http_status set_status add_header evaluate
return_with host [] res = set_status internal_server_error res
return_with host (a ∷ []) res =
    add_header (codes "location") (evaluate host a) (set_status found res)
return_with host (integer num ∷ b ∷ _) res =
    return_status num (to_http_status num) (evaluate host b) res
return_with host (_ ∷ _ ∷ _) res = set_status internal_server_error res

redirect_at : Bytes → LocationBlock → Response → Result Response
unfolding has get return_with set_status
redirect_at host l res =
    if has (codes "return") l.block
    then (get (codes "return") l.block >>= λ args. returns (return_with host args res))
    else returns (set_status internal_server_error res)

-- `ReturnHandler::handle`.
unfoldable pub redirect : Request → Response → Result Response
unfolding located redirect_at set_status
redirect req res =
    located req (returns (set_status not_found res))
      λ l. redirect_at (Headers.get (codes "Host") req.headers) l res

-- The loop of `resolveIndexFile`; none is the empty text.
first_existing : (Bytes → Bool) → Bytes → List Bytes → Bytes
first_existing exists base [] = []
first_existing exists base (i ∷ is) =
    if exists (base ++ i) then base ++ i else first_existing exists base is

unfoldable pub resolve_index_file : (Bytes → Bool) → LocationBlock → Bytes → Bytes
unfolding first_existing ends_in_slash has
resolve_index_file exists l dir_path =
    if has (codes "index") l.block
    then elim (index_files l.block) [
      | throws _ ↦ []
      | returns indexes ↦
          first_existing exists (dir_path ++ (if ends_in_slash dir_path then [] else codes "/"))
            indexes
    ]
    else []

unfoldable pub is_directory_empty : List Bytes → Bool
is_directory_empty [] = true
is_directory_empty (n ∷ ns) =
    if beq n (codes ".") || beq n (codes "..") then is_directory_empty ns else false

unfoldable pub map_stat_error : Errno → HttpStatus
map_stat_error enoent = not_found
map_stat_error enotdir = not_found
map_stat_error eacces = forbidden
map_stat_error _ = internal_server_error

unfoldable pub map_delete_error : Errno → HttpStatus
map_delete_error eacces = forbidden
map_delete_error eperm = forbidden
map_delete_error _ = internal_server_error

unfoldable pub get_parent_dir : Bytes → Bytes
unfolding rfind_byte
get_parent_dir path = elim (rfind_byte b'/' path) [
  | none ↦ codes "/"
  | some zero ↦ codes "/"
  | some (suc pos) ↦ take (suc pos) path
]

module _ (fs : FileSystem) where
  deleted : Action → Option Errno → HttpStatus × List Action
  unfolding map_delete_error
  deleted a none = (ok, a ∷ [])
  deleted a (some e) = (map_delete_error e, [])

  -- The status, and what has been removed.
  unfoldable pub try_delete_path : Bytes → Bool → HttpStatus × List Action
  unfolding deleted is_directory_empty
  try_delete_path path is_dir =
      let empty : Bool = elim (fs.entries path) [
        | none ↦ false
        | some names ↦ is_directory_empty names
      ] in
      if not is_dir
      then deleted (unlinks path) (fs.unlink path)
      else if not empty
      then (conflict, [])
      else deleted (removes_dir path) (fs.rmdir path)

  finish_delete : HttpStatus × List Action → Response → Response × List Action
  unfolding set_status set_no_body value
  finish_delete (s, done) res =
      if value s == value ok
      then (set_no_body true (set_status no_content res), done)
      else (set_status s res, done)

  delete_with : Bytes → StatAnswer → Response → Response × List Action
  unfolding finish_delete try_delete_path get_parent_dir map_stat_error set_status
  delete_with path (stat_failed e) res = (set_status (map_stat_error e) res, [])
  delete_with path (stat_of st) res =
      if not (fs.writable (get_parent_dir path))
      then (set_status forbidden res, [])
      else finish_delete (try_delete_path path st.is_dir) res

  unfoldable pub delete_at : Bytes → Response → Response × List Action
  unfolding delete_with
  delete_at path res = delete_with path (fs.stat path) res

  -- `FileDeleteHandler::handle`.
  unfoldable pub file_delete : Request → Response → Result (Response × List Action)
  unfolding located has delete_at resolve_path set_status
  file_delete req res = located req (returns (set_status not_found res, [])) λ l.
      if not (has (codes "upload_path") l.block)
      then returns (set_status method_not_allowed res, [])
      else (resolve_path req >>= λ path. returns (delete_at path res))

  module _ (mime : MimeTypes) where
    opened : Bool × Response → Response
    unfolding set_status
    opened (true, res) = res
    opened (false, res) = set_status internal_server_error res

    -- The end of `StaticFileHandler::handle`: the file at `path`.
    unfoldable pub serve_file : Bytes → Response → Response
    unfolding opened set_status set_body_from_file get_mime_type get_file_extension
    serve_file path res =
        if not (fs.readable path)
        then set_status forbidden res
        else opened (
            set_body_from_file fs.file_size path (get_mime_type (get_file_extension path) mime)
              (set_status ok res))

    serve_index : Bytes → Response → Response
    unfolding serve_file set_status
    serve_index [] res = set_status not_found res
    serve_index (c ∷ cs) res = serve_file (c ∷ cs) res

    -- The path of the target with a slash behind it, and the query again.
    unfoldable pub redirect_target : Request → Bytes
    redirect_target req =
        req.start_line.path
        ++ codes "/"
        ++ (if is_empty req.start_line.query_string
            then []
            else codes "?" ++ req.start_line.query_string)

    unfoldable pub serve_directory : Request → LocationBlock → Bytes → Response → Response
    unfolding serve_index redirect_target set_status add_header ends_in_slash resolve_index_file
    serve_directory req l path res =
        if not (ends_in_slash req.start_line.path)
        then add_header (codes "Location") (redirect_target req) (set_status moved_permanently res)
        else serve_index (resolve_index_file fs.exists l path) res

    unfoldable pub serve_path : Request → LocationBlock → Bytes → Response → Response
    unfolding serve_directory serve_file set_status
    serve_path req l path res = elim (fs.stat path) [
      | stat_failed eacces ↦ set_status forbidden res
      | stat_failed _ ↦ set_status not_found res
      | stat_of st ↦ if st.is_dir then serve_directory req l path res else serve_file path res
    ]

    -- `StaticFileHandler::handle`.
    unfoldable pub static_file : Request → Response → Result Response
    unfolding located serve_path resolve_path set_status
    static_file req res =
        located req (returns (set_status internal_server_error res))
          λ l. resolve_path req >>= λ path. returns (serve_path req l path res)

    -- `HeadHeaderHandler::handle`.
    unfoldable pub head_header : Request → Response → Result Response
    unfolding static_file set_no_body
    head_header req res = static_file req res >>= λ served. returns (set_no_body false served)
