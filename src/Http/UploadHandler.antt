-- ===== src/Http/UploadHandler.antt =====
-- src/http/handlers/FileUploadHandler.cpp: the body of a POST request becomes a file. The messages
-- of src/http/FileUploadValidator.cpp are an argument.
pub mod Safety
use server_x.Common.{
  Bool, not, ◌&&◌, Option, none, some, List, [], ◌∷◌, ◌++◌, ◌==◌, if◌then◌else◌, length, drop,
  Bytes, codes, beq, is_empty, starts_with, find_sub, is_some, ends_in_slash, without_last_slash,
  join_paths, returns, throws,
}
use server_x.Config.Block
use server_x.Config.Block.{has, get_first_raw_value}
use server_x.Config.Location.{LocationBlock}
use server_x.Config.Server.{ServerBlock}
use server_x.Http.Status.{
  HttpStatus, created, bad_request, not_found, method_not_allowed, conflict, length_required,
  internal_server_error, not_implemented,
}
use server_x.Http.Headers
use server_x.Http.Request.{Request, TempFile}
use server_x.Http.Upload.{UploadValidationResult, Access, parse_filename, validate_upload_path}
use server_x.Http.Files.{Action, moves_body_to, leaves_file}
use server_x.Http.TempFile.{MoveStatus, MoveAnswers, move_success, move_to}
use server_x.Http.Response.{Response, set_status, set_status_message, add_header}

-- What the handler asks of the system: `isDir` and `access` of the directory, `access` of the file,
-- and the answers to a move. `message` gives the texts of the validation.
pub record UploadSystem : Type 0 where
  pub is_dir : Bytes → Bool
  pub access : Bytes → Access
  pub exists : Bytes → Bool
  pub move : Bytes → MoveAnswers
  pub message : HttpStatus → Bytes

-- At an empty vector, where the source reads out of bounds, the path is empty here; the directive
-- stores one argument.
unfoldable pub get_upload_path : LocationBlock → Bytes
unfolding has get_first_raw_value
get_upload_path l = elim (get_first_raw_value (codes "upload_path") l.block) [
  | returns p ↦ p
  | throws _ ↦ []
]

-- The location's path without the slashes around it, and the upload path without the one in front.
unfoldable pub without_first_slash : Bytes → Bytes
without_first_slash [] = []
without_first_slash (c ∷ cs) = if c == b'/' then cs else c ∷ cs

unfoldable pub normalized_upload : Bytes → Bytes → Bytes → Bytes → Bytes
unfolding without_first_slash without_last_slash starts_with
normalized_upload lp up location_root server_root =
    let to_find = without_last_slash (without_first_slash lp) in
    let up_norm = without_first_slash up in
    if not (is_empty to_find) && (starts_with to_find up_norm && beq location_root server_root)
    then without_first_slash (drop (length to_find) up_norm)
    else up_norm

-- The header `Location` of the answer.
unfoldable pub location_url : LocationBlock → ServerBlock → Bytes → Bytes
unfolding normalized_upload get_upload_path join_paths Block.root_of
location_url l s filename =
    let up_norm =
      normalized_upload l.path (get_upload_path l) (Block.root_of l.block)
        (Block.root_of s.block) in
    join_paths l.path (join_paths up_norm filename)

-- The file of a name in a directory.
unfoldable pub file_in : Bytes → Bytes → Bytes
unfolding ends_in_slash
file_in path filename =
    (if not (is_empty path) && not (ends_in_slash path) then path ++ codes "/" else path)
    ++ filename

module _ (sys : UploadSystem) where
  -- The file that a move which failed has left.
  left_over : Bytes → Option Bytes → List Action
  left_over path none = []
  left_over path (some _) = leaves_file path ∷ []

  moved :
      LocationBlock
      → ServerBlock
      → Bytes
      → Bytes
      → MoveStatus × Option Bytes × TempFile
      → Response
      → Response × List Action
  unfolding set_status set_status_message add_header location_url left_over
  moved l s filename path (move_success, dest, t) res = (
    add_header (codes "Location") (location_url l s filename) (set_status created res),
    moves_body_to path ∷ [],
  )
  moved l s filename path (_, dest, t) res = (
    set_status_message internal_server_error (codes "Failed to write uploaded file to disk") res,
    left_over path dest,
  )

  store : LocationBlock → ServerBlock → TempFile → Bytes → Bytes → Response → Response × List Action
  unfolding moved move_to set_status_message
  store l s body filename path res =
      if sys.exists path
      then (set_status_message conflict (codes "File already exists") res, [])
      else moved l s filename path (move_to (sys.move path) body) res

  named :
      LocationBlock
      → ServerBlock
      → TempFile
      → Bytes
      → UploadValidationResult
      → Response
      → Response × List Action
  unfolding store file_in set_status_message
  named l s body path pf res =
      if not pf.result
      then (set_status_message pf.status (sys.message pf.status) res, [])
      else store l s body pf.filename (file_in path pf.filename) res

  is_multipart : Request → Bool
  unfolding find_sub
  is_multipart req =
      Headers.has (codes "Content-Type") req.headers
      && is_some
          (find_sub (codes "multipart/form-data") (Headers.get (codes "Content-Type") req.headers))

  with_body :
      Request
      → LocationBlock
      → ServerBlock
      → Bytes
      → Option TempFile
      → Response
      → Response × List Action
  unfolding named is_multipart parse_filename set_status set_status_message
  with_body req l s path none res =
      (set_status_message bad_request (codes "No body provided for upload") res, [])
  with_body req l s path (some body) res =
      if not (Headers.has (codes "Content-Length") req.headers)
      then (
        set_status_message length_required (codes "Content-Length header is required for uploads")
            res,
        [],
      )
      else if is_multipart req
      then (set_status not_implemented res, [])
      else named l s body path (parse_filename req) res

  validated :
      Request
      → LocationBlock
      → ServerBlock
      → Bytes
      → UploadValidationResult
      → Response
      → Response × List Action
  unfolding with_body set_status_message
  validated req l s path vup res =
      if not vup.result
      then (set_status_message vup.status (sys.message vup.status) res, [])
      else with_body req l s path req.body res

  unfoldable pub upload_at :
      Request → LocationBlock → ServerBlock → Response → Response × List Action
  unfolding validated validate_upload_path get_upload_path join_paths Block.root_of
      set_status_message
  upload_at req l s res =
      let path = join_paths (Block.root_of l.block) (get_upload_path l) in
      if is_empty (get_upload_path l)
      then (
        set_status_message method_not_allowed (codes "Uploads are disabled for this location") res,
        [],
      )
      else validated req l s path (validate_upload_path sys.is_dir sys.access path) res

  upload_in :
      Request → Option LocationBlock → Option ServerBlock → Response → Response × List Action
  unfolding upload_at set_status
  upload_in req none s res = (set_status not_found res, [])
  upload_in req (some l) none res = (set_status not_found res, [])
  upload_in req (some l) (some s) res = upload_at req l s res

  -- `FileUploadHandler::handle`.
  unfoldable pub file_upload : Request → Response → Response × List Action
  unfolding upload_in
  file_upload req res = upload_in req req.location req.server res
