-- ===== src/Http/Upload.antt =====
-- src/http/FileUploadValidator.cpp: the name and the directory that an upload is stored under. The
-- texts of the messages are not modelled.
pub mod Safety
use server_x.Common.{
  ℕ, ◌+◌, ◌-◌, Bool, true, false, not, ◌&&◌, ◌||◌, Option, none, some, List, [], ◌∷◌, ltb, ◌==◌,
  if◌then◌else◌, drop, length, get_last?, Bytes, codes, is_empty, is_some, find_byte, rfind_byte,
  find_sub, trim,
}
use server_x.Http.Status.{
  HttpStatus, ok, bad_request, forbidden, method_not_allowed, internal_server_error,
  not_implemented,
}
use server_x.Http.Headers
use server_x.Http.Headers.{drop_last}
use server_x.Http.Request.{Request}

pub record UploadValidationResult : Type 0 where
  pub filename : Bytes
  pub status : HttpStatus
  pub result : Bool

abbrev pub accept : Bytes → UploadValidationResult
accept file = record { filename = file; status = ok; result = true }

abbrev pub fail : HttpStatus → UploadValidationResult
fail status = record { filename = []; status = status; result = false }

cons_head : ℕ → List Bytes → List Bytes
cons_head c [] = (c ∷ []) ∷ []
cons_head c (l ∷ ls) = (c ∷ l) ∷ ls

-- What successive calls of `getline` with the delimiter `;` return.
unfoldable pub segments : Bytes → List Bytes
unfolding cons_head
segments [] = []
segments (c ∷ cs) = if c == b';' then [] ∷ segments cs else cons_head c (segments cs)

-- The quotes around a value, each if it is there.
abbrev drop_quote : Bytes → Bytes
drop_quote [] = []
drop_quote (c ∷ cs) = if c == b'"' then cs else c ∷ cs

abbrev ends_in_quote : Bytes → Bool
ends_in_quote line = elim (get_last? line) [ none ↦ false | some c ↦ c == b'"' ]

abbrev drop_last_quote : Bytes → Bytes
drop_last_quote line = if ends_in_quote line then drop_last line else line

param_of : Bytes → List Bytes → Bytes
unfolding find_sub trim
param_of to_find [] = []
param_of to_find (token ∷ tokens) = elim (find_sub to_find (trim token)) [
  | none ↦ param_of to_find tokens
  | some pos ↦ drop_last_quote (drop_quote (drop (pos + length to_find) (trim token)))
]

unfoldable pub extract_header_param : Bytes → Bytes → Bytes
unfolding param_of segments
extract_header_param str to_find = param_of to_find (segments str)

-- The name behind the last slash of the path.
name_behind : Bytes → Option ℕ → Bytes
name_behind path none = []
name_behind path (some last_slash) =
    if ltb last_slash (length path - 1) then drop (last_slash + 1) path else []

unfoldable pub name_of : Request → Bytes
unfolding extract_header_param name_behind rfind_byte
name_of req =
    let given = Headers.get (codes "X-Filename") req.headers in
    let disposition = Headers.get (codes "Content-Disposition") req.headers in
    let named =
      if is_empty given && not (is_empty disposition)
      then extract_header_param disposition (codes "filename=")
      else given in
    if is_empty named
    then name_behind req.start_line.path (rfind_byte b'/' req.start_line.path)
    else named

starts_with_dot : Bytes → Bool
starts_with_dot [] = false
starts_with_dot (c ∷ _) = c == b'.'

ends_with_dot : Bytes → Bool
unfolding rfind_byte
ends_with_dot name = elim (rfind_byte b'.' name) [
  | none ↦ false
  | some pos ↦ pos == length name - 1
]

-- Behind the choice of the name.
unfoldable pub check_name : Bytes → Bytes → UploadValidationResult
unfolding starts_with_dot ends_with_dot find_byte find_sub
check_name content_type name =
    if is_empty name
    then fail bad_request
    else if is_some (find_byte b'/' name)
        || (is_some (find_byte b'\\' name) || is_some (find_sub (codes "..") name))
    then fail bad_request
    else if starts_with_dot name
    then fail bad_request
    else if ends_with_dot name
    then fail bad_request
    else if is_some (find_sub (codes "multipart/form-data") content_type)
    then fail not_implemented
    else accept name

unfoldable pub parse_filename : Request → UploadValidationResult
unfolding check_name name_of
parse_filename req = check_name (Headers.get (codes "Content-Type") req.headers) (name_of req)

-- What `access` with `W_OK | X_OK` answers.
pub data Access : Type 0 where
  granted denied read_only other_error : Access

-- `isDir` and `access` are the system's.
unfoldable pub validate_upload_path :
    (Bytes → Bool) → (Bytes → Access) → Bytes → UploadValidationResult
validate_upload_path is_dir access path =
    if is_empty path
    then fail method_not_allowed
    else if not (is_dir path)
    then fail internal_server_error
    else (elim (access path) [
      | granted ↦ accept []
      | denied ↦ fail forbidden
      | read_only ↦ fail forbidden
      | other_error ↦ fail internal_server_error
    ])
