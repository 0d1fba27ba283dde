-- ===== src/Http/Handlers/Deletes.antt =====
-- What a DELETE request removes.
use server_x.Common.{◌≡◌, true, List, [], ◌∷◌, leb, if◌then◌else◌, Bytes}
use server_x.Http.Status.{HttpStatus, value, ok, no_content}
use server_x.Http.Request.{Request}
use server_x.Http.Files.{Stat, stat_of, FileSystem, Action, unlinks, removes_dir}
use server_x.Http.Response.{Response}
use server_x.Http.Handlers.{get_parent_dir}

abbrev pub IsError : HttpStatus → Type 0
IsError s = leb 400 (value s) ≡ true

-- Nothing is removed and the answer is an error, or what is at `path` is, by the call for its kind,
-- in a directory that can be written, and the answer is 204.
pub data Removes (fs : FileSystem) (path : Bytes) : Response × List Action → Type 0 where
  kept : (res : Response) → IsError res.status_code → Removes fs path (res, [])
  removed :
      (res : Response) (st : Stat)
      → res.status_code ≡ no_content
      → fs.stat path ≡ stat_of st
      → fs.writable (get_parent_dir path) ≡ true
      → Removes fs path (res, (if st.is_dir then removes_dir path else unlinks path) ∷ [])

-- The status of a removal, and the action where it is `ok`.
data Tried (a : Action) : HttpStatus × List Action → Type 0 where
  done : Tried a (ok, a ∷ [])
  refused_with : (s : HttpStatus) → IsError s → Tried a (s, [])
