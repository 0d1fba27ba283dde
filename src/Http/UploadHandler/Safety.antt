-- ===== src/Http/UploadHandler/Safety.antt =====
-- Where an upload is stored.
use server_x.Common.{◌≡◌, false, List, [], ◌∷◌, Bytes, join_paths}
use server_x.Config.Block
use server_x.Config.Location.{LocationBlock}
use server_x.Config.Server.{ServerBlock}
use server_x.Http.Status.{created, internal_server_error}
use server_x.Http.Headers
use server_x.Http.Request.{Request, TempFile}
use server_x.Http.Upload.Safety.{IsSafe}
use server_x.Http.Files.{Action, moves_body_to, leaves_file}
use server_x.Http.Response.{Response}
use server_x.Http.UploadHandler.{UploadSystem, get_upload_path, file_in}

-- Nothing is stored; or one file, of a safe name, in the upload directory of the location, where
-- there was none, and the answer says 201; or a move that failed has left such a file, and the answer
-- says 500.
pub data StoresAt (sys : UploadSystem) (l : LocationBlock) : Response × List Action → Type 0 where
  nothing : (res : Response) → StoresAt sys l (res, [])
  stored :
      (res : Response) (name : Bytes)
      → IsSafe name
      → sys.exists (file_in (join_paths (Block.root_of l.block) (get_upload_path l)) name) ≡ false
      → res.status_code ≡ created
      → StoresAt sys l (
        res,
        moves_body_to (file_in (join_paths (Block.root_of l.block) (get_upload_path l)) name) ∷ [],
      )
  left :
      (res : Response) (name : Bytes)
      → IsSafe name
      → sys.exists (file_in (join_paths (Block.root_of l.block) (get_upload_path l)) name) ≡ false
      → res.status_code ≡ internal_server_error
      → StoresAt sys l (
        res,
        leaves_file (file_in (join_paths (Block.root_of l.block) (get_upload_path l)) name) ∷ [],
      )

module _ (sys : UploadSystem) (l : LocationBlock) (s : ServerBlock) where
  abbrev dir : Bytes
  dir = join_paths (Block.root_of l.block) (get_upload_path l)
