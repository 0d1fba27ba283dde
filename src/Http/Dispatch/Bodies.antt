-- ===== src/Http/Dispatch/Bodies.antt =====
-- The body of every answer of the router.
use server_x.Common.{◌≡◌, ◌≢◌, ◌⊎◌, true, false, some, leb, codes}
use server_x.Config.Argument.{to_string}
use server_x.Http.Status.{value}
use server_x.Http.Headers.{Headers, get?}
use server_x.Http.Request
use server_x.Http.Request.{head, Request}
use server_x.Http.MimeTypes.{MimeTypes}
use server_x.Http.Response.{Response, Body, null, to_body, size}

-- There is a body, and the field Content-Length tells its size.
pub data HasBody : Response → Type 0 where
  has_body :
      (r : Response) (b : Body)
      → r.body ≡ to_body b
      → get? (codes "Content-Length") r.headers ≡ some (to_string (size b))
      → HasBody r

-- A request that was in error before has an error with a body. Of the others, an answer to HEAD has
-- no body, and one to another method says success or has a body.
pub data Answers (req : Request) : Response → Type 0 where
  early : (r : Response) → leb 400 (value req.status) ≡ true → HasBody r → Answers req r
  stripped :
      (r : Response)
      → leb 400 (value req.status) ≡ false
      → req.start_line.method ≡ head
      → r.body ≡ null
      → Answers req r
  succeeded :
      (r : Response)
      → leb 400 (value req.status) ≡ false
      → req.start_line.method ≢ head
      → leb 400 (value r.status_code) ≡ false
      → Answers req r
  failed :
      (r : Response)
      → leb 400 (value req.status) ≡ false
      → req.start_line.method ≢ head
      → HasBody r
      → Answers req r

-- A response before `strip`.
abbrev Sound : Response → Type 0
Sound r = (leb 400 (value r.status_code) ≡ false) ⊎ HasBody r
