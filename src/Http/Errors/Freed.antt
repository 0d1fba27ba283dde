-- ===== src/Http/Errors/Freed.antt =====
-- When an error page leads to a second deletion of the same body.
use server_x.Common.{
  ℕ, ◌≡◌, refl, sym, ◌∙◌, Bool, true, false, not, ◌&&◌, Option, none, some, arith, Bytes, is_empty,
  is_some,
}
use server_x.Config.Argument.{to_string}
use server_x.Config.Block
use server_x.Config.Server.{ServerBlock}
use server_x.Http.Status.{value}
use server_x.Http.Request.{Request, wants_json}
use server_x.Http.MimeTypes.{MimeTypes}
use server_x.Http.Response.{
  Response, BodyPointer, null, is_dangling, delete_body, set_status, set_body_in_memory,
  set_body_from_file, with_file_body,
}
use server_x.Http.Errors.{
  Caches, populate_json, populate_default, caught, serve_error_file, page_path, page_at,
  error_page_of, from_pages, at_server, default_error, handle_error,
}

abbrev pub has_body : BodyPointer → Bool
has_body null = false
has_body _ = true

and_false : (b : Bool) → b && false ≡ false
and_false true = refl
and_false false = refl

module _ (file_size : Bytes → Option ℕ) (mime : MimeTypes) where
  -- A page that is named and cannot be opened.
  unfoldable pub unopenable : Bytes → Option Bytes → Bool
  unopenable root none = false
  unopenable root (some p) = not (is_empty p) && not (is_some (file_size (page_path root p)))

  -- Whether a response is one that has been handed out: its body is there or null.
  abbrev pub Sound : Response → Type 0
  Sound r = (r.freed_twice ≡ false) × (is_dangling r.body ≡ false)

  serve-freed :
      (cs : Caches) (root p : Bytes) (r : Response)
      → Sound r
      → (serve_error_file file_size mime cs root p r).0.freed_twice
        ≡ (has_body r.body && unopenable root (some p))
  unfolding serve_error_file caught populate_default set_body_in_memory set_body_from_file
      with_file_body delete_body set_status unopenable is_dangling
  serve-freed cs root p r h = ground arith

  populate_default-freed :
      (cs : Caches) (r : Response) → Sound r → (populate_default cs r).0.freed_twice ≡ false
  unfolding populate_default set_body_in_memory delete_body is_dangling
  populate_default-freed cs r h = ground arith

  populate_json-freed :
      (cs : Caches) (r : Response) → Sound r → (populate_json cs r).0.freed_twice ≡ false
  unfolding populate_json set_body_in_memory delete_body is_dangling
  populate_json-freed cs r h = ground arith

  -- The page of the location, or else the server's.
  abbrev pub first_page : Option Bytes → Option Bytes → Option Bytes
  first_page (some p) o = some p
  first_page none o = o

  from_pages-freed :
      (cs : Caches) (root : Bytes) (o1 o2 : Option Bytes) (r : Response)
      → Sound r
      → (from_pages file_size mime cs root o1 o2 r).0.freed_twice
        ≡ (has_body r.body && unopenable root (first_page o1 o2))
  unfolding from_pages unopenable
  from_pages-freed cs root (some p) o2 r h = serve-freed cs root p r h
  from_pages-freed cs root none (some p) r h = serve-freed cs root p r h
  from_pages-freed cs root none none r h =
      populate_default-freed cs r h ∙ sym (and_false (has_body r.body))

  -- The page that the configuration names for the status, and whether it cannot be opened.
  unfoldable pub page_fails : Request → Response → Option ServerBlock → Bool
  page_fails req r none = false
  page_fails req r (some s) = unopenable (Block.root_of s.block) (
      first_page (error_page_of (to_string (value r.status_code)) req)
        (page_at (to_string (value r.status_code)) s.block))

  at_server-freed :
      (cs : Caches) (req : Request) (o : Option ServerBlock) (r : Response)
      → Sound r
      → (at_server file_size mime cs req o r).0.freed_twice
        ≡ (has_body r.body && page_fails req r o)
  unfolding at_server page_fails
  at_server-freed cs req none r h =
      populate_default-freed cs r h ∙ sym (and_false (has_body r.body))
  at_server-freed cs req (some s) r h = from_pages-freed cs (Block.root_of s.block) _ _ r h

  -- An error answer deletes its body twice exactly where it had a body, the client does not want
  -- JSON, and the error page that is configured for the status cannot be opened.
  pub handle_error-freed :
      (cs : Caches) (req : Request) (r : Response)
      → Sound r
      → (handle_error file_size mime cs req r).0.freed_twice
        ≡ (not (wants_json req) && (has_body r.body && page_fails req r req.server))
  unfolding handle_error default_error
  handle_error-freed cs req r h =
      ground (arith, populate_json-freed cs r h, at_server-freed cs req req.server r h)
