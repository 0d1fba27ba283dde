-- ===== src/Http/Errors.antt =====
-- src/http/handlers/JsonError.cpp and DefaultError.cpp, and `Router::handleError`: the body of a
-- response with an error status. Both files keep the bodies they make in a static map; `Cache` is
-- such a map.
pub mod Cached
pub mod Freed
use server_x.Common.{
  ℕ, Bool, true, false, not, ◌&&◌, Option, none, some, List, [], ◌∷◌, ◌++◌, ◌==◌, if◌then◌else◌,
  Bytes, codes, beq, is_empty, starts_with, get_file_extension, join_paths, returns, throws,
}
use server_x.Config.Argument.{to_string}
use server_x.Config.Block
use server_x.Config.Block.{Block, get_first_raw_value}
use server_x.Config.Server.{ServerBlock}
use server_x.Http.Status.{HttpStatus, value}
use server_x.Http.Request.{Request, wants_json}
use server_x.Http.MimeTypes.{MimeTypes, get_mime_type}
use server_x.Http.Response.{Response, set_status, set_body_in_memory, set_body_from_file}

-- `std::map<Key, std::string>`, by the status and the message.
pub record Entry : Type 0 where
  pub code : HttpStatus
  pub message : Bytes
  pub page : Bytes

abbrev pub Cache : Type 0
Cache = List Entry

unfoldable pub find_page : HttpStatus → Bytes → Cache → Option Bytes
find_page code message [] = none
find_page code message (e ∷ es) =
    if value e.code == value code && beq e.message message
    then some e.page
    else find_page code message es

or_new : (HttpStatus → Bytes → Bytes) → HttpStatus → Bytes → Cache → Option Bytes → Bytes × Cache
or_new create code message cache (some page) = (page, cache)
or_new create code message cache none =
    let page = create code message in
    (page, record { code = code; message = message; page = page } ∷ cache)

-- The body in the map, or the one that is made and put there.
unfoldable pub get_cached :
    (HttpStatus → Bytes → Bytes) → HttpStatus → Bytes → Cache → Bytes × Cache
unfolding find_page or_new
get_cached create code message cache =
    or_new create code message cache (find_page code message cache)

unfoldable pub create_json_error_body : HttpStatus → Bytes → Bytes
unfolding value to_string
create_json_error_body code message =
    codes "{ \"" ++ to_string (value code) ++ codes "\": \"" ++ message ++ codes "\" }"

unfoldable pub create_error_body : HttpStatus → Bytes → Bytes
unfolding value to_string
create_error_body code message =
    codes "<!DOCTYPE html>\n"
    ++ codes "<html lang=\"en\">\n"
    ++ codes "<head>\n"
    ++ codes "    <meta charset=\"UTF-8\" />\n"
    ++ codes "    <title>"
    ++ message
    ++ codes "</title>\n"
    ++ codes "    <style>\n"
    ++ codes "        body {\n"
    ++ codes "            font-family: system-ui, -apple-system, sans-serif;\n"
    ++ codes "            background-color: var(--bg);\n"
    ++ codes "            color: var(--text);\n"
    ++ codes "            display: flex;\n"
    ++ codes "            align-items: center;\n"
    ++ codes "            justify-content: center;\n"
    ++ codes "            min-height: 100vh;\n"
    ++ codes "            margin: 0;\n"
    ++ codes "            text-align: center;\n"
    ++ codes "            transition: background 0.3s ease, color 0.3s ease;\n"
    ++ codes "        }\n"
    ++ codes "        h1 {\n"
    ++ codes "            font-size: 4rem;\n"
    ++ codes "            margin: 0;\n"
    ++ codes "            color: var(--primary);\n"
    ++ codes "        }\n"
    ++ codes "        p {\n"
    ++ codes "            font-size: 1.2rem;\n"
    ++ codes "            margin: 1rem 0;\n"
    ++ codes "            color: var(--muted);\n"
    ++ codes "        }\n"
    ++ codes "        .error-container {\n"
    ++ codes "            max-width: 500px;\n"
    ++ codes "            padding: 2rem;\n"
    ++ codes "            background: transparent;\n"
    ++ codes "            border-radius: 12px;\n"
    ++ codes "        }\n"
    ++ codes "    </style>\n"
    ++ codes "</head>\n"
    ++ codes "<body>\n"
    ++ codes "  <div class=\"error-container\">\n"
    ++ codes "    <h1>"
    ++ to_string (value code)
    ++ codes "</h1>\n"
    ++ codes "    <p>"
    ++ message
    ++ codes "</p>\n"
    ++ codes "  </div>\n"
    ++ codes "</body>\n"

-- The text for a status: the handler's own, or the reason phrase.
unfoldable pub message_of : Response → Bytes
message_of r = if is_empty r.custom_error then r.reason_phrase else r.custom_error

-- Both caches.
pub record Caches : Type 0 where
  pub json : Cache
  pub html : Cache

-- `JsonErrorHandler::populateResponse` and `DefaultErrorHandler::populateResponse`.
unfoldable pub populate_json : Caches → Response → Response × Caches
unfolding get_cached create_json_error_body message_of set_body_in_memory
populate_json cs r =
    let got = get_cached create_json_error_body r.status_code (message_of r) cs.json in
    (set_body_in_memory got.0 (codes "application/json") r, record cs { json = got.1 })

unfoldable pub populate_default : Caches → Response → Response × Caches
unfolding get_cached create_error_body message_of set_body_in_memory
populate_default cs r =
    let got = get_cached create_error_body r.status_code (message_of r) cs.html in
    (set_body_in_memory got.0 (codes "text/html") r, record cs { html = got.1 })

-- The page that a block has for a status, as `getFirstRawValue` gives it. At an empty vector, where the source reads out of bounds, there is no
-- page here.
unfoldable pub page_at : Bytes → Block → Option Bytes
unfolding get_first_raw_value
page_at status b = elim (get_first_raw_value status b) [ returns p ↦ some p | throws _ ↦ none ]

unfoldable pub error_page_of : Bytes → Request → Option Bytes
unfolding page_at
error_page_of status r = elim r.location [ none ↦ none | some l ↦ page_at status l.block ]

-- A relative path is one below the server's root.
unfoldable pub page_path : Bytes → Bytes → Bytes
unfolding join_paths starts_with
page_path root fpath =
    if not (is_empty root) && not (starts_with (codes "/") fpath)
    then join_paths root fpath
    else fpath

module _ (file_size : Bytes → Option ℕ) (mime : MimeTypes) where
  -- What `FileBody`'s constructor leaves when it throws goes to the `catch` clause.
  unfoldable pub caught : Caches → HttpStatus → Bool × Response → Response × Caches
  unfolding set_status populate_default
  caught cs original_code (true, r) = (set_status original_code r, cs)
  caught cs original_code (false, r) = populate_default cs r

  unfoldable pub serve_error_file : Caches → Bytes → Bytes → Response → Response × Caches
  unfolding populate_default caught set_body_from_file get_mime_type get_file_extension page_path
  serve_error_file cs root fpath r =
      let full = page_path root fpath in
      if is_empty fpath
      then populate_default cs r
      else caught cs r.status_code
          (set_body_from_file file_size full (get_mime_type (get_file_extension full) mime) r)

  unfoldable pub from_pages :
      Caches → Bytes → Option Bytes → Option Bytes → Response → Response × Caches
  unfolding serve_error_file populate_default
  from_pages cs root (some p) other r = serve_error_file cs root p r
  from_pages cs root none (some p) r = serve_error_file cs root p r
  from_pages cs root none none r = populate_default cs r

  unfoldable pub at_server : Caches → Request → Option ServerBlock → Response → Response × Caches
  unfolding from_pages error_page_of page_at populate_default Block.root_of value to_string
  at_server cs req none r = populate_default cs r
  at_server cs req (some s) r =
      let status = to_string (value r.status_code) in
      from_pages cs (Block.root_of s.block) (error_page_of status req) (page_at status s.block) r

  -- `DefaultErrorHandler::handle`: the location's page, the server's, or the built one.
  unfoldable pub default_error : Caches → Request → Response → Response × Caches
  unfolding at_server
  default_error cs req r = at_server cs req req.server r

  -- `Router::handleError`.
  unfoldable pub handle_error : Caches → Request → Response → Response × Caches
  unfolding default_error populate_json wants_json
  handle_error cs req r = if wants_json req then populate_json cs r else default_error cs req r
