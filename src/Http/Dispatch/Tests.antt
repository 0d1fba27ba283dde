-- ===== src/Http/Dispatch/Tests.antt =====
-- Handlers, error pages and answers at concrete inputs.
use server_x.Common.{
  ℕ, ◌≡◌, refl, true, false, Option, none, some, [], ◌∷◌, Bytes, codes, beq, lookup, insert,
  runtime_error, returns, throws, require,
}
use server_x.Config.Block
use server_x.Config.Block.{Block, new_block, add_string}
use server_x.Config.Location.{LocationBlock, new_location}
use server_x.Config.Server.{new_server}
use server_x.Config.Lexer.{token, string}
use server_x.Http.Status.{HttpStatus, not_found, created, internal_server_error}
use server_x.Http.Headers
use server_x.Http.Request.{Request, Method, get, post, new_request, new_start_line, TempFile}
use server_x.Http.MimeTypes.{no_types}
use server_x.Http.Upload.{granted}
use server_x.Http.Files.{FileSystem, Stat, stat_of}
use server_x.Http.TempFile.{MoveAnswers, move_to, move_to-whole}
use server_x.Http.Response.{Response, new_response, set_status, set_body_in_memory}
use server_x.Http.Errors.{Cache, Caches, get_cached, create_json_error_body, handle_error}
use server_x.Http.Errors.Cached.{Faithful, get_cached-Faithful}
use server_x.Http.Errors.Freed.{Sound, handle_error-freed}
use server_x.Http.Handlers.{redirect}
use server_x.Http.Handlers.Returns.{return-url_fails}
use server_x.Http.UploadHandler.{UploadSystem}
use server_x.Http.Dispatch.{Context}

-- A file system in which every path is a file of 3 bytes that may be read, written and removed.
abbrev a_file : Stat
a_file = record { is_dir = false; mode = 420; byte_size = 3; mtime = 0 }

abbrev files : FileSystem
files = record {
  stat = λ p. stat_of a_file;
  exists = λ p. true;
  readable = λ p. true;
  writable = λ p. true;
  searchable = λ p. true;
  file_size = λ p. some 3;
  entries = λ p. none;
  unlink = λ p. none;
  rmdir = λ p. none;
}

-- One in which there is nothing.
abbrev no_file : Bytes → Option ℕ
no_file p = none

abbrev renames : MoveAnswers
renames = record {
  renamed = true;
  src_open = true;
  dest_open = true;
  write_good = λ i. true;
  src_eof = true;
  dest_good = true;
}

abbrev copies : MoveAnswers
copies = record renames { renamed = false }

abbrev uploads : UploadSystem
uploads = record {
  is_dir = λ p. true;
  access = λ p. granted;
  exists = λ p. false;
  move = λ p. renames;
  message = λ s. [];
}

abbrev no_caches : Caches
no_caches = record { json = []; html = [] }

abbrev context : Context
context = record {
  fs = files;
  uploads = uploads;
  mime = no_types;
  format_time = λ t. [];
  cgi = λ req res. throws runtime_error;
  what = λ e. [];
}

-- A location that takes uploads, and a request for it.
abbrev images : LocationBlock
images = record new_location {
  path = codes "/img";
  block =
      add_string (codes "upload_path") (codes "up")
        (add_string (codes "root") (codes "www") (new_block (codes "location")));
}

abbrev asked : Method → Request
asked m = record new_request {
  start_line = record new_start_line {
    method = m;
    path = codes "/img/a.png";
    uri = codes "/img/a.png";
  };
  location = some images;
  server = some new_server;
}

abbrev body_file : TempFile
body_file = record { is_open = true; content = codes "png" }

abbrev posted : Request
posted = record (asked post) {
  body = some body_file;
  headers = Headers.add (codes "Content-Length") (codes "3") [];
}

move_to-whole_example :
    ((move_to copies body_file).1 ≡ some (codes "png"))
    × ((move_to copies body_file).2.is_open ≡ false)
unfolding move_to server_x.Http.TempFile.read_buffer_size
move_to-whole_example = move_to-whole copies body_file refl

-- What `return /new;` stores.
abbrev moved_location : LocationBlock
moved_location = record new_location {
  block =
      Block.add_strings (codes "return") (codes "302") (codes "/new")
        (new_block (codes "location"));
}

return-url_fails_example :
    redirect (record (asked get) { location = some moved_location }) new_response
    ≡ returns (set_status internal_server_error new_response)
unfolding server_x.Config.Parser.eq_type server_x.Config.Directives.return_to require
return-url_fails_example =
    return-url_fails new_location moved_location (token string (codes "/new"))
      (record (asked get) { location = some moved_location }) new_server new_response refl refl refl
      refl

-- A page that was made before is taken again.
abbrev kept_page : Cache
kept_page =
    record {
      code = not_found;
      message = codes "gone";
      page = create_json_error_body not_found (codes "gone");
    }
    ∷ []

get_cached-Faithful_example :
    ((get_cached create_json_error_body not_found (codes "gone") kept_page).0
      ≡ create_json_error_body not_found (codes "gone"))
    × Faithful create_json_error_body
        (get_cached create_json_error_body not_found (codes "gone") kept_page).1
get_cached-Faithful_example =
    get_cached-Faithful create_json_error_body not_found (codes "gone") kept_page (refl, tt)

-- A location with `return 404 gone; error_page 404 /none.html;`, and its answer before the page.
abbrev gone : LocationBlock
gone = record new_location {
  block = add_string (codes "404") (codes "/none.html") (new_block (codes "location"));
}

abbrev with_text : Response
with_text =
    set_body_in_memory (codes "gone") (codes "text/plain") (set_status not_found new_response)

handle_error-freed_example :
    (handle_error no_file no_types no_caches
      (record (asked get) { location = some gone })
      with_text).0.freed_twice
    ≡ true
unfolding set_body_in_memory set_status server_x.Http.Request.wants_json beq Headers.get lookup
    server_x.Http.Errors.Freed.page_fails server_x.Http.Errors.Freed.unopenable
    server_x.Http.Errors.error_page_of Block.add insert server_x.Http.Status.value
    server_x.Config.Argument.get_raw_value
handle_error-freed_example =
    handle_error-freed no_file no_types no_caches (record (asked get) { location = some gone })
      with_text (refl, refl)
