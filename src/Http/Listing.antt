-- ===== src/Http/Listing.antt =====
-- src/http/handlers/DirectoryListingHandler.cpp: the page that lists a directory. `formatTime`
-- (`localtime`, `strftime`) is an argument.
use server_x.Common.{
  ℕ, zero, suc, ◌-◌, ◌/◌, Bool, false, not, ◌&&◌, Option, none, some, List, [], ◌∷◌, ◌++◌, ltb,
  if◌then◌else◌, length, take, Bytes, codes, beq, is_empty, ends_in_slash, Result, returns, ◌>>=◌,
}
use server_x.Config.Argument.{to_string}
use server_x.Config.Location.{LocationBlock}
use server_x.Http.Status.{ok, forbidden, internal_server_error}
use server_x.Http.Request.{Request}
use server_x.Http.MimeTypes.{MimeTypes}
use server_x.Http.Resolve.{resolve_path}
use server_x.Http.Files.{
  StatAnswer, stat_of, stat_failed, FileSystem, FileEntry, get_directory_entries,
}
use server_x.Http.Handlers.{static_file, resolve_index_file}
use server_x.Http.Response.{Response, set_status, set_body_in_memory}

unfoldable pub format_size : ℕ → Bytes
unfolding to_string
format_size n =
    if ltb n 1024 then to_string n ++ codes " B" else to_string (n / 1024) ++ codes " KB"

-- `std::string(n, ' ')`.
unfoldable pub spaces : ℕ → Bytes
spaces zero = []
spaces (suc n) = b' ' ∷ spaces n

unfoldable pub link_name : FileEntry → Bytes
link_name e = if e.is_dir then e.name ++ codes "/" else e.name

unfoldable pub display_name : Bytes → Bytes
display_name name = if ltb 50 (length name) then take 47 name ++ codes "..>" else name

unfoldable pub listing_line : (ℕ → Bytes) → FileEntry → Bytes
unfolding link_name display_name spaces format_size
listing_line format_time e =
    let name = link_name e in
    let shown = display_name name in
    codes "<a href=\""
    ++ name
    ++ codes "\">"
    ++ shown
    ++ codes "</a>"
    ++ spaces (51 - length shown)
    ++ format_time e.mtime
    ++ spaces 20
    ++ (if e.is_dir then codes "-" else format_size e.byte_size)
    ++ codes "\n"

unfoldable pub listing_lines : (ℕ → Bytes) → List FileEntry → Bytes
unfolding listing_line
listing_lines format_time [] = []
listing_lines format_time (e ∷ es) = listing_line format_time e ++ listing_lines format_time es

unfoldable pub generate_listing_html : (ℕ → Bytes) → Bytes → List FileEntry → Bytes
unfolding listing_lines
generate_listing_html format_time path files =
    codes "<html>\n<head><title>Index of "
    ++ path
    ++ codes "</title></head>\n"
    ++ codes "<body>\n<h1>Index of "
    ++ path
    ++ codes "</h1><hr><pre>\n"
    ++ (if beq path (codes "/") then [] else codes "<a href=\"../\">../</a>\n")
    ++ listing_lines format_time files
    ++ codes "</pre><hr></body>\n</html>"

module _ (fs : FileSystem) (mime : MimeTypes) (format_time : ℕ → Bytes) where
  listed : Bytes → Option (List FileEntry) → Response → Response
  unfolding set_status set_body_in_memory generate_listing_html
  listed path none res = set_status internal_server_error res
  listed path (some files) res =
      set_body_in_memory (generate_listing_html format_time path files) (codes "text/html")
        (set_status ok res)

  unfoldable pub list_directory : Request → Bytes → Response → Response
  unfolding listed get_directory_entries set_status
  list_directory req full_path res =
      if not (fs.searchable full_path)
      then set_status forbidden res
      else listed req.start_line.path (get_directory_entries fs full_path) res

  -- A directory without an index file, asked for with a slash at the end.
  is_listed : Request → LocationBlock → Bytes → StatAnswer → Bool
  unfolding resolve_index_file ends_in_slash
  is_listed req l full_path (stat_failed _) = false
  is_listed req l full_path (stat_of st) =
      st.is_dir
      && (is_empty (resolve_index_file fs.exists l full_path) && ends_in_slash req.start_line.path)

  list_at : Request → Bytes → Option LocationBlock → Response → Result Response
  unfolding static_file is_listed list_directory
  list_at req full_path none res = static_file fs mime req res
  list_at req full_path (some l) res =
      if is_listed req l full_path (fs.stat full_path)
      then returns (list_directory req full_path res)
      else static_file fs mime req res

  -- `DirectoryListingHandler::handle`; the router calls it with a location.
  unfoldable pub directory_listing : Request → Response → Result Response
  unfolding list_at resolve_path
  directory_listing req res =
      resolve_path req >>= λ full_path. list_at req full_path req.location res
