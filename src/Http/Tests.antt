-- ===== src/Http/Tests.antt =====
-- The HTTP components at concrete inputs.
use server_x.Common.{
  ℕ, ◌+◌, ◌≤◌, true, false, Option, none, some, List, [], ◌∷◌, ◌++◌, ◌≡◌, ◌≢◌, ◌⊎◌, inr, refl,
  arith, if◌then◌else◌, length, Bytes, codes, returns, insert,
}
use server_x.Config.Block.{new_block, add_string}
use server_x.Config.Location.{LocationBlock, new_location}
use server_x.Config.Server.{new_server}
use server_x.Http.Chunked
use server_x.Http.Chunked.{ChunkedBodyParser, initial, set_max_body_size, chunk_error}
use server_x.Http.Chunked.Append.{parse-append}
use server_x.Http.Chunked.Decode.{Chunk}
use server_x.Http.Chunked.Limit.{parse_limit}
use server_x.Http.Chunked.Round.{IsWaiting}
use server_x.Http.Headers.{Headers, add, get?, erase_key}
use server_x.Http.Headers.Fields.{get-add}
use server_x.Http.Request.{
  Request, Method, get, post, delete, new_request, new_start_line, parse_start_line,
}
use server_x.Http.Request.StartLine.{parse_start_line-print}
use server_x.Http.Router.{dispatch, file_delete}
use server_x.Http.Router.Safety.{IsRouted, dispatch-IsRouted}
use server_x.Http.Status.{value, to_http_status, not_found, unknown_status, to_http_status_exact}
use server_x.Http.Upload.{parse_filename}
use server_x.Http.Upload.Safety.{IsSafe, parse_filename-IsSafe}

abbrev two_chunks : List Chunk
two_chunks =
    record { size_line = codes "5"; body = codes "hello" }
    ∷ record { size_line = codes "a"; body = codes "0123456789" }
    ∷ []

abbrev message : Bytes
message = codes "5\r\nhello\r\na\r\n0123456789\r\n0\r\n\r\nGET"

abbrev first_half : Bytes
first_half = codes "5\r\nhel"

abbrev second_half : Bytes
second_half = codes "lo\r\n0\r\n\r\n"

parse-append_example :
    ((Chunked.parse initial first_half []).status ≢ chunk_error)
    × IsWaiting (Chunked.parse initial first_half []).parser
    × (Chunked.parse initial (first_half ++ second_half) [] ≡ (
        let r = Chunked.parse initial first_half [] in
        let s = Chunked.parse r.parser second_half r.output in
        record s { consumed = r.consumed + s.consumed }))
unfolding Chunked.parse Chunked.handler Chunked.find_crlf Chunked.parse_hex
parse-append_example =
    parse-append initial first_half second_half []
      (record { no_line = refl; pending = λ e. absurd (cc) }) (omega arith) (λ e. cc)

abbrev limited : ChunkedBodyParser
limited = set_max_body_size 8 initial

parse_limit_example :
    (0 + length (Chunked.parse limited message []).output ≤ 8 + 0)
    × ((Chunked.parse limited message []).parser.total_written + 0
        ≡ 0 + length (Chunked.parse limited message []).output)
    × ((Chunked.parse limited message []).parser.total_written ≤ 8)
parse_limit_example = parse_limit limited message [] (omega arith) (omega arith) (omega arith)

parse_start_line-print_example :
    parse_start_line (codes "GET /a?b=c HTTP/1.1\r\nHost: x") ≡ record {
      method = get;
      uri = codes "/a?b=c";
      path = codes "/a";
      query_string = codes "b=c";
      version = codes "HTTP/1.1";
    }
unfolding server_x.Http.Request.StartLine.is_word server_x.Common.find_byte
    server_x.Http.Request.method_to_string
parse_start_line-print_example =
    parse_start_line-print get (codes "/a") (some (codes "b=c")) (codes "HTTP/1.1")
      (codes "\nHost: x") refl refl refl

get-add_example :
    (get? (codes "HOST") (add (codes "Host") (codes "x") []) ≡ some (codes "x"))
    × (get? (codes "HOST") (erase_key (codes "Host") (add (codes "Host") (codes "x") [])) ≡ none)
unfolding server_x.Common.beq server_x.Common.to_lower
get-add_example = get-add (codes "Host") (codes "x") [] (codes "HOST") refl

to_http_status_exact_example :
    (value not_found ≡ 404 → to_http_status 404 ≡ not_found)
    × (to_http_status 404 ≡ not_found → not_found ≢ unknown_status → value not_found ≡ 404)
to_http_status_exact_example = to_http_status_exact 404 not_found

abbrev only_delete : LocationBlock
only_delete = record new_location {
  block = add_string (codes "allow_methods") (codes "DELETE") (new_block (codes "location"));
}

abbrev deletion : Request
deletion = record new_request {
  start_line = record new_start_line { method = delete; uri = codes "/a"; path = codes "/a" };
  location = some only_delete;
  server = some new_server;
}

dispatch-IsRouted_example : IsRouted deletion file_delete
unfolding dispatch server_x.Config.Block.has server_x.Common.lookup server_x.Config.Block.add insert
    server_x.Common.beq server_x.Config.Block.get_raw_values server_x.Config.Argument.get_raw_value
dispatch-IsRouted_example = dispatch-IsRouted deletion file_delete refl

abbrev upload : Request
upload = record new_request {
  start_line = record new_start_line {
    method = post;
    uri = codes "/up/a.txt";
    path = codes "/up/a.txt";
  };
}

parse_filename-IsSafe_example : IsSafe (codes "a.txt")
unfolding parse_filename server_x.Http.Headers.get server_x.Common.lookup
parse_filename-IsSafe_example = parse_filename-IsSafe upload refl
