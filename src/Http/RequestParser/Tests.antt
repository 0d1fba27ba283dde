-- ===== src/Http/RequestParser/Tests.antt =====
-- The request parser at concrete inputs.
use server_x.Common.{
  ℕ, ◌+◌, ◌≤◌, true, false, Option, none, some, [], ◌∷◌, ◌++◌, ◌≡◌, ◌⊎◌, inl, inr, refl, arith,
  length, take, drop, Bytes, codes,
}
use server_x.Http.Chunked
use server_x.Http.Chunked.{ChunkedBodyParser, done}
use server_x.Http.Status.{ok}
use server_x.Http.Request.{new_request, TempFile}
use server_x.Http.RequestParser.{
  Os, RequestParser, feed, proceed_reading_body, request_ready, headers_ready, reading_headers,
  reading_body, error, reset,
}
use server_x.Http.RequestParser.Body.{IsCollecting, feed_completes}
use server_x.Http.RequestParser.KeepAlive.{proceed_chunk_done}
use server_x.Http.RequestParser.Limits.{IsDecoding, feed_header_limit, feed_chunked_limit}
use server_x.Http.RequestParser.States.{Reads, feed-Reads}

-- A system on which nothing fails.
abbrev linux : Os
linux = record {
  opens = true;
  written = λ text. some (length text);
  seeks = true;
  written_le = λ text n e. ground arith;
}

abbrev empty_parser : RequestParser
empty_parser = record {
  state = reading_headers;
  error_status = ok;
  buffer = [];
  max_header_size = 8192;
  max_content_size = 0;
  content_length = 0;
  bytes_written = 0;
  is_chunked = false;
  request = new_request;
  chunk_parser = Chunked.initial;
}

abbrev open_file : Bytes → TempFile
open_file content = record { is_open = true; content = content }

-- In the middle of a body of 5 bytes.
abbrev collecting : RequestParser
collecting = record empty_parser {
  state = reading_body;
  content_length = 5;
  bytes_written = 2;
  request = record new_request { body = some (open_file (codes "he")) };
}

collecting-IsCollecting : IsCollecting collecting (open_file (codes "he"))
collecting-IsCollecting = record {
  collecting = refl;
  counted = refl;
  has_file = refl;
  file_open = refl;
  file_length = refl;
  within = omega arith;
}

feed_completes_example :
    ((feed linux (codes "lloGET") collecting).state ≡ request_ready)
    × ((g : TempFile) × ((feed linux (codes "lloGET") collecting).request.body ≡ some g)
        × (g.content ≡ codes "hello"))
    × ((feed linux (codes "lloGET") collecting).buffer ≡ codes "GET")
feed_completes_example =
    feed_completes linux (codes "lloGET") collecting (open_file (codes "he"))
      collecting-IsCollecting (λ text. refl) refl (omega arith)

-- A parser that has read a chunked request, and the headers of the next.
abbrev used : RequestParser
used = record empty_parser { chunk_parser = record Chunked.initial { state = done } }

abbrev chunked_post : Bytes
chunked_post = codes "POST /a H\r\nTransfer-Encoding: chunked\r\n\r\n5\r\n"

proceed_chunk_done_example :
    let q = feed linux chunked_post (reset used) in
    let r = proceed_reading_body linux q in
    (r.state ≡ request_ready)
    × (r.request.body ≡ some (record { is_open = true; content = [] }))
    × (r.buffer ≡ codes "5\r\n")
unfolding feed server_x.Http.Headers.find_header_end server_x.Http.Request.parse_start_line
    server_x.Common.beq server_x.Http.Headers.parse server_x.Http.Headers.get_content_length
    server_x.Common.lookup server_x.Common.insert server_x.Http.Request.clear
    server_x.Common.to_lower server_x.Http.Headers.is_content_chunked
proceed_chunk_done_example = proceed_chunk_done linux chunked_post used refl refl refl refl refl

abbrev decoding : RequestParser
decoding = record empty_parser {
  state = reading_body;
  is_chunked = true;
  request = record new_request { body = some (open_file (codes "he")) };
  chunk_parser = record Chunked.initial { total_written = 2; max_body_size = 8 };
}

feed_chunked_limit_example :
    ((feed linux (codes "3\r\nllo\r\n") decoding).state ≡ error)
    ⊎ ((g : TempFile) × ((feed linux (codes "3\r\nllo\r\n") decoding).request.body ≡ some g)
        × (length g.content ≤ 8)
        × IsDecoding 8 g (feed linux (codes "3\r\nllo\r\n") decoding))
feed_chunked_limit_example =
    feed_chunked_limit linux (codes "3\r\nllo\r\n") decoding (open_file (codes "he")) 8 refl refl
      refl
      (record {
        has_file = refl;
        max_is = refl;
        written_le_total = omega arith;
        total_le = omega arith;
      })
      (omega arith) (omega arith)

feed_header_limit_example :
    (length (feed linux (codes "GET / H\r\n") empty_parser).buffer ≤ 1024)
    ⊎ (length (feed linux (codes "GET / H\r\n") empty_parser).buffer ≤ 8192)
unfolding feed server_x.Http.Headers.find_header_end
feed_header_limit_example = feed_header_limit linux (codes "GET / H\r\n") empty_parser refl refl

feed-Reads_example : Reads reading_headers headers_ready
unfolding feed server_x.Http.Headers.find_header_end server_x.Http.Request.parse_start_line
    server_x.Common.beq server_x.Http.Headers.parse server_x.Http.Headers.get_content_length
    server_x.Common.lookup server_x.Common.insert server_x.Common.to_lower
    server_x.Http.Headers.is_content_chunked
feed-Reads_example = feed-Reads linux chunked_post empty_parser
