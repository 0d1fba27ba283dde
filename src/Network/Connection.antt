-- ===== src/Network/Connection.antt =====
-- src/network/ClientHandler.cpp: the state of a connection, and what sets it up, clears and closes it.
-- The request is the parser's. Of the dispatcher the model keeps whether the client's reads and writes
-- are enabled, the reads of its CGI handler, and whether `removeHandler` has been called.
use server_x.Common.{
  ℕ, Bool, true, false, not, ◌&&◌, Option, none, some, leb, ◌==◌, if◌then◌else◌, Bytes, codes,
  is_some,
}
use server_x.Config.Servers.{ServerBlockMap}
use server_x.Http.Status.{HttpStatus, value}
use server_x.Http.Headers
use server_x.Http.Headers.{Headers, strtol, erase_key}
use server_x.Http.Request
use server_x.Http.Request.{Request}
use server_x.Http.RequestParser
use server_x.Http.RequestParser.{
  RequestParser, State, Os, feed, proceed_reading_body, has_leftover_data, new_parser, error,
  headers_ready, request_ready,
}
use server_x.Http.Errors.{Caches}
use server_x.Http.Dispatch.{Context}
use server_x.Http.Response
use server_x.Http.Response.{
  Response, Body, BodyPointer, to_body, new_response, set_status, add_header, build_headers,
  is_done, get_event_source_fd,
}
use server_x.Network.SendBuffer.{SendBuffer, empty_buffer}

pub record Client : Type 0 where
  pub headers_sent : Bool
  pub parser : RequestParser
  pub response : Response
  pub is_keep_alive : Bool
  pub is_draining : Bool
  pub drain_start_time : ℕ
  pub rsp_buffer : SendBuffer
  pub has_cgi : Bool
  pub cgi_done : Bool
  pub reads : Bool
  pub writes : Bool
  pub cgi_reads : Bool
  pub closed : Bool
  pub caches : Caches

-- What the system answers during one event: `recv` with at most 8192 bytes, `none` for an error;
-- the two calls of `::send`; `read` of the file that is sent, for at most so many bytes; the time;
-- whether a CGI handler can be set up; and the capacity of the send buffer.
pub record Answers : Type 0 where
  pub received : Option Bytes
  pub first_send : Bytes → Option ℕ
  pub second_send : Bytes → Option ℕ
  pub file_read : ℕ → Option Bytes
  pub now : ℕ
  pub cgi_starts : Bool
  pub capacity : ℕ

-- What does not change: the port, the peer's address, the servers, and what the router uses.
pub record Setting : Type 0 where
  pub port : ℕ
  pub client_addr : Bytes
  pub config : ServerBlockMap
  pub ctx : Context
  pub os : Os

abbrev pub io_buffer_size : ℕ
io_buffer_size = 8192

-- `CgiState::remove`.
unfoldable pub remove_cgi : Client → Client
remove_cgi c = if c.has_cgi then record c { has_cgi = false; cgi_done = false } else c

unfoldable pub close_connection : Client → Client
unfolding remove_cgi
close_connection c = record (remove_cgi c) { closed = true }

-- `resetForNewRequest`: the request is cleared behind the parser's reset.
unfoldable pub reset_for_new_request : Client → Client
unfolding remove_cgi RequestParser.reset Response.clear Request.clear
reset_for_new_request c =
    let p = RequestParser.reset c.parser in
    record (remove_cgi c) {
      rsp_buffer = empty_buffer;
      parser = record p { request = Request.clear p.request };
      response = Response.clear c.response;
      headers_sent = false;
      is_draining = false;
      drain_start_time = 0;
    }

-- The constructor; `registerHandler` has enabled reading.
unfoldable pub new_client : Caches → Client
unfolding reset_for_new_request new_parser
new_client caches = reset_for_new_request (record {
  headers_sent = false;
  parser = new_parser Request.new_request io_buffer_size;
  response = new_response;
  is_keep_alive = false;
  is_draining = false;
  drain_start_time = 0;
  rsp_buffer = empty_buffer;
  has_cgi = false;
  cgi_done = false;
  reads = true;
  writes = false;
  cgi_reads = false;
  closed = false;
  caches = caches;
})

unfoldable pub initiate_draining : Answers → Client → Client
initiate_draining a c =
    if c.is_draining
    then c
    else record c { is_draining = true; drain_start_time = a.now; writes = false; reads = true }

abbrev pub connection_value : Client → Bytes
connection_value c = if c.is_keep_alive then codes "keep-alive" else codes "close"

-- `response_.body()`.
unfoldable pub body_of : Response → Option Body
body_of r = elim r.body [ to_body b ↦ some b | _ ↦ none ]

-- `s != NO_CONTENT && s != NOT_MODIFIED && s >= 200`.
wants_length : HttpStatus → Bool
unfolding value
wants_length s = not (value s == 204) && (not (value s == 304) && leb 200 (value s))

unfoldable pub with_length : Response → Response
unfolding wants_length body_of add_header
with_length r =
    if not (is_some (body_of r))
      && (not (Headers.has (codes "Content-Length") r.headers) && wants_length r.status_code)
    then add_header (codes "Content-Length") (codes "0") r
    else r

-- `response_.buildHeaders(rspBuffer_.buffer)`, and what follows it everywhere.
unfoldable pub send_headers : Response → Client → Client
unfolding build_headers
send_headers r c = record c {
  response = r;
  rsp_buffer = record c.rsp_buffer { buffer = build_headers true r };
  headers_sent = true;
  writes = true;
}

unfoldable pub setup_static_response : Client → Client
unfolding with_length send_headers add_header
setup_static_response c =
    send_headers (with_length (add_header (codes "Connection") (connection_value c) c.response))
      (record c { has_cgi = false })
