-- ===== src/Network/Client.antt =====
-- src/network/ClientHandler.cpp: the events of a connection, from the bytes it receives to those it
-- sends, and the calls of its CGI handler.
pub mod Writing
pub mod Finishing
use server_x.Common.{
  ℕ, zero, suc, ◌-◌, ◌*◌, ◌%◌, ◌^◌, Bool, true, false, not, ◌&&◌, ◌||◌, Option, none, some, [], ◌∷◌,
  ◌++◌, ltb, ◌==◌, if◌then◌else◌, length, Bytes, codes, is_empty, Result, returns, ◌>>=◌,
}
use server_x.Http.Status.{unknown_status, value, to_http_status}
use server_x.Http.Headers
use server_x.Http.Headers.{Headers, strtol, erase_key}
use server_x.Http.Request
use server_x.Http.RequestParser
use server_x.Http.RequestParser.{State, error}
use server_x.Http.Dispatch
use server_x.Http.Response
use server_x.Http.Response.{Response, Body, to_body, set_status, add_header, is_done}
use server_x.Network.SendBuffer
use server_x.Network.SendBuffer.{SendBuffer, SendStatus, send_done, send_again, send, is_fully_sent}
use server_x.Network.Connection.{
  Client, Answers, Setting, remove_cgi, close_connection, connection_value, body_of, send_headers,
}
use server_x.Network.Serving.{feed_client, finalize_connection}

-- EPOLLHUP or EPOLLERR, EPOLLIN and EPOLLOUT.
pub record Events : Type 0 where
  pub hup_or_err : Bool
  pub can_read : Bool
  pub can_write : Bool

-- `resize` of an empty buffer.
zeros : ℕ → Bytes
zeros zero = []
zeros (suc n) = 0 ∷ zeros n

module _ (set : Setting) where
  is_error : State → Bool
  is_error error = true
  is_error _ = false

  read_from : Answers → Option Bytes → Client → Result Client
  unfolding close_connection feed_client is_error
  read_from a none c = returns (close_connection c)
  read_from a (some []) c = returns (close_connection c)
  read_from a (some (b ∷ bs)) c =
      let fed = feed_client set a (b ∷ bs) c in if is_error c.parser.state then returns c else fed

  unfoldable pub handle_read : Answers → Client → Result Client
  unfolding read_from
  handle_read a c = read_from a a.received c

  drained : Option Bytes → Client → Client
  unfolding close_connection
  drained none c = close_connection c
  drained (some []) c = close_connection c
  drained (some (b ∷ bs)) c = c

  -- `now - start > 5`; the clock does not run backwards.
  unfoldable pub handle_draining : Answers → Client → Client
  unfolding drained close_connection
  handle_draining a c =
      if ltb 5 (a.now - c.drain_start_time) then close_connection c else drained a.received c

  -- A read that brings nothing leaves the buffer as `resize` made it.
  ended_body : Answers → Body → Client → Result Client
  unfolding finalize_connection zeros
  ended_body a b c = finalize_connection set a (record c {
    response = record c.response { body = to_body b };
    rsp_buffer = record c.rsp_buffer { buffer = zeros a.capacity };
  })

  -- The next bytes of the body, which go to the buffer and are sent as far as the socket takes them.
  sent_body : Answers → Option Bytes × Body → Client → Result Client
  unfolding ended_body send
  sent_body a (none, b) c = ended_body a b c
  sent_body a (some [], b) c = ended_body a b c
  sent_body a (some (x ∷ xs), b) c = returns (record c {
    response = record c.response { body = to_body b };
    rsp_buffer = (send a.second_send (record c.rsp_buffer { buffer = x ∷ xs })).1;
  })

  next_of_body : Answers → Option Body → Client → Result Client
  unfolding finalize_connection sent_body is_done Response.read
  next_of_body a none c = finalize_connection set a c
  next_of_body a (some b) c =
      let more = sent_body a (Response.read (a.file_read a.capacity) a.capacity b) c in
      let last = finalize_connection set a c in if is_done b then last else more

  written : Answers → SendStatus × SendBuffer → Client → Result Client
  unfolding next_of_body body_of
  written a (send_again, b) c = returns (record c { rsp_buffer = b })
  written a (send_done, b) c = next_of_body a (body_of c.response) (record c { rsp_buffer = b })

  unfoldable pub handle_static_response_write : Answers → Client → Result Client
  unfolding send written
  handle_static_response_write a c = written a (send a.first_send c.rsp_buffer) c

  unfoldable pub handle_cgi_response_write : Answers → Client → Result Client
  unfolding send is_fully_sent finalize_connection
  handle_cgi_response_write a c =
      let c1 = record c { rsp_buffer = (send a.first_send c.rsp_buffer).1 } in
      let last = finalize_connection set a c1 in
      if not (is_fully_sent c1.rsp_buffer)
      then returns c1
      else if c1.cgi_done || not c1.has_cgi
      then last
      else returns (record c1 { writes = false; cgi_reads = true })

  on_input : Answers → Events → Client → Result Client
  unfolding handle_draining handle_read
  on_input a e c =
      let fed = handle_read a c in
      if not e.can_read
      then returns c
      else if c.is_draining
      then returns (handle_draining a c)
      else fed

  on_output : Answers → Events → Client → Result Client
  unfolding handle_cgi_response_write handle_static_response_write
  on_output a e c =
      let cgi = handle_cgi_response_write a c in
      let static = handle_static_response_write a c in
      if not e.can_write then returns c else if c.has_cgi then cgi else static

  -- `handleEvent`.
  unfoldable pub handle_event : Answers → Events → Client → Result Client
  unfolding on_input on_output close_connection
  handle_event a e c =
      let served = on_input a e c >>= on_output a e in
      if e.hup_or_err then returns (close_connection c) else served

  -- Called by the CGI handler.
  unfoldable pub is_send_buffer_full : Client → Bool
  is_send_buffer_full c = ltb (1024 * 1024) (length c.rsp_buffer.buffer)

  unfoldable pub push_to_send_buffer : Bytes → Client → Client
  unfolding is_send_buffer_full
  push_to_send_buffer bytes c =
      let c1 = record c {
        rsp_buffer = record c.rsp_buffer { buffer = c.rsp_buffer.buffer ++ bytes };
        writes = if is_empty c.rsp_buffer.buffer then true else c.writes;
      } in
      if is_send_buffer_full c1 then record c1 { cgi_reads = false } else c1

  unfoldable pub on_cgi_complete : Answers → Client → Result Client
  unfolding remove_cgi is_fully_sent finalize_connection
  on_cgi_complete a c =
      let c1 = remove_cgi (record c { cgi_done = true }) in
      let last = finalize_connection set a c1 in
      if is_fully_sent c1.rsp_buffer then last else returns (record c1 { writes = true })

  -- The field Status of a CGI answer, by `atoi`.
  with_cgi_status : Option Bytes → Response → Response
  unfolding strtol to_http_status value set_status erase_key
  with_cgi_status none r = r
  with_cgi_status (some v) r =
      let st = to_http_status (strtol v % 2 ^ 32) in
      let r1 = if value st == value unknown_status then r else set_status st r in
      record r1 { headers = erase_key (codes "Status") r1.headers }

  unfoldable pub on_cgi_headers_parsed : Headers → Client → Client
  unfolding with_cgi_status send_headers add_header Headers.get?
  on_cgi_headers_parsed headers c =
      let r =
        with_cgi_status (Headers.get? (codes "Status") headers)
          (record c.response { headers = headers }) in
      let sized =
        Headers.has (codes "Content-Length") headers
        || Headers.has (codes "Transfer-Encoding") headers in
      let c1 = record c { is_keep_alive = c.is_keep_alive && sized } in
      send_headers (add_header (codes "Connection") (connection_value c1) r) c1
