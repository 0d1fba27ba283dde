-- ===== src/Network/Serving.antt =====
-- src/network/ClientHandler.cpp: what a connection does with the request that it has received.
use server_x.Common.{
  ℕ, zero, suc, Bool, true, false, not, ◌&&◌, Option, none, some, [], if◌then◌else◌, Bytes, codes,
  beq, is_some, to_lower, Result, returns, ◌>>=◌,
}
use server_x.Http.Status.{HttpStatus, internal_server_error}
use server_x.Http.Headers
use server_x.Http.Headers.{Headers, strtol, erase_key}
use server_x.Http.Request.{Request}
use server_x.Http.RequestParser.{
  feed, proceed_reading_body, has_leftover_data, error, headers_ready, request_ready,
}
use server_x.Http.Router.{match_server_and_location}
use server_x.Http.Errors.{handle_error}
use server_x.Http.Dispatch
use server_x.Http.Dispatch.{Context}
use server_x.Http.Response
use server_x.Http.Response.{
  Response, Body, BodyPointer, to_body, new_response, set_status, add_header, build_headers,
  is_done, get_event_source_fd,
}
use server_x.Network.SendBuffer.{empty_buffer}
use server_x.Network.Connection.{
  Client, Answers, Setting, remove_cgi, reset_for_new_request, initiate_draining, body_of,
  send_headers, setup_static_response,
}

module _ (set : Setting) where
  unfoldable pub handle_client_error : HttpStatus → Client → Client
  unfolding remove_cgi Response.clear set_status handle_error send_headers add_header
  handle_client_error status c =
      let page =
        handle_error set.ctx.fs.file_size set.ctx.mime c.caches c.parser.request
          (set_status status (Response.clear c.response)) in
      if c.headers_sent
      then c
      else send_headers (add_header (codes "Connection") (codes "close") page.0)
          (record (remove_cgi c) {
            is_keep_alive = false;
            rsp_buffer = empty_buffer;
            caches = page.1;
          })

  -- `setupCgiHandler`, and the error where it fails.
  setup_cgi : Answers → Client → Client
  unfolding handle_client_error
  setup_cgi a c =
      if a.cgi_starts
      then record c { has_cgi = true; cgi_reads = true; reads = false }
      else handle_client_error internal_server_error (record c { has_cgi = false })

  is_active : Option Body → Bool
  unfolding is_done get_event_source_fd
  is_active none = false
  is_active (some b) = not (is_done b) && is_some (get_event_source_fd b)

  unfoldable pub generate_response : Answers → Client → Client
  unfolding Dispatch.dispatch setup_cgi is_active body_of setup_static_response
  generate_response a c =
      let req = record c.parser.request { remote_addr = set.client_addr } in
      let d = Dispatch.dispatch set.ctx c.caches req c.response in
      let c1 = record c {
        parser = record c.parser { request = req };
        response = d.0.0;
        caches = d.0.1;
      } in
      if is_active (body_of d.0.0) then setup_cgi a c1 else setup_static_response c1

  keeps_alive : Request → Bool
  unfolding to_lower
  keeps_alive r =
      let connection = to_lower (Headers.get (codes "Connection") r.headers) in
      if beq connection (codes "keep-alive")
      then true
      else if beq connection (codes "close")
      then false
      else beq r.start_line.version (codes "HTTP/1.1")

  matched : Client → Result Client
  unfolding match_server_and_location
  matched c = match_server_and_location set.config set.port c.parser.request >>= λ r.
      returns (record c { parser = record c.parser { request = r } })

  -- `handleRequestParsingState`. Behind HEADERS_READY the parser is in another state, so that two
  -- rounds are fuel enough.
  unfoldable pub on_state : ℕ → Answers → Client → Result Client
  unfolding handle_client_error matched proceed_reading_body generate_response keeps_alive
  on_state zero a c = returns c
  on_state (suc fuel) a c =
      let further = matched c >>= λ c1.
      on_state fuel a (record c1 { parser = proceed_reading_body set.os c1.parser }) in
      elim c.parser.state [
        | error ↦ returns (handle_client_error c.parser.error_status c)
        | headers_ready ↦ further
        | request_ready ↦ matched c >>= λ c1.
            returns
              (generate_response a (record c1 { is_keep_alive = keeps_alive c1.parser.request }))
        | _ ↦ returns c
      ]

  -- `handleRequestParsingState(reqParser_.feed(...))`.
  unfoldable pub feed_client : Answers → Bytes → Client → Result Client
  unfolding on_state feed
  feed_client a bytes c = on_state 2 a (record c { parser = feed set.os bytes c.parser })

  unfoldable pub finalize_connection : Answers → Client → Result Client
  unfolding reset_for_new_request initiate_draining feed_client
  finalize_connection a c =
      let fresh = record (reset_for_new_request c) { reads = true; writes = false } in
      let next = feed_client a [] fresh in
      if c.is_keep_alive
      then (if has_leftover_data fresh.parser then next else returns fresh)
      else returns (initiate_draining a c)
