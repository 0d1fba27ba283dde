-- ===== src/Http/RequestParser/Equations.antt =====
-- The operations of the request parser as equations that leave what they call shut.
use server_x.Common.{
  ℕ, true, none, some, [], ◌≡◌, ◌≢◌, ◌⊎◌, refl, sym, ap, ◌∙◌, arith, if-true, length, drop, Bytes,
  find_byte, is_empty, ltb, if◌then◌else◌, ◌&&◌, not,
}
use server_x.Http.Status.{bad_request, payload_too_large, internal_server_error}
use server_x.Http.Chunked
use server_x.Http.Chunked.{Outcome, set_max_body_size}
use server_x.Http.Headers.{find_header_end}
use server_x.Http.Request.{TempFile, new_temp_file, parse_start_line, get_max_allowed_content_size}
use server_x.Http.RequestParser.{
  Os, headers_ready, reading_body, request_ready, error, RequestParser, set_error,
  set_request_ready, handle_content_length_body, chunk_decoded, handle_chunked_body, read_body,
  open_body, parse_body, proceed_reading_body, parse_section, parse_head, look_for_end,
  parse_headers, feed, strip_crlf, is_unknown, take_in, is_reading_headers, is_reading_body,
}

pub handle_chunked_body-eq :
    (os : Os) (p : RequestParser)
    → handle_chunked_body os p ≡ (
        let r = Chunked.parse p.chunk_parser p.buffer [] in
        chunk_decoded os r
          (record p { buffer = drop r.consumed p.buffer; chunk_parser = r.parser }))
unfolding handle_chunked_body
handle_chunked_body-eq os p = refl

pub read_body-eq :
    (os : Os) (p : RequestParser)
    → read_body os p
      ≡ (if p.is_chunked then handle_chunked_body os p else handle_content_length_body os p)
unfolding read_body
read_body-eq os p = refl

-- With `f` for the body.
abbrev pub with_body : TempFile → RequestParser → RequestParser
with_body f p = record p { request = record p.request { body = some f } }

pub open_body-eq :
    (os : Os) (f : TempFile) (p : RequestParser)
    → open_body os f p ≡ (
        if f.is_open
        then read_body os (with_body f p)
        else if os.opens
        then read_body os (with_body (record { is_open = true; content = [] }) p)
        else set_error internal_server_error p)
unfolding open_body
open_body-eq os f p = refl

pub parse_body-eq :
    (os : Os) (p : RequestParser)
    → parse_body os p ≡ open_body os (elim p.request.body [ none ↦ new_temp_file | some f ↦ f ]) p
unfolding parse_body
parse_body-eq os p = refl

pub parse_head-eq :
    (os : Os) (n offset : ℕ) (p : RequestParser)
    → parse_head os n offset p ≡ (
        let line = parse_start_line p.buffer in
        let q = record p {
          state = headers_ready;
          request = record p.request { start_line = line };
        } in
        if is_unknown line.method
        then set_error bad_request q
        else parse_section os n offset (find_byte b'\n' p.buffer) q)
unfolding parse_head
parse_head-eq os n offset p = refl

pub parse_headers-eq :
    (os : Os) (p : RequestParser)
    → parse_headers os p ≡ (
        let stripped = strip_crlf p.buffer in
        if is_empty stripped && not (is_empty p.buffer)
        then (if ltb 1024 (length p.buffer) then record p { buffer = [] } else p)
        else if ltb p.max_header_size (length stripped)
        then set_error bad_request (record p { buffer = stripped })
        else look_for_end os (find_header_end stripped) (record p { buffer = stripped }))
unfolding parse_headers
parse_headers-eq os p = refl

-- Where `proceedReadingBody` goes with the headers ready.
pub proceed_reading_body-eq :
    (os : Os) (p : RequestParser)
    → p.state ≡ headers_ready
    → proceed_reading_body os p ≡ (
        let limit = get_max_allowed_content_size p.request in
        if p.is_chunked
        then parse_body os (record p {
          state = reading_body;
          chunk_parser = set_max_body_size limit p.chunk_parser;
        })
        else if ltb 0 p.content_length
        then (if ltb limit p.content_length
            then set_error payload_too_large (record p { state = reading_body })
            else parse_body os (record p { state = reading_body }))
        else set_request_ready os (record p { state = reading_body }))
unfolding proceed_reading_body
proceed_reading_body-eq os p e = rw e

pub proceed_elsewhere :
    (os : Os) (p : RequestParser) → p.state ≢ headers_ready → proceed_reading_body os p ≡ p
unfolding proceed_reading_body
proceed_elsewhere os p n = ground arith

pub feed-eq :
    (os : Os) (chunk : Bytes) (p : RequestParser)
    → feed os chunk p ≡ (
        let q = if is_reading_headers p.state then parse_headers os (take_in chunk p) else p in
        if is_reading_body q.state then parse_body os (take_in chunk q) else q)
unfolding feed
feed-eq os chunk p = refl

-- With the body's file open, `parseBody` goes on reading.
pub parse_body-open :
    (os : Os) (p : RequestParser) (f : TempFile)
    → p.request.body ≡ some f
    → f.is_open ≡ true
    → parse_body os p
      ≡ (if p.is_chunked then handle_chunked_body os p else handle_content_length_body os p)
parse_body-open os p f e o =
    let file : (elim p.request.body [ none ↦ new_temp_file | some f ↦ f ]) ≡ f = rw e refl in
    let same : with_body f p ≡ p =
      ap (λ b. record p { request = record p.request { body = b } }) (sym e) in
    parse_body-eq os p
    ∙ ap (λ g. open_body os g p) file
    ∙ open_body-eq os f p
    ∙ if-true _ _ o
    ∙ ap (read_body os) same
    ∙ read_body-eq os p

-- Without one, it opens a file first.
pub parse_body-new :
    (os : Os) (p : RequestParser)
    → p.request.body ≡ none
    → os.opens ≡ true
    → parse_body os p ≡ (
        let q = with_body (record { is_open = true; content = [] }) p in
        if q.is_chunked then handle_chunked_body os q else handle_content_length_body os q)
parse_body-new os p e o =
    let file : (elim p.request.body [ none ↦ new_temp_file | some f ↦ f ]) ≡ new_temp_file =
      rw e refl in
    parse_body-eq os p
    ∙ ap (λ g. open_body os g p) file
    ∙ open_body-eq os new_temp_file p
    ∙ if-true _ _ o
    ∙ read_body-eq os (with_body (record { is_open = true; content = [] }) p)

pub set_request_ready-cases :
    (os : Os) (p : RequestParser)
    → ((set_request_ready os p).state ≡ error)
      ⊎ (set_request_ready os p ≡ record p { state = request_ready })
unfolding set_request_ready set_error
set_request_ready-cases os p = ground arith
