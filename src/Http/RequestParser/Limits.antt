-- ===== src/Http/RequestParser/Limits.antt =====
-- What bounds the memory and the disk that one connection takes.
use server_x.Common.{
  ℕ, ◌+◌, ◌≤◌, ◌<◌, true, false, some, [], ◌++◌, ◌≡◌, ◌⊎◌, inl, inr, refl, ◌∙◌, arith, if-true,
  if-holds, if◌then◌else◌, is_empty, not, ◌&&◌, ltb, ltb-false→le, length, length-append,
  length-take, take, drop, Bytes, Option-cases,
}
use server_x.Http.Status.{bad_request}
use server_x.Http.Chunked
use server_x.Http.Chunked.{size_mod, Outcome}
use server_x.Http.Chunked.Limit.{parse_limit, parse-max_body_size}
use server_x.Http.Headers.{find_header_end}
use server_x.Http.Request.{TempFile}
use server_x.Http.RequestParser.{
  Os, State, reading_headers, reading_body, request_ready, error, RequestParser, parse_headers,
  strip_crlf, look_for_end, take_in, feed, append_body, chunk_status, chunk_decoded,
  handle_chunked_body, set_error, write_to_body_file,
}
use server_x.Http.RequestParser.Equations.{
  parse_body-open, handle_chunked_body-eq, parse_headers-eq, set_request_ready-cases,
}
use server_x.Http.RequestParser.States.{feed-headers, feed-body, look_for_end-unfinished}

parse_headers-limit :
    (os : Os) (p : RequestParser)
    → (parse_headers os p).state ≡ reading_headers
    → (length (parse_headers os p).buffer ≤ 1024)
      ⊎ (length (parse_headers os p).buffer ≤ p.max_header_size)
unfolding set_error
parse_headers-limit os p =
    let stripped = strip_crlf p.buffer in
    let s : RequestParser = record p { buffer = stripped } in
    let P : RequestParser → Type 0 = λ q.
      q.state ≡ reading_headers
      → (length q.buffer ≤ 1024) ⊎ (length q.buffer ≤ p.max_header_size) in
    rw (parse_headers-eq os p) (
      if-holds P (is_empty stripped && not (is_empty p.buffer))
        {x = if ltb 1024 (length p.buffer) then record p { buffer = [] } else p}
        {y = if ltb p.max_header_size (length stripped)
          then set_error bad_request s
          else look_for_end os (find_header_end stripped) s}
        (λ _.
          if-holds P (ltb 1024 (length p.buffer)) {x = record p { buffer = [] }} {y = p}
            (λ _ _. inl (omega arith)) (λ short _. inl (ltb-false→le _ _ short)))
        (λ _.
          if-holds P (ltb p.max_header_size (length stripped)) {x = set_error bad_request s}
            {y = look_for_end os (find_header_end stripped) s} (λ _ e. absurd (cc))
            (λ short e.
              rw (look_for_end-unfinished os (find_header_end stripped) s e)
                (inr (ltb-false→le _ _ short)))))

-- While the headers are not complete, what a call of `feed` leaves in the buffer is at most 1024
-- bytes, or as long as the limit on the header section, whatever was in the buffer and however
-- much arrived.
pub feed_header_limit :
    (os : Os) (chunk : Bytes) (p : RequestParser)
    → p.state ≡ reading_headers
    → (feed os chunk p).state ≡ reading_headers
    → (length (feed os chunk p).buffer ≤ 1024)
      ⊎ (length (feed os chunk p).buffer ≤ p.max_header_size)
feed_header_limit os chunk p e f =
    let q = take_in chunk p in
    let fed = feed-headers os chunk p e in rw fed (parse_headers-limit os q (rw⁻¹ fed f))

-- A chunked body being read into the file `f`, with the limit `max`.
pub record IsDecoding (max : ℕ) (f : TempFile) (p : RequestParser) : Type 0 where
  pub has_file : p.request.body ≡ some f
  pub max_is : p.chunk_parser.max_body_size ≡ max
  pub written_le_total : length f.content ≤ p.chunk_parser.total_written
  pub total_le : p.chunk_parser.total_written ≤ max

-- Nothing in the file or in the chunk parser depends on the state.
IsDecoding-at :
    (max : ℕ) (f : TempFile) (p : RequestParser) (s : State)
    → IsDecoding max f p
    → IsDecoding max f (record p { state = s })
IsDecoding-at max f p s d = record {
  has_file = d.has_file;
  max_is = d.max_is;
  written_le_total = d.written_le_total;
  total_le = d.total_le;
}

-- The call failed, or the body is within the limit.
abbrev Bounded : ℕ → RequestParser → Type 0
Bounded max q = (q.state ≡ error) ⊎ ((g : TempFile) × IsDecoding max g q)

chunk_status-Bounded :
    (os : Os) (max : ℕ) (f : TempFile) (s : Chunked.Status) (p : RequestParser)
    → IsDecoding max f p
    → Bounded max (chunk_status os s p)
unfolding chunk_status set_error
chunk_status-Bounded os max f Chunked.chunk_error p d = inl refl
chunk_status-Bounded os max f Chunked.chunk_continue p d = inr (f, d)
chunk_status-Bounded os max f Chunked.chunk_done p d = elim (set_request_ready-cases os p) [
  | inl bad ↦ inl bad
  | inr good ↦ rw good (inr (f, IsDecoding-at max f p request_ready d))
]

chunk_decoded-eq :
    (os : Os) (r : Outcome) (p : RequestParser)
    → chunk_decoded os r p ≡ (
        let w = write_to_body_file os r.output p in
        if is_empty r.output
        then chunk_status os r.status p
        else if w.0
        then chunk_status os r.status w.1
        else w.1)
unfolding chunk_decoded
chunk_decoded-eq os r p = refl

-- Behind the write of the `text`, of which `m` bytes are taken.
abbrev wrote : ℕ → Bytes → RequestParser → RequestParser
wrote m text p = record p {
  bytes_written = p.bytes_written + m;
  request = append_body (take m text) p.request;
}

write_to_body_file-cases :
    (os : Os) (text : Bytes) (p : RequestParser) (f : TempFile)
    → p.request.body ≡ some f
    → (((write_to_body_file os text p).0 ≡ false)
        × ((write_to_body_file os text p).1.state ≡ error))
      ⊎ ((m : ℕ) × (write_to_body_file os text p ≡ (true, wrote m text p)))
unfolding write_to_body_file set_error
write_to_body_file-cases os text p f e = elim (Option-cases (os.written text)) [
  | inl w ↦ inl (ground arith, ground arith)
  | inr (m, w) ↦ inr (m, ground arith)
]

wrote-IsDecoding :
    (max m : ℕ) (text : Bytes) (f : TempFile) (p : RequestParser)
    → p.request.body ≡ some f
    → p.chunk_parser.max_body_size ≡ max
    → length f.content + length text ≤ p.chunk_parser.total_written
    → p.chunk_parser.total_written ≤ max
    → IsDecoding max (record f { content = f.content ++ take m text }) (wrote m text p)
wrote-IsDecoding max m text f p e same w t = record {
  has_file = rw e refl;
  max_is = same;
  written_le_total = omega (arith, length-append f.content (take m text), length-take m text);
  total_le = t;
}

-- The chunk parser counts every byte that it appends to `output`; a write takes at most those.
chunk_decoded-Bounded :
    (os : Os) (max : ℕ) (f : TempFile) (p : RequestParser) (r : Outcome)
    → p.request.body ≡ some f
    → p.chunk_parser.max_body_size ≡ max
    → length f.content + length r.output ≤ p.chunk_parser.total_written
    → p.chunk_parser.total_written ≤ max
    → Bounded max (chunk_decoded os r p)
chunk_decoded-Bounded os max f p r e same w t =
    let P : RequestParser → Type 0 = Bounded max in
    let d : IsDecoding max f p = record {
      has_file = e;
      max_is = same;
      written_le_total = omega arith;
      total_le = t;
    } in
    rw (chunk_decoded-eq os r p) (
      if-holds P (is_empty r.output) (λ _. chunk_status-Bounded os max f r.status p d)
        (λ _. elim (write_to_body_file-cases os r.output p f e) [
          | inl (not_all, bad) ↦ rw not_all (inl bad)
          | inr (m, all) ↦ rw all (
              chunk_status-Bounded os max (record f { content = f.content ++ take m r.output })
                r.status (wrote m r.output p) (wrote-IsDecoding max m r.output f p e same w t))
        ]))

handle_chunked_body-Bounded :
    (os : Os) (max : ℕ) (f : TempFile) (p : RequestParser)
    → IsDecoding max f p
    → 0 < max
    → max + length p.buffer < size_mod
    → Bounded max (handle_chunked_body os p)
handle_chunked_body-Bounded os max f p d lim small =
    let r : Outcome = Chunked.parse p.chunk_parser p.buffer [] in
    let lim' : 0 < p.chunk_parser.max_body_size = omega (arith, d.max_is) in
    let below : p.chunk_parser.total_written ≤ p.chunk_parser.max_body_size =
      omega (arith, d.max_is, d.total_le) in
    let small' : p.chunk_parser.total_written + length p.buffer < size_mod =
      omega (arith, d.total_le) in
    let k = parse_limit p.chunk_parser p.buffer [] lim' below small' in
    let same = parse-max_body_size p.chunk_parser p.buffer [] lim' below small' in
    rw (handle_chunked_body-eq os p) (
      chunk_decoded-Bounded os max f
        (record p { buffer = drop r.consumed p.buffer; chunk_parser = r.parser }) r d.has_file
        (same ∙ d.max_is) (omega (arith, k.1, d.written_le_total)) (omega (arith, k.2, d.max_is)))

-- A chunked body never outgrows the limit that the chunk parser was given, however it is cut into
-- chunks and calls: the file that a call of `feed` leaves is no longer than what the chunk parser
-- has counted, and that is at most the limit. The hypotheses are what the theorem gives back, and
-- that the input is too short to wrap the count around.
pub feed_chunked_limit :
    (os : Os) (chunk : Bytes) (p : RequestParser) (f : TempFile) (max : ℕ)
    → p.state ≡ reading_body
    → p.is_chunked ≡ true
    → f.is_open ≡ true
    → IsDecoding max f p
    → 0 < max
    → max + length (p.buffer ++ chunk) < size_mod
    → ((feed os chunk p).state ≡ error)
      ⊎ ((g : TempFile) × ((feed os chunk p).request.body ≡ some g)
          × (length g.content ≤ max)
          × IsDecoding max g (feed os chunk p))
feed_chunked_limit os chunk p f max reading chunked opened d lim small =
    let q = take_in chunk p in
    let fed : feed os chunk p ≡ handle_chunked_body os q =
      feed-body os chunk p reading
      ∙ parse_body-open os q f d.has_file opened
      ∙ if-true _ _ chunked in
    let d' : IsDecoding max f q = record {
      has_file = d.has_file;
      max_is = d.max_is;
      written_le_total = d.written_le_total;
      total_le = d.total_le;
    } in
    rw fed (elim (handle_chunked_body-Bounded os max f q d' lim small) [
      | inl bad ↦ inl bad
      | inr (g, b) ↦ inr (g, b.has_file, omega (arith, b.written_le_total, b.total_le), b)
    ])
