-- ===== src/Http/RequestParser/Body.antt =====
-- A body of a known length: `handleContentLengthBody`, called by `feed` once its file is open.
use server_x.Common.{
  ℕ, ◌+◌, ◌-◌, ◌≤◌, min, true, false, Option, none, some, ◌++◌, append_assoc, ◌≡◌, ◌⊎◌, inl, inr,
  refl, ◌∙◌, arith, Bool-cases, ◌==◌, ==_iff, if-true, if-false, if-holds, if◌then◌else◌, length,
  take, drop, length-append, length-take, take-append-drop, take-take_le, cut_at, Bytes,
}
use server_x.Http.Request.{TempFile}
use server_x.Http.RequestParser.{
  Os, reading_body, request_ready, error, RequestParser, set_error, set_request_ready,
  content_written, State, append_body, handle_content_length_body, take_in, feed,
}
use server_x.Http.RequestParser.Equations.{set_request_ready-cases, parse_body-open}
use server_x.Http.RequestParser.States.{feed-body}

-- Where the parser stands: `f` holds what has been written, and no more than the body has.
pub record IsCollecting (p : RequestParser) (f : TempFile) : Type 0 where
  pub collecting : p.state ≡ reading_body
  pub counted : p.is_chunked ≡ false
  pub has_file : p.request.body ≡ some f
  pub file_open : f.is_open ≡ true
  pub file_length : length f.content ≡ p.bytes_written
  pub within : p.bytes_written ≤ p.content_length

-- What a call without an error leaves of the `text` that was in the buffer, in a body that is
-- `total` bytes long.
pub record Collected (total : ℕ) (f : TempFile) (text : Bytes) (q : RequestParser) : Type 0 where
  pub file : TempFile
  pub file_there : q.request.body ≡ some file
  pub nothing_lost : file.content ++ q.buffer ≡ f.content ++ text
  pub length_written : length file.content ≡ q.bytes_written
  pub length_kept : q.content_length ≡ total
  pub no_more : q.bytes_written ≤ total
  pub ends : ((q.state ≡ request_ready) × (q.bytes_written ≡ total)) ⊎ (q.state ≡ reading_body)

handle_content_length_body-eq :
    (os : Os) (p : RequestParser)
    → handle_content_length_body os p ≡ (
        let n = min (length p.buffer) (p.content_length - p.bytes_written) in
        if p.bytes_written == p.content_length
        then set_request_ready os p
        else if n == 0
        then p
        else content_written os p (take n p.buffer) (os.written (take n p.buffer)))
unfolding handle_content_length_body
handle_content_length_body-eq os p = refl

-- The parser behind a write of `m` bytes of the buffer.
abbrev written : ℕ → ℕ → RequestParser → RequestParser
written m n p = record p {
  buffer = drop m p.buffer;
  bytes_written = p.bytes_written + m;
  request = append_body (take m (take n p.buffer)) p.request;
}

module _ (p : RequestParser) (f : TempFile) (c : IsCollecting p f) where
  written-Collected :
      (m n : ℕ) (s : State)
      → m ≤ n
      → m ≤ length p.buffer
      → p.bytes_written + m ≤ p.content_length
      → ((s ≡ request_ready) × (p.bytes_written + m ≡ p.content_length)) ⊎ (s ≡ reading_body)
      → Collected p.content_length f p.buffer (record (written m n p) { state = s })
  written-Collected m n s mn ml mc e = record {
    file = record f { content = f.content ++ take m (take n p.buffer) };
    file_there = rw c.has_file refl;
    nothing_lost =
        rw
          (
            take-take_le m n p.buffer mn,
            append_assoc f.content (take m p.buffer) (drop m p.buffer),
            take-append-drop m p.buffer,
          )
          refl;
    length_written = rw (take-take_le m n p.buffer mn) (
        omega (
          arith,
          length-append f.content (take m p.buffer),
          length-take m p.buffer,
          c.file_length,
        ));
    length_kept = refl;
    no_more = mc;
    ends = e;
  }

  content_written-Collected :
      (os : Os) (n : ℕ) (o : Option ℕ)
      → n ≤ p.content_length - p.bytes_written
      → ((m : ℕ) → o ≡ some m → (m ≤ n) × (m ≤ length p.buffer))
      → ((content_written os p (take n p.buffer) o).state ≡ error)
        ⊎ Collected p.content_length f p.buffer (content_written os p (take n p.buffer) o)
  unfolding content_written set_error
  content_written-Collected os n none le m_le = inl refl
  content_written-Collected os n (some m) le m_le =
      let mn = (m_le m refl).0 in
      let ml = (m_le m refl).1 in
      let mc : p.bytes_written + m ≤ p.content_length = omega (arith, c.within) in
      elim (Bool-cases (p.bytes_written + m == p.content_length)) [
        | inl e ↦ rw e (elim (set_request_ready-cases os (written m n p)) [
          | inl bad ↦ inl bad
          | inr good ↦ inr (
              rw good (written-Collected m n request_ready mn ml mc (inl (refl, (==_iff _ _).0 e))))
        ])
        | inr e ↦ rw e (inr (written-Collected m n p.state mn ml mc (inr c.collecting)))
      ]

  -- Nothing is written.
  waiting-Collected :
      (s : State)
      → ((s ≡ request_ready) × (p.bytes_written ≡ p.content_length)) ⊎ (s ≡ reading_body)
      → Collected p.content_length f p.buffer (record p { state = s })
  waiting-Collected s e = record {
    file = f;
    file_there = c.has_file;
    nothing_lost = refl;
    length_written = c.file_length;
    length_kept = refl;
    no_more = c.within;
    ends = e;
  }

  handle_content_length_body-Collected :
      (os : Os)
      → ((handle_content_length_body os p).state ≡ error)
        ⊎ Collected p.content_length f p.buffer (handle_content_length_body os p)
  handle_content_length_body-Collected os =
      let n : ℕ = min (length p.buffer) (p.content_length - p.bytes_written) in
      let P : RequestParser → Type 0 =
        λ q. (q.state ≡ error) ⊎ Collected p.content_length f p.buffer q in
      rw (handle_content_length_body-eq os p) (
        if-holds P (p.bytes_written == p.content_length)
          (λ e. elim (set_request_ready-cases os p) [
            | inl bad ↦ inl bad
            | inr good ↦
                inr (rw good (waiting-Collected request_ready (inl (refl, (==_iff _ _).0 e))))
          ])
          (λ _.
            if-holds P (n == 0) (λ _. inr (waiting-Collected p.state (inr c.collecting)))
              (λ _.
                content_written-Collected os n (os.written (take n p.buffer)) (omega arith) (λ m e.
                  let le : m ≤ length (take n p.buffer) = os.written_le (take n p.buffer) m e in
                  let cut : length (take n p.buffer) ≡ min n (length p.buffer) =
                    length-take n p.buffer in
                  (omega arith, omega arith)))))

feed-collecting :
    (os : Os) (chunk : Bytes) (p : RequestParser) (f : TempFile)
    → IsCollecting p f
    → feed os chunk p ≡ handle_content_length_body os (take_in chunk p)
feed-collecting os chunk p f c =
    feed-body os chunk p c.collecting
    ∙ parse_body-open os (take_in chunk p) f c.has_file c.file_open
    ∙ if-false _ _ c.counted

still :
    (chunk : Bytes) (p : RequestParser) (f : TempFile)
    → IsCollecting p f
    → IsCollecting (take_in chunk p) f
still chunk p f c = record {
  collecting = c.collecting;
  counted = c.counted;
  has_file = c.has_file;
  file_open = c.file_open;
  file_length = c.file_length;
  within = c.within;
}

pub feed-Collected :
    (os : Os) (chunk : Bytes) (p : RequestParser) (f : TempFile)
    → IsCollecting p f
    → ((feed os chunk p).state ≡ error)
      ⊎ Collected p.content_length f (p.buffer ++ chunk) (feed os chunk p)
feed-Collected os chunk p f c =
    rw (feed-collecting os chunk p f c)
      (handle_content_length_body-Collected (take_in chunk p) f (still chunk p f c) os)

module _ (p : RequestParser) (f : TempFile) (c : IsCollecting p f) (os : Os)
    (full : (text : Bytes) → os.written text ≡ some (length text)) (seeks : os.seeks ≡ true) where
  set_request_ready_there : (q : RequestParser) → (set_request_ready os q).state ≡ request_ready
  unfolding set_request_ready
  set_request_ready_there q = ground arith

  content_written_there :
      (n : ℕ)
      → p.bytes_written + n ≡ p.content_length
      → (content_written os p (take n p.buffer) (some n)).state ≡ request_ready
  unfolding content_written
  content_written_there n e =
      rw (if-true (set_request_ready os (written n n p)) (written n n p) ((==_iff _ _).1 e))
        (set_request_ready_there (written n n p))

  body_ready :
      p.content_length ≤ p.bytes_written + length p.buffer
      → (handle_content_length_body os p).state ≡ request_ready
  body_ready enough =
      let n : ℕ = min (length p.buffer) (p.content_length - p.bytes_written) in
      let P : RequestParser → Type 0 = λ q. q.state ≡ request_ready in
      let cut : length (take n p.buffer) ≡ n = omega (arith, length-take n p.buffer) in
      rw (handle_content_length_body-eq os p) (
        if-holds P (p.bytes_written == p.content_length) (λ _. set_request_ready_there p)
          (λ e.
            if-holds P (n == 0) (λ z. absurd (ground (arith, c.within)))
              (λ _.
                rw (full (take n p.buffer), cut)
                  (content_written_there n (omega (arith, c.within))))))

-- Where every `write` writes all it is given and the file can be rewound, a call that brings
-- enough bytes ends the body: the request is ready, its body is the first `content_length` bytes
-- of the file and what followed, and the rest stays in the buffer.
pub feed_completes :
    (os : Os) (chunk : Bytes) (p : RequestParser) (f : TempFile)
    → IsCollecting p f
    → ((text : Bytes) → os.written text ≡ some (length text))
    → os.seeks ≡ true
    → p.content_length ≤ length (f.content ++ (p.buffer ++ chunk))
    → ((feed os chunk p).state ≡ request_ready)
      × ((g : TempFile) × ((feed os chunk p).request.body ≡ some g)
          × (g.content ≡ take p.content_length (f.content ++ (p.buffer ++ chunk))))
      × ((feed os chunk p).buffer ≡ drop p.content_length (f.content ++ (p.buffer ++ chunk)))
feed_completes os chunk p f c full seeks enough =
    let ready : (feed os chunk p).state ≡ request_ready = rw (feed-collecting os chunk p f c) (
      body_ready (take_in chunk p) f (still chunk p f c) os full seeks
        (omega (arith, c.file_length, length-append f.content (p.buffer ++ chunk)))) in
    elim (feed-Collected os chunk p f c) [
      | inl bad ↦ absurd (cc)
      | inr q ↦ elim q.ends [
        | inl e ↦
            let cut =
              cut_at p.content_length q.file.content (feed os chunk p).buffer
                (f.content ++ (p.buffer ++ chunk)) q.nothing_lost (q.length_written ∙ e.1) in
            (ready, (q.file, q.file_there, cut.0), cut.1)
        | inr e ↦ absurd (cc)
      ]
    ]
