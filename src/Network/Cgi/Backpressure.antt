-- ===== src/Network/Cgi/Backpressure.antt =====
-- Successive reads of the output of a CGI process, while the client's buffer has room.
use server_x.Common.{
  ℕ, ◌+◌, ◌*◌, ◌≤◌, ◌<◌, ◌≡◌, refl, sym, ap, ◌∙◌, true, false, some, List, [], ◌∷◌, ◌++◌,
  append-nil, append_assoc, arith, ltb, if◌then◌else◌, if-holds, if-holds_both, length,
  length-append, All, Bytes, Result, returns, ◌>>=◌,
}
use server_x.Network.Connection.{Client, Answers, Setting}
use server_x.Network.Client.{is_send_buffer_full, push_to_send_buffer}
use server_x.Network.Cgi.{CgiHandler, streaming_body, stream_body, read_output}

abbrev pub full_at : ℕ
full_at = 1024 * 1024

-- What `read` gives while there is output.
abbrev pub OneRead : Bytes → Type 0
OneRead x = (0 < length x) × (length x ≤ 8192)

-- The reads that a buffer of n bytes takes up: all those that begin while it is not full.
unfoldable pub accepted : ℕ → List Bytes → Bytes
accepted n [] = []
accepted n (x ∷ xs) =
    let rest = accepted (n + length x) xs in if ltb full_at n then [] else x ++ rest

accepted-full : (n : ℕ) (xs : List Bytes) → ltb full_at n ≡ true → accepted n xs ≡ []
unfolding accepted
accepted-full n [] e = refl
accepted-full n (x ∷ xs) e = rw e

accepted-length :
    (n : ℕ) (xs : List Bytes)
    → All OneRead xs
    → n ≤ full_at + 8192
    → n + length (accepted n xs) ≤ full_at + 8192
unfolding accepted
accepted-length n [] h le = omega arith
accepted-length n (x ∷ xs) h le =
    if-holds (λ (w : Bytes). n + length w ≤ full_at + 8192) (ltb full_at n) (λ _. omega (arith, le))
      (λ e. ground (
        arith,
        h.0.1,
        length-append x (accepted (n + length x) xs),
        accepted-length (n + length x) xs h.1,
      ))

module _ (set : Setting) where
  -- The events of the process, each with what is read.
  unfoldable pub reads_output :
      Answers → List Bytes → CgiHandler → Client → Result (CgiHandler × Client)
  unfolding read_output
  reads_output a [] h c = returns (h, c)
  reads_output a (x ∷ xs) h c = read_output set a (some x) h c >>= λ p. reads_output a xs p.0 p.1

  pub data Streamed (h : CgiHandler) (whole : Bytes) : Result (CgiHandler × Client) → Type 0 where
    streamed : (d : Client) → d.rsp_buffer.buffer ≡ whole → Streamed h whole (returns (h, d))

  push-buffer :
      (x : Bytes) (c : Client)
      → (push_to_send_buffer set x c).rsp_buffer.buffer ≡ c.rsp_buffer.buffer ++ x
  unfolding push_to_send_buffer
  push-buffer x c =
      if-holds (λ (d : Client). d.rsp_buffer.buffer ≡ c.rsp_buffer.buffer ++ x) _ (λ _. refl)
        (λ _. refl)

  Streamed-whole :
      {h : CgiHandler} {whole other : Bytes} {m : Result (CgiHandler × Client)}
      → Streamed h whole m
      → whole ≡ other
      → Streamed h other m
  Streamed-whole (streamed d e) q = streamed d (e ∙ q)

  -- Behind a read that is pushed.
  pushed :
      (w x r : Bytes) (xs : List Bytes)
      → r ≡ w ++ x
      → r ++ accepted (length r) xs ≡ w ++ (x ++ accepted (length w + length x) xs)
  pushed w x r xs e =
      ap (λ t. t ++ accepted (length t) xs) e
      ∙ ap (λ n. (w ++ x) ++ accepted n xs) (length-append w x)
      ∙ append_assoc w x (accepted (length w + length x) xs)

  calls-Streamed :
      (a : Answers) (xs : List Bytes) (headers : Bytes) (c : Client)
      → All OneRead xs
      → Streamed
          (record { header_buffer = headers; state = streaming_body })
          (c.rsp_buffer.buffer ++ accepted (length c.rsp_buffer.buffer) xs)
          (reads_output a xs (record { header_buffer = headers; state = streaming_body }) c)
  unfolding reads_output accepted read_output stream_body is_send_buffer_full
  calls-Streamed a [] headers c h = streamed c (sym (append-nil c.rsp_buffer.buffer))
  calls-Streamed a ([] ∷ xs) headers c h = absurd (omega (arith, h.0.0))
  calls-Streamed a ((b ∷ bs) ∷ xs) headers c h =
      let g : CgiHandler = record { header_buffer = headers; state = streaming_body } in
      let w = c.rsp_buffer.buffer in
      if-holds_both
        (λ (t : Bytes) (m : Result (CgiHandler × Client)).
          Streamed g (w ++ t) (m >>= λ p. reads_output a xs p.0 p.1))
        (ltb full_at (length w))
        (λ e.
          Streamed-whole (calls-Streamed a xs headers (record c { cgi_reads = false }) h.1)
            (ap (λ t. w ++ t) (accepted-full (length w) xs e)))
        (λ _.
          Streamed-whole (calls-Streamed a xs headers (push_to_send_buffer set (b ∷ bs) c) h.1) (
            pushed w (b ∷ bs) (push_to_send_buffer set (b ∷ bs) c).rsp_buffer.buffer xs
              (push-buffer (b ∷ bs) c)))

  -- While a CGI process has output, successive reads of at most 8192 bytes extend the client's buffer
  -- by exactly what is read, in order, up to the first read that finds it over 1 MiB, and the buffer
  -- stays within 1 MiB and 8192 bytes, if it was at first.
  pub reads_output-Streamed :
      (a : Answers) (xs : List Bytes) (headers : Bytes) (c : Client)
      → All OneRead xs
      → length c.rsp_buffer.buffer ≤ full_at + 8192
      → Streamed
          (record { header_buffer = headers; state = streaming_body })
          (c.rsp_buffer.buffer ++ accepted (length c.rsp_buffer.buffer) xs)
          (reads_output a xs (record { header_buffer = headers; state = streaming_body }) c)
        × (length (c.rsp_buffer.buffer ++ accepted (length c.rsp_buffer.buffer) xs)
            ≤ full_at + 8192)
  reads_output-Streamed a xs headers c h le = (
    calls-Streamed a xs headers c h,
    omega (
      arith,
      accepted-length (length c.rsp_buffer.buffer) xs h le,
      length-append c.rsp_buffer.buffer (accepted (length c.rsp_buffer.buffer) xs),
    ),
  )
