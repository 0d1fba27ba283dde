-- ===== src/Http/Chunked/Round/Size.antt =====
-- The round in READING_SIZE: the line ends within the first part, goes on into the second, or
-- does not end.
use server_x.Common.{
  ℕ, zero, suc, ◌+◌, ◌-◌, ◌%◌, false, ◌&&◌, Option, none, some, [], ◌++◌, ◌≡◌, ◌⊎◌, inl, inr, refl,
  ap, ◌∙◌, arith, append_assoc, Bool-cases, Option-cases, length, length-append, take,
  take-append_le, Bytes, is_empty, ltb,
}
use server_x.Http.Chunked.{
  size_mod, ChunkedBodyParser, reading_size, reading_data, reading_final_crlf, parse_hex, find_crlf,
  accept_size, read_size_line, read_size, handler, success,
}
use server_x.Http.Chunked.Crlf.{find_crlf-append, find_crlf-bound, find_crlf-append_late}
use server_x.Http.Chunked.Round.{
  IsWaiting, Round, same, rest, fails, length-pos, is_empty-eq, join_steps, join_nil,
}

-- `accept_size` does not look at the bytes consumed.
accept_size-cases :
    (p : ChunkedBodyParser) (out : Bytes) (o : Option ℕ)
    → p.size_buffer ≡ []
    → ((m : ℕ) → (accept_size p out m o).result.is_ok ≡ false)
      ⊎ ((q : ChunkedBodyParser) × ((m : ℕ) → accept_size p out m o ≡ success m q out)
          × IsWaiting q
          × (q.total_written ≡ p.total_written))
unfolding accept_size find_crlf
accept_size-cases p out none e = inl (λ m. refl)
accept_size-cases p out (some zero) e = inr (
  record p { state = reading_final_crlf },
  λ m. refl,
  record { no_line = rw e; pending = λ h. cc },
  refl,
)
accept_size-cases p out (some (suc n)) e =
    elim (Bool-cases
      (ltb 0 p.max_body_size && ltb p.max_body_size ((p.total_written + suc n) % size_mod))) [
        | inl h ↦ inl (λ m. rw h (ground arith))
        | inr h ↦ inr (
          record p { bytes_remaining = suc n; state = reading_data },
          λ m. ground arith,
          record { no_line = rw e; pending = λ _. omega arith },
          refl,
        )
      ]

-- `readSize` at a line that ends, and at one that does not.
read_size-some :
    (p : ChunkedBodyParser) (x out : Bytes) (k : ℕ)
    → find_crlf p.size_buffer ≡ none
    → find_crlf (p.size_buffer ++ x) ≡ some k
    → read_size p x out
      ≡ accept_size
          (record p { size_buffer = [] })
          out
          (k + 2 - length p.size_buffer)
          (parse_hex (take k (p.size_buffer ++ x)))
unfolding read_size
read_size-some p x out k e h =
    rw (h, read_size_line) (ground (arith, find_crlf-append_late p.size_buffer x e h))

read_size-none :
    (p : ChunkedBodyParser) (x out : Bytes)
    → find_crlf (p.size_buffer ++ x) ≡ none
    → read_size p x out ≡ success (length x) (record p { size_buffer = p.size_buffer ++ x }) out
unfolding read_size
read_size-none p x out h = rw (h, read_size_line)

handler_size :
    (p : ChunkedBodyParser) (x out : Bytes)
    → p.state ≡ reading_size
    → handler p.state p x out ≡ read_size p x out
unfolding handler
handler_size p x out st = ap (λ s. handler s p x out) st

-- A line that ends within `a` is read alike with `b` behind it.
read_size-append :
    (p : ChunkedBodyParser) (a b out : Bytes) (k : ℕ)
    → find_crlf p.size_buffer ≡ none
    → find_crlf (p.size_buffer ++ a) ≡ some k
    → read_size p (a ++ b) out
      ≡ accept_size
          (record p { size_buffer = [] })
          out
          (k + 2 - length p.size_buffer)
          (parse_hex (take k (p.size_buffer ++ a)))
read_size-append p a b out k e h =
    read_size-some p (a ++ b) out k e
      (rw (← append_assoc p.size_buffer a b) (find_crlf-append (p.size_buffer ++ a) b h))
    ∙ rw (← append_assoc p.size_buffer a b) (
        rw (
          take-append_le k (p.size_buffer ++ a) b
            (omega (arith, find_crlf-bound (p.size_buffer ++ a) h))))

module _ (p : ChunkedBodyParser) (a b out : Bytes) (st : p.state ≡ reading_size) (w : IsWaiting p)
    (ea : is_empty a ≡ false) where
  Round-line_within : (k : ℕ) → find_crlf (p.size_buffer ++ a) ≡ some k → Round p a b out
  Round-line_within k h =
      let m = k + 2 - length p.size_buffer in
      elim (accept_size-cases (record p { size_buffer = [] }) out
        (parse_hex (take k (p.size_buffer ++ a))) refl) [
          | inl f ↦
              fails (
                rw (handler_size p (a ++ b) out st, read_size-append p a b out k w.no_line h) (f m))
          | inr (q, s, wq, tq) ↦
              same m q out (omega (arith, find_crlf-append_late p.size_buffer a w.no_line h))
                (omega (
                  arith,
                  find_crlf-bound (p.size_buffer ++ a) h,
                  length-append {0} p.size_buffer a,
                ))
                wq (omega arith)
                (handler_size p a out st ∙ (read_size-some p a out k w.no_line h ∙ s m))
                (handler_size p (a ++ b) out st ∙ (read_size-append p a b out k w.no_line h ∙ s m))
        ]

  -- `a` holds no end of the line: it goes to the buffer, and `b` is read from there.
  abbrev buffered : ChunkedBodyParser
  buffered = record p { size_buffer = p.size_buffer ++ a }

  handler-buffered :
      find_crlf (p.size_buffer ++ a) ≡ none
      → handler p.state p a out ≡ success (length a) buffered out
  handler-buffered h = handler_size p a out st ∙ read_size-none p a out h

  -- The step on `a ++ b` where the line ends within `b`.
  read_size-across :
      (k : ℕ)
      → find_crlf ((p.size_buffer ++ a) ++ b) ≡ some k
      → handler p.state p (a ++ b) out
        ≡ accept_size
            (record p { size_buffer = [] })
            out
            (k + 2 - length p.size_buffer)
            (parse_hex (take k ((p.size_buffer ++ a) ++ b)))
  read_size-across k e =
      handler_size p (a ++ b) out st
      ∙ (read_size-some p (a ++ b) out k w.no_line (rw (← append_assoc p.size_buffer a b) e)
          ∙ rw (append_assoc p.size_buffer a b))

  Round-line_across :
      find_crlf (p.size_buffer ++ a) ≡ none
      → is_empty b ≡ false
      → (k : ℕ) → find_crlf ((p.size_buffer ++ a) ++ b) ≡ some k
      → Round p a b out
  Round-line_across h eb k e =
      let m = k + 2 - length (p.size_buffer ++ a) in
      let late = find_crlf-append_late (p.size_buffer ++ a) b h e in
      elim (accept_size-cases (record p { size_buffer = [] }) out
        (parse_hex (take k ((p.size_buffer ++ a) ++ b))) refl) [
          | inl f ↦ fails (rw (read_size-across k e) (f (k + 2 - length p.size_buffer)))
          | inr (q, s, wq, tq) ↦
              rest buffered out (record { no_line = h; pending = λ d. cc (st, d) })
                (handler-buffered h)
                (join_steps p a b out buffered out m q out ea eb (rw st) (rw st) (omega arith)
                  (handler_size buffered b out st ∙ (read_size-some buffered b out k h e ∙ s m))
                  (read_size-across k e
                    ∙ (s (k + 2 - length p.size_buffer)
                        ∙ ap (λ (n : ℕ). success n q out)
                            (omega (arith, length-append {0} p.size_buffer a)))))
        ]

  Round-line_open : find_crlf (p.size_buffer ++ a) ≡ none → is_empty b ≡ false → Round p a b out
  Round-line_open h eb = elim (Option-cases (find_crlf ((p.size_buffer ++ a) ++ b))) [
    | inl e ↦
        let e' : find_crlf (p.size_buffer ++ (a ++ b)) ≡ none =
          rw (← append_assoc p.size_buffer a b) e in
        rest buffered out (record { no_line = h; pending = λ d. cc (st, d) }) (handler-buffered h)
          (join_steps p a b out buffered out (length b)
            (record p { size_buffer = (p.size_buffer ++ a) ++ b }) out ea eb (rw st) (rw st)
            (length-pos b eb) (handler_size buffered b out st ∙ read_size-none buffered b out e)
            (handler_size p (a ++ b) out st
              ∙ (read_size-none p (a ++ b) out e'
                  ∙ rw (append_assoc p.size_buffer a b) (rw (length-append a b)))))
    | inr (k, e) ↦ Round-line_across h eb k e
  ]

  pub Round-size : Round p a b out
  Round-size = elim (Option-cases (find_crlf (p.size_buffer ++ a))) [
    | inr (k, h) ↦ Round-line_within k h
    | inl h ↦ elim (Bool-cases (is_empty b)) [
      | inr eb ↦ Round-line_open h eb
      | inl eb ↦
          rest buffered out (record { no_line = h; pending = λ d. cc (st, d) }) (handler-buffered h)
            (rw (is_empty-eq b eb) (join_nil p a out buffered out ea (rw st) (handler-buffered h)))
    ]
  ]
