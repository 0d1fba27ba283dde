-- ===== src/Http/Chunked/Round/Data.antt =====
-- The round in READING_DATA: the chunk ends within the first part or goes on into the second.
use server_x.Common.{
  ℕ, ◌+◌, ◌-◌, ◌≤◌, ◌<◌, ◌%◌, min, Bool, true, false, ◌&&◌, ◌++◌, ◌≡◌, inl, inr, refl, ap, ap₂, ◌∙◌,
  arith, append_assoc, Bool-cases, length, length-append, take, take-append_le, take-append_ge,
  take_all, Bytes, is_empty, ltb, leb, ◌==◌, if◌then◌else◌,
}
use server_x.Http.Chunked.{
  size_mod, ChunkedBodyParser, reading_data, reading_trailer_crlf, read_data, handler, success,
}
use server_x.Http.Chunked.Round.{
  IsWaiting, Round, same, rest, fails, length-pos, is_empty-eq, cancel, join_steps, join_nil,
}

-- The test of the limit in `readData`.
abbrev over_limit : ChunkedBodyParser → ℕ → Bool
over_limit p n = ltb 0 p.max_body_size && ltb p.max_body_size ((p.total_written + n) % size_mod)

-- `readData` on `n` bytes that pass the test.
abbrev after_data : ChunkedBodyParser → ℕ → ChunkedBodyParser
after_data p n = record p {
  total_written = (p.total_written + n) % size_mod;
  bytes_remaining = p.bytes_remaining - n;
  state = if p.bytes_remaining - n == 0 then reading_trailer_crlf else p.state;
}

read_data_lem :
    (p : ChunkedBodyParser) (x out : Bytes) (n : ℕ)
    → p.state ≡ reading_data
    → min (length x) p.bytes_remaining ≡ n
    → (over_limit p n ≡ true → (handler p.state p x out).result.is_ok ≡ false)
      × (over_limit p n ≡ false
          → handler p.state p x out ≡ success n (after_data p n) (out ++ take n x))
unfolding handler
read_data_lem p x out n st e = (
  λ h. rw (ap (λ s. handler s p x out) st) (rw (e, read_data) (rw (h, read_data))),
  λ h. rw (ap (λ s. handler s p x out) st) (rw (e, read_data) (rw (h, read_data))),
)

-- What passes the test together passes it in part.
over_limit_part :
    (p : ChunkedBodyParser) (n m : ℕ)
    → p.total_written + (n + m) < size_mod
    → over_limit p (n + m) ≡ false
    → (over_limit p n ≡ false) × (over_limit (after_data p n) m ≡ false)
over_limit_part p n m h e = (ground arith, ground arith)

after_data-twice :
    (p : ChunkedBodyParser) (n m : ℕ)
    → p.total_written + (n + m) < size_mod
    → after_data (after_data p n) m ≡ after_data p (n + m)
after_data-twice p n m h = ground arith

after_data-ends :
    (p : ChunkedBodyParser) (n : ℕ)
    → p.bytes_remaining ≤ n
    → (after_data p n).state ≡ reading_trailer_crlf
after_data-ends p n h = ground arith

after_data-stays :
    (p : ChunkedBodyParser) (n : ℕ)
    → p.state ≡ reading_data
    → n < p.bytes_remaining
    → (after_data p n).state ≡ reading_data
after_data-stays p n st h = ground arith

output_join :
    (a b out : Bytes) (m : ℕ)
    → (out ++ take (length a) a) ++ take m b ≡ out ++ take (length a + m) (a ++ b)
output_join a b out m =
    rw (take_all (length a) a (omega arith), append_assoc out a (take m b))
      (rw (take-append_ge (length a + m) a b (omega arith)) (rw (cancel (length a) m)))

module _ (p : ChunkedBodyParser) (a b out : Bytes) (st : p.state ≡ reading_data) (w : IsWaiting p)
    (ea : is_empty a ≡ false) (small : p.total_written + (length a + length b) < size_mod) where
  -- The chunk ends within `a`.
  Round-data_within : p.bytes_remaining ≤ length a → Round p a b out
  Round-data_within h =
      let r = p.bytes_remaining in
      let r_pos = w.pending st in
      let whole = read_data_lem p (a ++ b) out r st (omega (arith, length-append {0} a b)) in
      elim (Bool-cases (over_limit p r)) [
        | inl e ↦ fails (whole.0 e)
        | inr e ↦
            same r (after_data p r) (out ++ take r a) r_pos h
              (record {
                no_line = w.no_line;
                pending = λ d. cc (after_data-ends p r (omega arith), d);
              })
              (omega arith) ((read_data_lem p a out r st (omega arith)).1 e)
              (whole.1 e ∙ rw (take-append_le r a b h))
      ]

  -- The chunk goes on in `b`.
  Round-data_across : length a < p.bytes_remaining → Round p a b out
  Round-data_across h =
      let n = length a in
      let m = min (length b) (p.bytes_remaining - n) in
      let whole = read_data_lem p (a ++ b) out (n + m) st (omega (arith, length-append {0} a b)) in
      elim (Bool-cases (over_limit p (n + m))) [
        | inl e ↦ fails (whole.0 e)
        | inr e ↦
            let parts = over_limit_part p n m (omega arith) e in
            let q = after_data p n in
            let qst = after_data-stays p n st h in
            let first = (read_data_lem p a out n st (omega arith)).1 parts.0 in
            rest q (out ++ take n a) (record { no_line = w.no_line; pending = λ _. omega arith })
              first
              (elim (Bool-cases (is_empty b)) [
                | inl eb ↦
                    rw (is_empty-eq b eb) (join_nil p a out q (out ++ take n a) ea (rw st) first)
                | inr eb ↦
                    join_steps p a b out q (out ++ take n a) m (after_data p (n + m))
                      (out ++ take (n + m) (a ++ b)) ea eb (rw st) (rw qst)
                      (omega (arith, length-pos b eb))
                      ((read_data_lem q b (out ++ take n a) m qst refl).1 parts.1
                        ∙ ap₂ (λ r o. success m r o) (after_data-twice p n m (omega arith))
                            (output_join a b out m))
                      (whole.1 e)
              ])
      ]

  pub Round-data : Round p a b out
  Round-data = elim (Bool-cases (leb p.bytes_remaining (length a))) [
    | inl e ↦ Round-data_within (ground arith)
    | inr e ↦ Round-data_across (ground arith)
  ]
