-- ===== src/Http/Chunked/Limit.antt =====
-- The limit of the body: whatever arrives, no more is appended than the limit allows.
use server_x.Common.{
  ℕ, zero, suc, ◌+◌, ◌-◌, ◌≤◌, ◌<◌, ◌%◌, min, Bool, true, false, Option, none, some, [], ◌∷◌, ◌++◌,
  ◌≡◌, refl, arith, Option-cases, Bool-cases, inl, inr, length, length-append, length-take,
  length-drop, take, drop, Bytes, if◌then◌else◌, is_empty, not, ◌||◌, ◌==◌, ltb, ◌&&◌,
}
use server_x.Http.Chunked.Loop.{parse-drain}
use server_x.Http.Chunked.{
  size_mod, InternalState, ChunkedBodyParser, reading_size, reading_data, reading_trailer_crlf,
  reading_final_crlf, done, parse_hex, find_crlf, accept_size, read_size_line, read_size, read_data,
  read_crlf, handler, run, is_done, Step, Outcome, parse,
}

-- What a step keeps, `x` being its input: the count of the bytes appended, the limit, and a total
-- that no input still to come can wrap.
record Kept (p : ChunkedBodyParser) (x out : Bytes) (s : Step) : Type 0 where
  max_kept : s.parser.max_body_size ≡ p.max_body_size
  counted : s.parser.total_written + length out ≡ p.total_written + length s.output
  within : s.parser.total_written ≤ p.max_body_size
  bounded : s.parser.total_written + length (drop s.result.consumed x) ≤ p.total_written + length x

module _ (p : ChunkedBodyParser) (limited : 0 < p.max_body_size)
    (below : p.total_written ≤ p.max_body_size) where
  Kept-still :
      (x out : Bytes) (s : Step)
      → s.parser.max_body_size ≡ p.max_body_size
      → s.parser.total_written ≡ p.total_written
      → s.output ≡ out
      → Kept p x out s
  Kept-still x out s em et eo = record {
    max_kept = em;
    counted = rw (et, eo) (omega arith);
    within = omega arith;
    bounded = omega (arith, length-drop s.result.consumed x);
  }

  accept_size-still :
      (out : Bytes) (n : ℕ) (q : ChunkedBodyParser) (o : Option ℕ)
      → ((accept_size q out n o).parser.max_body_size ≡ q.max_body_size)
        × ((accept_size q out n o).parser.total_written ≡ q.total_written)
        × ((accept_size q out n o).output ≡ out)
  unfolding accept_size
  accept_size-still out n q none = (refl, refl, refl)
  accept_size-still out n q (some k) = (ground arith, ground arith, ground arith)

  Kept-size : (x out : Bytes) → Kept p x out (read_size p x out)
  unfolding read_size
  Kept-size x out = elim (Option-cases (find_crlf (p.size_buffer ++ x))) [
    | inl e ↦ rw (e, read_size_line) (Kept-still x out _ refl refl refl)
    | inr (k, e) ↦
        let n = if ltb (length p.size_buffer) (k + 2) then k + 2 - length p.size_buffer else 0 in
        let a =
          accept_size-still out n (record p { size_buffer = [] })
            (parse_hex (take k (p.size_buffer ++ x))) in
        rw (e, read_size_line) (Kept-still x out _ a.0 a.1 a.2)
  ]

  Kept-data :
      (x out : Bytes) → p.total_written + length x < size_mod → Kept p x out (read_data p x out)
  unfolding read_data
  Kept-data x out small =
      let n : ℕ = min (length x) p.bytes_remaining in
      let sum : ℕ = (p.total_written + n) % size_mod in
      elim (Bool-cases (ltb 0 p.max_body_size && ltb p.max_body_size sum)) [
        | inl e ↦ rw e (Kept-still x out _ refl refl refl)
        | inr e ↦ rw e (record {
          max_kept = refl;
          counted = omega (arith, length-append {0} out (take n x), length-take n x);
          within = ground arith;
          bounded = omega (arith, length-drop n x);
        })
      ]

  Kept-crlf : (next : InternalState) (x out : Bytes) → Kept p x out (read_crlf next p x out)
  unfolding read_crlf
  Kept-crlf next [] out = Kept-still [] out _ refl refl refl
  Kept-crlf next (c ∷ []) out =
      Kept-still (c ∷ []) out _ (ground arith) (ground arith) (ground arith)
  Kept-crlf next (c ∷ d ∷ x) out =
      Kept-still (c ∷ d ∷ x) out _ (ground arith) (ground arith) (ground arith)

  Kept-handler :
      (s : InternalState) (x out : Bytes)
      → p.total_written + length x < size_mod
      → Kept p x out (handler s p x out)
  unfolding handler
  Kept-handler reading_size x out small = Kept-size x out
  Kept-handler reading_data x out small = Kept-data x out small
  Kept-handler reading_trailer_crlf x out small = Kept-crlf reading_size x out
  Kept-handler reading_final_crlf x out small = Kept-crlf done x out
  Kept-handler done x out small = Kept-still x out _ refl refl refl

-- The same of the whole loop.
record IsWithin (p : ChunkedBodyParser) (out : Bytes) (r : Outcome) : Type 0 where
  counted : r.parser.total_written + length out ≡ p.total_written + length r.output
  within : r.parser.total_written ≤ p.max_body_size
  same_max : r.parser.max_body_size ≡ p.max_body_size

IsWithin-if :
    {p : ChunkedBodyParser} {out : Bytes} {r s : Outcome} (c : Bool)
    → IsWithin p out r
    → (c ≡ false → IsWithin p out s)
    → IsWithin p out (if c then r else s)
IsWithin-if true h k = h
IsWithin-if false h k = k refl

run-IsWithin :
    (f : ℕ) (p : ChunkedBodyParser) (x : Bytes) (pos : ℕ) (out : Bytes)
    → 0 < p.max_body_size
    → p.total_written ≤ p.max_body_size
    → p.total_written + length x < size_mod
    → IsWithin p out (run f p x pos out)
unfolding run
run-IsWithin zero p x pos out lim below small = record {
  counted = refl;
  within = below;
  same_max = refl;
}
run-IsWithin (suc f) p x pos out lim below small =
    let s = handler p.state p x out in
    let n = s.result.consumed in
    let k = Kept-handler p lim below p.state x out small in
    let ih =
      run-IsWithin f s.parser (drop n x) (pos + n) s.output (omega (arith, k.max_kept))
        (omega (arith, k.max_kept, k.within)) (omega (arith, k.bounded)) in
    IsWithin-if (is_empty x || is_done p.state)
      (record { counted = refl; within = below; same_max = refl })
      λ _.
        IsWithin-if (not s.result.is_ok)
          (record { counted = k.counted; within = k.within; same_max = k.max_kept })
          λ _.
            IsWithin-if (n == 0)
              (record { counted = k.counted; within = k.within; same_max = k.max_kept })
              λ _. record {
                counted = omega (arith, k.counted, ih.counted);
                within = omega (arith, ih.within, k.max_kept);
                same_max = omega (arith, ih.same_max, k.max_kept);
              }

-- With a limit that the bytes decoded so far keep, one call of `parse` never appends more bytes
-- than the limit leaves, whether it ends with CHUNK_CONTINUE, CHUNK_DONE or CHUNK_ERROR, and the
-- total that it counts, the bytes appended included, keeps the limit.
pub parse_limit :
    (p : ChunkedBodyParser) (input out : Bytes)
    → 0 < p.max_body_size
    → p.total_written ≤ p.max_body_size
    → p.total_written + length input < size_mod
    → (p.total_written + length (parse p input out).output ≤ p.max_body_size + length out)
      × ((parse p input out).parser.total_written + length out
          ≡ p.total_written + length (parse p input out).output)
      × ((parse p input out).parser.total_written ≤ p.max_body_size)
parse_limit p input out lim below small =
    let r = run-IsWithin (suc (length input)) p input 0 out lim below small in
    rw parse-drain (omega (arith, r.counted, r.within), r.counted, r.within)

-- The limit itself stays.
pub parse-max_body_size :
    (p : ChunkedBodyParser) (input out : Bytes)
    → 0 < p.max_body_size
    → p.total_written ≤ p.max_body_size
    → p.total_written + length input < size_mod
    → (parse p input out).parser.max_body_size ≡ p.max_body_size
parse-max_body_size p input out lim below small =
    rw parse-drain (run-IsWithin (suc (length input)) p input 0 out lim below small).same_max
