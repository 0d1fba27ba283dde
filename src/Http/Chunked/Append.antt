-- ===== src/Http/Chunked/Append.antt =====
-- The reads of the socket cut a message where they like: decoding in two calls of `parse`, each
-- with what arrived, is decoding in one.
use server_x.Common.{
  ℕ, zero, suc, ◌+◌, ◌<◌, false, [], ◌∷◌, ◌++◌, ◌≡◌, ◌≢◌, inl, inr, refl, sym, ap, ◌∙◌, arith,
  Bool-cases, length, length-drop, drop, drop-append_le, drop_all, Bytes, is_empty,
}
use server_x.Http.Chunked.{
  size_mod, InternalState, ChunkedBodyParser, reading_size, reading_data, reading_trailer_crlf,
  reading_final_crlf, done, chunk_error, is_done, finish, parse,
}
use server_x.Http.Chunked.Loop.{drain, drain_next, drain_done, drain-nil, drain_error, parse-drain}
use server_x.Http.Chunked.Round.{IsWaiting, Round, same, rest, fails}
use server_x.Http.Chunked.Round.Size.{Round-size}
use server_x.Http.Chunked.Round.Data.{Round-data}
use server_x.Http.Chunked.Round.Crlf.{Round-crlf, trailer, final}
use server_x.Http.Chunked.Shift.{run_shift, Shifted-eq}

Round-cases :
    (s : InternalState) (p : ChunkedBodyParser) (a b out : Bytes)
    → p.state ≡ s
    → IsWaiting p
    → is_empty a ≡ false
    → is_done s ≡ false
    → p.total_written + (length a + length b) < size_mod
    → Round p a b out
Round-cases reading_size p a b out e w ea nd small = Round-size p a b out e w ea
Round-cases reading_data p a b out e w ea nd small = Round-data p a b out e w ea small
Round-cases reading_trailer_crlf p a b out e w ea nd small =
    Round-crlf reading_size p (rw e trailer) a b out w ea
Round-cases reading_final_crlf p a b out e w ea nd small =
    Round-crlf done p (rw e final) a b out w ea
Round-cases done p a b out e w ea nd small = cc

-- The loop on `a ++ b`, and the loop on `a` followed by that on `b`.
record Splits (p : ChunkedBodyParser) (a b : Bytes) (pos : ℕ) (out : Bytes) : Type 0 where
  first_ok : (drain p a pos out).status ≢ chunk_error
  waiting : IsWaiting (drain p a pos out).parser
  joined :
      drain p (a ++ b) pos out ≡ (let r = drain p a pos out in drain r.parser b r.consumed r.output)

finish-ok :
    (p : ChunkedBodyParser) (pos : ℕ) (out : Bytes) → (finish p pos out).status ≢ chunk_error
finish-ok p pos out = ground arith

module _ (b : Bytes) where
  drain-append :
      (k : ℕ) (p : ChunkedBodyParser) (a : Bytes) (pos : ℕ) (out : Bytes)
      → length a < k
      → IsWaiting p
      → p.total_written + (length a + length b) < size_mod
      → (drain p (a ++ b) pos out).status ≢ chunk_error
      → Splits p a b pos out
  drain-append zero p a pos out h w small ok = absurd (omega arith)
  drain-append (suc k) p [] pos out h w small ok = record {
    first_ok = rw drain-nil (finish-ok p pos out);
    waiting = rw drain-nil w;
    joined = rw drain-nil;
  }
  drain-append (suc k) p (c ∷ a) pos out h w small ok = elim (Bool-cases (is_done p.state)) [
    | inl d ↦ record {
      first_ok = rw (drain_done p (c ∷ a) pos out d) (finish-ok p pos out);
      waiting = rw (drain_done p (c ∷ a) pos out d) w;
      joined =
          rw (drain_done p (c ∷ a) pos out d)
            (drain_done p (c ∷ (a ++ b)) pos out d ∙ sym (drain_done p b pos out d));
    }
    | inr nd ↦ elim (Round-cases p.state p (c ∷ a) b out refl w refl nd small) [
      | fails f ↦ absurd (ok (rw (drain_error p (c ∷ (a ++ b)) pos out refl nd f)))
      | rest q out' wq e j ↦
          let first : drain p (c ∷ a) pos out ≡ finish q (pos + length (c ∷ a)) out' =
            drain_next p (c ∷ a) pos out (length (c ∷ a)) q out' refl nd (omega arith) e
            ∙ (ap (λ (x : Bytes). drain q x (pos + length (c ∷ a)) out')
                  (drop_all (length (c ∷ a)) (c ∷ a) (omega arith))
                ∙ drain-nil q (pos + length (c ∷ a)) out') in
          record {
            first_ok = rw first (finish-ok q (pos + length (c ∷ a)) out');
            waiting = rw first wq;
            joined = rw first (j pos);
          }
      | same n q out' pos_n le wq tq e1 e2 ↦
          let step1 = drain_next p (c ∷ a) pos out n q out' refl nd pos_n e1 in
          let step2 =
            drain_next p (c ∷ (a ++ b)) pos out n q out' refl nd pos_n e2
            ∙ ap (λ (x : Bytes). drain q x (pos + n) out') (drop-append_le n (c ∷ a) b le) in
          let ih =
            drain-append k q (drop n (c ∷ a)) (pos + n) out' (omega (arith, length-drop n (c ∷ a)))
              wq (omega (arith, length-drop n (c ∷ a))) (rw step2 at ok) in
          record {
            first_ok = rw step1 ih.first_ok;
            waiting = rw step1 ih.waiting;
            joined = rw step1 (step2 ∙ ih.joined);
          }
    ]
  ]

-- Decoding `a` and then `b`, where `parse` does not fail on the two together: the first call does
-- not fail, leaves a parser that waits for more, and the second call goes on to the status, the
-- parser and the output of one call on `a ++ b`, which consumes what the two calls consume.
pub parse-append :
    (p : ChunkedBodyParser) (a b out : Bytes)
    → IsWaiting p
    → p.total_written + (length a + length b) < size_mod
    → (parse p (a ++ b) out).status ≢ chunk_error
    → ((parse p a out).status ≢ chunk_error)
      × IsWaiting (parse p a out).parser
      × (parse p (a ++ b) out ≡ (
          let r = parse p a out in
          let s = parse r.parser b r.output in record s { consumed = r.consumed + s.consumed }))
parse-append p a b out w small ok =
    let d =
      drain-append b (suc (length a)) p a 0 out (omega arith) w small (rw parse-drain at ok) in
    let r = drain p a 0 out in
    let s = drain r.parser b 0 r.output in
    let sh = run_shift (suc (length b)) r.parser b r.consumed 0 r.output in
    rw (parse-drain p a out) (
      d.first_ok,
      d.waiting,
      rw (parse-drain p (a ++ b) out, parse-drain r.parser b r.output)
          (d.joined
            ∙ Shifted-eq (drain r.parser b r.consumed r.output) s r.consumed sh
                (rw d.joined at (rw parse-drain at ok))),
    )
