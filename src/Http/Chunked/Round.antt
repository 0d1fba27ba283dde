-- ===== src/Http/Chunked/Round.antt =====
-- One round of the loop of `parse` on an input that is cut in two: how the handler's step on
-- the whole relates to its step on the first part.
pub mod Size
pub mod Data
pub mod Crlf
use native.Mathlib.Nat.{add_assoc}
use server_x.Common.{
  ℕ, ◌+◌, ◌-◌, ◌≤◌, ◌<◌, true, false, none, [], ◌∷◌, ◌++◌, ◌≡◌, refl, sym, ap, ◌∙◌, arith,
  append-nil, length, drop-append_ge, drop_all, Bytes, is_empty,
}
use server_x.Http.Chunked.{ChunkedBodyParser, reading_data, find_crlf, handler, success, is_done}
use server_x.Http.Chunked.Loop.{drain, drain_next}

-- Between two calls no whole size line waits in the buffer, and a chunk that is being read is not
-- at its end.
pub record IsWaiting (p : ChunkedBodyParser) : Type 0 where
  pub no_line : find_crlf p.size_buffer ≡ none
  pub pending : p.state ≡ reading_data → 0 < p.bytes_remaining

-- How a handler's step on `a ++ b` relates to its step on `a`.
pub data Round (p : ChunkedBodyParser) (a b out : Bytes) : Type 0 where
  same :
      (n : ℕ) (q : ChunkedBodyParser) (out' : Bytes)
      → 0 < n
      → n ≤ length a
      → IsWaiting q
      → q.total_written ≤ p.total_written + n
      → handler p.state p a out ≡ success n q out'
      → handler p.state p (a ++ b) out ≡ success n q out'
      → Round p a b out
  rest :
      (q : ChunkedBodyParser) (out' : Bytes)
      → IsWaiting q
      → handler p.state p a out ≡ success (length a) q out'
      → ((pos : ℕ) → drain p (a ++ b) pos out ≡ drain q b (pos + length a) out')
      → Round p a b out
  fails : (handler p.state p (a ++ b) out).result.is_ok ≡ false → Round p a b out

pub is_empty-append : (a b : Bytes) → is_empty a ≡ false → is_empty (a ++ b) ≡ false
is_empty-append [] b e = cc
is_empty-append (x ∷ a) b e = refl

pub length-pos : (a : Bytes) → is_empty a ≡ false → 0 < length a
length-pos [] e = cc
length-pos (x ∷ a) e = omega arith

pub is_empty-eq : (a : Bytes) → is_empty a ≡ true → a ≡ []
is_empty-eq [] e = refl
is_empty-eq (x ∷ a) e = cc

pub cancel : (m n : ℕ) → m + n - m ≡ n
cancel m n = omega arith

-- One step at the end of `a`, and one on `b`, where the step on `a ++ b` takes both.
pub join_steps :
    (p : ChunkedBodyParser) (a b out : Bytes) (q : ChunkedBodyParser) (out' : Bytes) (n : ℕ)
    (r : ChunkedBodyParser) (out'' : Bytes)
    → is_empty a ≡ false
    → is_empty b ≡ false
    → is_done p.state ≡ false
    → is_done q.state ≡ false
    → 0 < n
    → handler q.state q b out' ≡ success n r out''
    → handler p.state p (a ++ b) out ≡ success (length a + n) r out''
    → (pos : ℕ) → drain p (a ++ b) pos out ≡ drain q b (pos + length a) out'
join_steps p a b out q out' n r out'' ea eb dp dq h eq ep pos =
    drain_next p (a ++ b) pos out (length a + n) r out'' (is_empty-append a b ea) dp (omega arith)
      ep
    ∙ rw (drop-append_ge (length a + n) a b (omega arith)) (
        rw (cancel (length a) n) (
          rw (← add_assoc pos (length a) n)
            (sym (drain_next q b (pos + length a) out' n r out'' eb dq h eq))))

pub join_nil :
    (p : ChunkedBodyParser) (a out : Bytes) (q : ChunkedBodyParser) (out' : Bytes)
    → is_empty a ≡ false
    → is_done p.state ≡ false
    → handler p.state p a out ≡ success (length a) q out'
    → (pos : ℕ) → drain p (a ++ []) pos out ≡ drain q [] (pos + length a) out'
join_nil p a out q out' ea dp e pos = rw append-nil (
    drain_next p a pos out (length a) q out' ea dp (length-pos a ea) e
    ∙ ap (λ (x : Bytes). drain q x (pos + length a) out') (drop_all (length a) a (omega arith)))
