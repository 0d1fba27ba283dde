-- ===== src/Network/SendBuffer.antt =====
-- src/network/ClientHandler.cpp, `SendBuffer`: the bytes of an answer on their way to the socket.
use server_x.Common.{
  ℕ, zero, suc, ◌+◌, ◌-◌, ◌≤◌, ◌≡◌, refl, sym, ap, ◌∙◌, Bool, true, false, ◌||◌, Option, none, some,
  List, [], ◌∷◌, ◌++◌, append-nil, arith, leb, ◌==◌, if◌then◌else◌, ==_iff, if-holds, length, take,
  drop, length-drop, take-append-drop, take_all, Bytes, is_empty,
}

pub record SendBuffer : Type 0 where
  pub buffer : Bytes
  pub sent : ℕ

abbrev pub empty_buffer : SendBuffer
empty_buffer = record { buffer = []; sent = 0 }

-- SEND_ERROR is never returned.
pub data SendStatus : Type 0 where
  send_done send_again : SendStatus

unfoldable pub is_fully_sent : SendBuffer → Bool
is_fully_sent b = is_empty b.buffer || leb (length b.buffer) b.sent

-- The bytes that `send` is given.
unfoldable pub unsent : SendBuffer → Bytes
unsent b = drop b.sent b.buffer

unfoldable pub count_sent : ℕ → SendBuffer → SendStatus × SendBuffer
count_sent n b =
    if b.sent + n == length b.buffer
    then (send_done, empty_buffer)
    else (send_again, record b { sent = b.sent + n })

unfoldable pub after_send : Option ℕ → SendBuffer → SendStatus × SendBuffer
unfolding count_sent
after_send none b = (send_again, b)
after_send (some n) b = count_sent n b

-- `send`, with the socket's answer to `::send`: how many bytes it took, `none` for an error.
unfoldable pub send : (Bytes → Option ℕ) → SendBuffer → SendStatus × SendBuffer
unfolding after_send is_fully_sent unsent
send socket b = if is_fully_sent b then (send_done, b) else after_send (socket (unsent b)) b

-- What the socket takes in a call.
unfoldable pub taken_of : Option ℕ → SendBuffer → Bytes
unfolding unsent
taken_of none b = []
taken_of (some n) b = take n (unsent b)

unfoldable pub taken : (Bytes → Option ℕ) → SendBuffer → Bytes
unfolding is_fully_sent taken_of unsent
taken socket b = if is_fully_sent b then [] else taken_of (socket (unsent b)) b

-- A socket takes no more than it is given.
abbrev pub Bounded : (Bytes → Option ℕ) → Type 0
Bounded socket = (s : Bytes) (n : ℕ) → socket s ≡ some n → n ≤ length s

-- The count is within the buffer.
abbrev pub InBuffer : SendBuffer → Type 0
InBuffer b = b.sent ≤ length b.buffer

-- The bytes that were taken, and what is left, are what there was.
Conserved : SendBuffer → Bytes → SendBuffer → Type 0
Conserved b out c = (out ++ unsent c ≡ unsent b) × InBuffer c

drop_nil {ℓ} : {A : Type ℓ} (n : ℕ) → drop {A = A} n [] ≡ []
drop_nil zero = refl
drop_nil (suc n) = refl

zero_add : (n : ℕ) → 0 + n ≡ n
zero_add n = omega arith

suc_add : (m n : ℕ) → suc m + n ≡ suc (m + n)
suc_add m n = omega arith

pub drop-drop {ℓ} : {A : Type ℓ} (m n : ℕ) (xs : List A) → drop (m + n) xs ≡ drop n (drop m xs)
drop-drop zero n xs = ap (λ k. drop k xs) (zero_add n)
drop-drop (suc m) n [] = drop_nil (suc m + n) ∙ sym (drop_nil n)
drop-drop (suc m) n (x ∷ xs) = ap (λ k. drop k (x ∷ xs)) (suc_add m n) ∙ drop-drop m n xs

count_sent-Conserved :
    (n : ℕ) (b : SendBuffer)
    → InBuffer b
    → n ≤ length (unsent b)
    → Conserved b (take n (unsent b)) (count_sent n b).1
unfolding Conserved count_sent unsent
count_sent-Conserved n b i le =
    let short : n ≤ length b.buffer - b.sent = omega (arith, le, length-drop b.sent b.buffer) in
    if-holds (λ (r : SendStatus × SendBuffer). Conserved b (take n (unsent b)) r.1)
      (b.sent + n == length b.buffer)
      (λ e. (
        append-nil (take n (drop b.sent b.buffer))
            ∙ take_all n (drop b.sent b.buffer)
                (omega (arith, (==_iff _ _).0 e, length-drop b.sent b.buffer)),
        omega arith,
      ))
      (λ e. (
        ap (λ t. take n (drop b.sent b.buffer) ++ t) (drop-drop b.sent n b.buffer)
            ∙ take-append-drop n (drop b.sent b.buffer),
        omega arith,
      ))

after_send-Conserved :
    (o : Option ℕ) (b : SendBuffer)
    → InBuffer b
    → ((n : ℕ) → o ≡ some n → n ≤ length (unsent b))
    → Conserved b (taken_of o b) (after_send o b).1
unfolding Conserved after_send taken_of
after_send-Conserved none b i h = (refl, i)
after_send-Conserved (some n) b i h = count_sent-Conserved n b i (h n refl)

-- A call of `send` loses and repeats nothing: what was to be sent is what the socket takes, and
-- then what remains.
pub send-conserves :
    (socket : Bytes → Option ℕ) (b : SendBuffer)
    → Bounded socket
    → InBuffer b
    → (taken socket b ++ unsent (send socket b).1 ≡ unsent b) × InBuffer (send socket b).1
unfolding send taken Conserved
send-conserves socket b h i = by_state (is_fully_sent b)
  where
    by_state :
        (x : Bool)
        → Conserved b
            (if x then [] else taken_of (socket (unsent b)) b)
            (if x then (send_done, b) else after_send (socket (unsent b)) b).1
    by_state true = (refl, i)
    by_state false = after_send-Conserved (socket (unsent b)) b i (h (unsent b))
