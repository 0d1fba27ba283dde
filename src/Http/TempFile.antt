-- ===== src/Http/TempFile.antt =====
-- src/common/filesystem.cpp, `TempFile::moveTo`: the body of a request becomes a file. What the
-- system answers to the calls of one move is a record.
use server_x.Common.{
  ℕ, zero, suc, ◌+◌, ◌<◌, ◌≡◌, refl, sym, ap, ◌∙◌, Bool, false, not, Option, none, some, [], ◌∷◌,
  ◌++◌, append-nil, append_assoc, arith, if◌then◌else◌, if-holds, length, take, drop, length-drop,
  take-append-drop, Bytes, is_empty,
}
use server_x.Http.Request.{TempFile}

pub data MoveStatus : Type 0 where
  move_success move_invalid_state move_sys_err move_io_err : MoveStatus

-- Whether `rename` succeeds, both streams open, each write to the destination leaves it good (by
-- its number), the source is read to its end, and the destination is good when it is closed.
pub record MoveAnswers : Type 0 where
  pub renamed : Bool
  pub src_open : Bool
  pub dest_open : Bool
  pub write_good : ℕ → Bool
  pub src_eof : Bool
  pub dest_good : Bool

unfoldable pub read_buffer_size : ℕ
read_buffer_size = 16384

-- The copying loop: what the destination holds behind it, or `none` where a write fails. A round
-- reads a byte at least, so that the length of the source is fuel enough.
unfoldable pub copy_chunks : ℕ → (ℕ → Bool) → ℕ → Bytes → Bytes → Option Bytes
copy_chunks zero good i src dest = some dest
copy_chunks (suc fuel) good i src dest =
    let rest =
      copy_chunks fuel good (i + 1) (drop read_buffer_size src)
        (dest ++ take read_buffer_size src) in
    if is_empty src then some dest else if good i then rest else none

-- The temporary file behind a move that has succeeded.
abbrev moved_away : TempFile
moved_away = record { is_open = false; content = [] }

copied : MoveAnswers → TempFile → Option Bytes → MoveStatus × Option Bytes × TempFile
copied os t none = (move_io_err, none, t)
copied os t (some dest) =
    if not os.src_eof
    then (move_io_err, none, t)
    else if not os.dest_good
    then (move_io_err, some dest, t)
    else (move_success, some dest, moved_away)

-- The status, what the destination holds if this call made it and did not remove it, and the
-- temporary file. The destination is opened, which makes it empty, before it is seen whether the
-- source opens.
unfoldable pub move_to : MoveAnswers → TempFile → MoveStatus × Option Bytes × TempFile
unfolding copied copy_chunks
move_to os t =
    if not t.is_open
    then (move_invalid_state, none, t)
    else if os.renamed
    then (move_success, some t.content, moved_away)
    else if not os.src_open
    then (move_sys_err, if os.dest_open then some [] else none, t)
    else if not os.dest_open
    then (move_io_err, none, t)
    else copied os t (copy_chunks (suc (length t.content)) os.write_good 0 t.content [])

read_buffer_size_positive : 0 < read_buffer_size
unfolding read_buffer_size
read_buffer_size_positive = omega arith

some-inj {ℓ} : {A : Type ℓ} (a b : A) → ◌≡◌ {A = Option A} (some a) (some b) → a ≡ b
some-inj a b e = cc

copy_chunks-whole :
    (fuel : ℕ) (good : ℕ → Bool) (i : ℕ) (src dest d : Bytes)
    → length src < fuel
    → copy_chunks fuel good i src dest ≡ some d
    → d ≡ dest ++ src
unfolding copy_chunks
copy_chunks-whole zero good i src dest d h e = absurd (omega arith)
copy_chunks-whole (suc fuel) good i [] dest d h e = sym (some-inj dest d e) ∙ sym (append-nil dest)
copy_chunks-whole (suc fuel) good i (c ∷ src) dest d h e =
    let s : Bytes = c ∷ src in
    let n = read_buffer_size in
    if-holds (λ r. r ≡ some d → d ≡ dest ++ s) (good i)
      (λ _ e1.
        copy_chunks-whole fuel good (i + 1) (drop n s) (dest ++ take n s) d
          (omega (arith, h, length-drop n s, read_buffer_size_positive)) e1
        ∙ append_assoc dest (take n s) (drop n s)
        ∙ ap (λ u. dest ++ u) (take-append-drop n s))
      (λ _ e1. absurd cc) e

-- What a move comes to, if it succeeds.
Whole : TempFile → MoveStatus × Option Bytes × TempFile → Type 0
Whole t r = r.0 ≡ move_success → (r.1 ≡ some t.content) × (r.2.is_open ≡ false)

copied-Whole :
    (os : MoveAnswers) (t : TempFile) (o : Option Bytes)
    → ((d : Bytes) → o ≡ some d → d ≡ t.content)
    → Whole t (copied os t o)
unfolding copied Whole
copied-Whole os t none h = λ e. absurd cc
copied-Whole os t (some dest) h =
    if-holds (Whole t) (not os.src_eof) (λ _ e. absurd cc)
      λ _.
        if-holds (Whole t) (not os.dest_good) (λ _ e. absurd cc)
          λ _ e. (ap some (h dest refl), refl)

-- A move that succeeds, by renaming or by copying, gives the destination the whole body and
-- nothing else, and closes the temporary file.
pub move_to-whole :
    (os : MoveAnswers) (t : TempFile)
    → (move_to os t).0 ≡ move_success
    → ((move_to os t).1 ≡ some t.content) × ((move_to os t).2.is_open ≡ false)
unfolding move_to Whole
move_to-whole os t =
    if-holds (Whole t) (not t.is_open) (λ _ e. absurd cc)
      λ _.
        if-holds (Whole t) os.renamed (λ _ e. (refl, refl))
          λ _.
            if-holds (Whole t) (not os.src_open) (λ _ e. absurd cc)
              λ _.
                if-holds (Whole t) (not os.dest_open) (λ _ e. absurd cc)
                  λ _. copied-Whole os t _ λ d e.
                    copy_chunks-whole (suc (length t.content)) os.write_good 0 t.content [] d
                      (omega arith) e
