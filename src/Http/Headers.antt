-- ===== src/Http/Headers.antt =====
-- src/http/Headers.cpp and inc/http/Headers.hpp: the header fields, keyed by the lower-cased
-- name, their parsing, and the end of a header section.
pub mod Fields
use server_x.Common.{
  ℕ, ◌+◌, ◌-◌, ◌%◌, ◌^◌, min, Bool, true, false, not, ◌&&◌, Option, none, some, List, [], ◌∷◌, ◌++◌,
  ◌==◌, if◌then◌else◌, take, drop, get_last?, Bytes, codes, is_empty, find_byte, is_space,
  read_digits, to_lower, trim, Dict, lookup, insert, erase, has_key,
}
use server_x.Http.Chunked.{size_mod}

abbrev pub Headers : Type 0
Headers = Dict Bytes

unfoldable pub add : Bytes → Bytes → Headers → Headers
add key value h = if is_empty key then h else insert (to_lower key) value h

-- `get(key, value)`: `none` for the result false.
unfoldable pub get? : Bytes → Headers → Option Bytes
get? key h = lookup (to_lower key) h

abbrev or_empty : Option Bytes → Bytes
or_empty none = []
or_empty (some v) = v

-- `get(key)`.
unfoldable pub get : Bytes → Headers → Bytes
unfolding get?
get key h = or_empty (get? key h)

unfoldable pub has : Bytes → Headers → Bool
has key h = has_key (to_lower key) h

unfoldable pub erase_key : Bytes → Headers → Headers
erase_key key h = erase (to_lower key) h

skip_spaces : Bytes → Bytes
unfolding is_space
skip_spaces [] = []
skip_spaces (c ∷ cs) = if is_space c then skip_spaces cs else c ∷ cs

-- `strtol(s, NULL, 10)` of 64 bits, as the `size_t` that it is returned as: a number out of range
-- saturates, and a negative one wraps around.
signed : Bytes → ℕ
unfolding read_digits
signed [] = 0
signed (c ∷ cs) =
    if c == b'-'
    then (size_mod - min (read_digits 0 cs) (2 ^ 63)) % size_mod
    else if c == b'+'
    then min (read_digits 0 cs) (2 ^ 63 - 1)
    else min (read_digits 0 (c ∷ cs)) (2 ^ 63 - 1)

unfoldable pub strtol : Bytes → ℕ
unfolding skip_spaces signed
strtol s = signed (skip_spaces s)

number_or_zero : Option Bytes → ℕ
unfolding strtol
number_or_zero none = 0
number_or_zero (some v) = strtol v

unfoldable pub get_content_length : Headers → ℕ
unfolding number_or_zero
get_content_length h = number_or_zero (lookup (codes "content-length") h)

-- The presence of the field is what counts, whatever it says.
unfoldable pub is_content_chunked : Headers → Bool
unfolding get?
is_content_chunked h = elim (get? (codes "Transfer-Encoding") h) [ none ↦ false | some _ ↦ true ]

cons_head : ℕ → List Bytes → List Bytes
cons_head c [] = (c ∷ []) ∷ []
cons_head c (l ∷ ls) = (c ∷ l) ∷ ls

-- What successive calls of `getline` return: the text behind the last newline is a line of its own
-- only if it is not empty.
unfoldable pub lines : Bytes → List Bytes
unfolding cons_head
lines [] = []
lines (c ∷ cs) = if c == b'\n' then [] ∷ lines cs else cons_head c (lines cs)

-- `line.resize(line.length() - 1)`.
abbrev pub drop_last : Bytes → Bytes
drop_last [] = []
drop_last (x ∷ []) = []
drop_last (x ∷ y ∷ xs) = x ∷ drop_last (y ∷ xs)

abbrev ends_in_cr : Bytes → Bool
ends_in_cr line = elim (get_last? line) [ none ↦ false | some c ↦ c == b'\r' ]

-- The name and the value of a field, cut at the colon at `colon_pos`; `none` for an empty name.
field_at : Bytes → Option ℕ → Option (Bytes × Bytes)
unfolding trim
field_at line none = none
field_at line (some colon_pos) =
    let key = trim (take colon_pos line) in
    if is_empty key then none else some (key, trim (drop (colon_pos + 1) line))

unfoldable pub parse_field : Bytes → Option (Bytes × Bytes)
unfolding field_at find_byte
parse_field line = field_at line (find_byte b':' line)

-- The loop of `parse`, with the value that it returns. The fields read before a failure stay.
unfoldable pub parse_lines : Bool → Headers → List Bytes → Bool × Headers
parse_lines strict h [] = (true, h)
parse_lines strict h (line ∷ ls) =
    let stripped = if ends_in_cr line then drop_last line else line in
    let rest = λ (kv : Bytes × Bytes). parse_lines strict (add kv.0 kv.1 h) ls in
    if not (ends_in_cr line) && (strict && not (is_empty line))
    then (false, h)
    else if is_empty stripped
    then (true, h)
    else (elim (parse_field stripped) [ none ↦ (false, h) | some kv ↦ rest kv ])

-- `parse(buffer, headers, strict)`.
unfoldable pub parse : Bytes → Headers → Bool → Bool × Headers
unfolding parse_lines lines parse_field add
parse buffer h strict = parse_lines strict h (lines buffer)

unfoldable pub to_string : Headers → Bytes
to_string [] = []
to_string ((k, v) ∷ h) = k ++ (codes ": " ++ (v ++ (codes "\r\n" ++ to_string h)))

-- What the scan finds at a newline: how many bytes the empty line takes behind it.
unfoldable pub empty_line : Bytes → Option ℕ
empty_line [] = none
empty_line (c ∷ []) = if c == b'\n' then some 1 else none
empty_line (c ∷ d ∷ cs) =
    if c == b'\n' then some 1 else if c == b'\r' && d == b'\n' then some 2 else none

-- The scan of `findHeaderEnd` from position `i` on, `after_cr` telling of a CR before it. The
-- result is the position and `offset`.
header_end_from : Bool → ℕ → Bytes → Option (ℕ × ℕ)
unfolding empty_line
header_end_from after_cr i [] = none
header_end_from after_cr i (c ∷ cs) =
    let later = header_end_from (c == b'\r') (i + 1) cs in
    if c == b'\n'
    then (elim (empty_line cs) [
      | none ↦ later
      | some n ↦ if after_cr then some (i - 1, n + 2) else some (i, n + 1)
    ])
    else later

unfoldable pub find_header_end : Bytes → Option (ℕ × ℕ)
unfolding header_end_from
find_header_end buffer = header_end_from false 0 buffer
