-- ===== src/Common/Paths.antt =====
-- src/common/filesystem.cpp: paths as texts. What the file system itself answers is a parameter of
-- the operations that ask for it.
use mathlib.Core.Bool.{Bool, false, ◌||◌}
use mathlib.Core.List.{[], ◌∷◌, ◌++◌}
use mathlib.Core.Option.{none, some}
use Prim.Native.Nat.{◌+◌, ◌-◌}
use server_x.Common.Tests.{◌==◌, if◌then◌else◌}
use server_x.Common.Lists.{take, drop, length, get_last?}
use server_x.Common.Strings.{Bytes, codes, beq, is_empty, rfind_byte, starts_with}

unfoldable pub get_file_extension : Bytes → Bytes
unfolding rfind_byte
get_file_extension fpath = elim (rfind_byte b'.' fpath) [
  | none ↦ []
  | some dot_pos ↦ drop (dot_pos + 1) fpath
]

-- `s[s.size() - 1] == '/'` of a text that is not empty.
unfoldable pub ends_in_slash : Bytes → Bool
ends_in_slash s = elim (get_last? s) [ none ↦ false | some c ↦ c == b'/' ]

-- The slash in front of a second path that has none, and the one behind a first path.
unfoldable pub with_leading_slash : Bytes → Bytes
unfolding starts_with
with_leading_slash p = if starts_with (codes "/") p then p else b'/' ∷ p

unfoldable pub without_last_slash : Bytes → Bytes
unfolding ends_in_slash
without_last_slash p = if ends_in_slash p then take (length p - 1) p else p

unfoldable pub join_paths : Bytes → Bytes → Bytes
unfolding with_leading_slash without_last_slash
join_paths p1 p2 =
    if is_empty p1 || beq p1 (codes "/")
    then with_leading_slash p2
    else if is_empty p2
    then p1
    else without_last_slash p1 ++ with_leading_slash p2
