-- ===== src/Http/Files.antt =====
-- What the handlers ask of the file system, and src/common/filesystem.cpp on top of it. The
-- answers are those of the moment of the call; what a call changes is recorded as an action.
use server_x.Common.{
  ℕ, Bool, true, false, not, ◌&&◌, ◌||◌, Option, none, some, List, [], ◌∷◌, ◌++◌, if◌then◌else◌,
  Bytes, codes, beq, is_empty, bytes_lt, ends_in_slash,
}
use server_x.Http.Status.{HttpStatus, ok, not_found, forbidden, internal_server_error}

-- `errno` after a call that failed, as far as the program tells the values apart.
pub data Errno : Type 0 where
  enoent enotdir eacces eperm other_errno : Errno

-- `struct stat`: whether a directory, the permission bits, the size and the time.
pub record Stat : Type 0 where
  pub is_dir : Bool
  pub mode : ℕ
  pub byte_size : ℕ
  pub mtime : ℕ

pub data StatAnswer : Type 0 where
  stat_of : Stat → StatAnswer
  stat_failed : Errno → StatAnswer

-- The system calls: `stat`, `access` with F_OK, R_OK, W_OK and R_OK | X_OK, the size of a file that
-- `open` succeeds on, and `opendir` with `readdir`, `none` where it fails.
pub record FileSystem : Type 0 where
  pub stat : Bytes → StatAnswer
  pub exists : Bytes → Bool
  pub readable : Bytes → Bool
  pub writable : Bytes → Bool
  pub searchable : Bytes → Bool
  pub file_size : Bytes → Option ℕ
  pub entries : Bytes → Option (List Bytes)
  pub unlink : Bytes → Option Errno
  pub rmdir : Bytes → Option Errno

-- What the handlers change. A move is `TempFile::moveTo`; one that fails may leave a file, which
-- holds a part of the body or nothing.
pub data Action : Type 0 where
  unlinks removes_dir moves_body_to leaves_file : Bytes → Action

-- `getFileStatus`, with `errno`.
abbrev pub get_file_status : FileSystem → Bytes → StatAnswer
get_file_status fs path = fs.stat path

unfoldable pub check_file_access : FileSystem → (ℕ → Bool) → Bool → Bytes → HttpStatus
check_file_access fs has_mode allow_directory path = elim (fs.stat path) [
  | stat_failed enoent ↦ not_found
  | stat_failed enotdir ↦ not_found
  | stat_failed eacces ↦ forbidden
  | stat_failed _ ↦ internal_server_error
  | stat_of st ↦
      if not (has_mode st.mode)
      then forbidden
      else if st.is_dir && not allow_directory
      then forbidden
      else ok
]

pub record FileEntry : Type 0 where
  pub name : Bytes
  pub is_dir : Bool
  pub byte_size : ℕ
  pub mtime : ℕ

-- Directories first, then by name.
unfoldable pub compare_file_entries : FileEntry → FileEntry → Bool
unfolding bytes_lt
compare_file_entries a b =
    if a.is_dir
    then (if b.is_dir then bytes_lt a.name b.name else true)
    else if b.is_dir
    then false
    else bytes_lt a.name b.name

-- `fullPath` of an entry.
unfoldable pub entry_path : Bytes → Bytes → Bytes
unfolding ends_in_slash
entry_path path name =
    (if not (is_empty path) && not (ends_in_slash path) then path ++ codes "/" else path) ++ name

is_dot_or_dots : Bytes → Bool
is_dot_or_dots name = beq name (codes ".") || beq name (codes "..")

-- The loop over `readdir`: an entry that `stat` fails on is left out.
unfoldable pub read_entries : FileSystem → Bytes → List Bytes → List FileEntry
unfolding entry_path is_dot_or_dots
read_entries fs path [] = []
read_entries fs path (name ∷ names) =
    let rest = read_entries fs path names in
    if is_dot_or_dots name then rest else elim (fs.stat (entry_path path name)) [
      | stat_failed _ ↦ rest
      | stat_of st ↦
          record { name = name; is_dir = st.is_dir; byte_size = st.byte_size; mtime = st.mtime }
          ∷ rest
    ]

-- `std::sort` by `compareFileEntries`. The names of a directory differ, so that there is one
-- order only.
unfoldable pub insert_entry : FileEntry → List FileEntry → List FileEntry
unfolding compare_file_entries
insert_entry e [] = e ∷ []
insert_entry e (f ∷ fs) =
    let rest = f ∷ insert_entry e fs in if compare_file_entries f e then rest else e ∷ f ∷ fs

unfoldable pub sort_entries : List FileEntry → List FileEntry
unfolding insert_entry
sort_entries [] = []
sort_entries (e ∷ es) = insert_entry e (sort_entries es)

-- `getDirectoryEntries`; `none` for false.
unfoldable pub get_directory_entries : FileSystem → Bytes → Option (List FileEntry)
unfolding read_entries sort_entries
get_directory_entries fs path = elim (fs.entries path) [
  | none ↦ none
  | some names ↦ some (sort_entries (read_entries fs path names))
]
