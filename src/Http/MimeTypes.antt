-- ===== src/Http/MimeTypes.antt =====
-- src/http/MimeTypes.cpp: the types of file name extensions. The file, as read, is an argument of
-- `reload`; when it is read, by its modification time, is not modelled.
use server_x.Common.{
  ℕ, zero, suc, Bool, ◌||◌, Option, none, some, List, [], ◌∷◌, ◌==◌, if◌then◌else◌, length, drop,
  Bytes, codes, starts_with, Dict, lookup, insert,
}
use server_x.Http.Headers.{lines}
use server_x.Http.Request.{next_word}

pub record MimeTypes : Type 0 where
  pub mime_types : Dict Bytes
  pub mime_ext : Dict Bytes

abbrev pub no_types : MimeTypes
no_types = record { mime_types = []; mime_ext = [] }

or_default : Bytes → Option Bytes → Bytes
or_default d none = d
or_default d (some v) = v

unfoldable pub get_mime_type : Bytes → MimeTypes → Bytes
unfolding or_default lookup
get_mime_type extension m = or_default (codes "text/plain") (lookup extension m.mime_types)

unfoldable pub get_mime_ext : Bytes → MimeTypes → Bytes
unfolding or_default lookup
get_mime_ext mime_type m = or_default (codes "txt") (lookup mime_type m.mime_ext)

-- The three characters that `findFirstSpace` and `findFirstNonSpace` look for.
unfoldable pub is_blank : ℕ → Bool
is_blank c = c == b' ' || (c == b'\t' || c == 11)

-- The text before the first of them, and from the first that is none of them on.
unfoldable pub before_blank : Bytes → Bytes
unfolding is_blank
before_blank [] = []
before_blank (c ∷ cs) = if is_blank c then [] else c ∷ before_blank cs

unfoldable pub skip_blanks : Bytes → Bytes
unfolding is_blank
skip_blanks [] = []
skip_blanks (c ∷ cs) = if is_blank c then skip_blanks cs else c ∷ cs

-- The words of `iss >> ext`. A word has a byte at least, so that the length of the text is fuel
-- enough.
unfoldable pub words : ℕ → Bytes → List Bytes
unfolding next_word
words zero s = []
words (suc fuel) s = elim (next_word s) [ none ↦ [] | some r ↦ r.0 ∷ words fuel r.1 ]

unfoldable pub set_extensions : Bytes → List Bytes → MimeTypes → MimeTypes
unfolding insert
set_extensions mime_type [] m = m
set_extensions mime_type (ext ∷ exts) m = set_extensions mime_type exts (record {
  mime_types = insert ext mime_type m.mime_types;
  mime_ext = insert mime_type ext m.mime_ext;
})

-- The type and the extensions of a line; a comment has none.
unfoldable pub extensions_of : Bytes → List Bytes
unfolding words before_blank skip_blanks starts_with
extensions_of line =
    let rest = skip_blanks (drop (length (before_blank line)) line) in
    if starts_with (codes "#") line then [] else words (suc (length rest)) rest

unfoldable pub read_lines : List Bytes → MimeTypes → MimeTypes
unfolding extensions_of set_extensions before_blank
read_lines [] m = m
read_lines (line ∷ ls) m = read_lines ls (set_extensions (before_blank line) (extensions_of line) m)

-- `reload` of a file that has changed and can be opened.
unfoldable pub reload : Bytes → MimeTypes
unfolding read_lines lines
reload file = read_lines (lines file) no_types
