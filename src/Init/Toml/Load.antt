-- ===== src/Init/Toml/Load.antt =====
-- toml_load_buffer and toml_load_file of src/luna-init/toml.c.
use mahina_os.Init.Toml.{
  overflow, io, too_large, Parsed, ok, ◌>>=◌, ◌>>◌, require, from_option, max_line_len,
  max_doc_bytes, Doc, ParseState, empty_doc, initial_state,
}
use mahina_os.Init.Toml.Text.{c_string}
use mahina_os.Init.Toml.Line.{parse_line}
use mahina_os.Prelude.{
  ℕ, Bool, ◌||◌, not, List, [], ◌∷◌, Option, ◌==◌, ltb, if◌then◌else◌, length, take,
}

-- The lines of a buffer, without their newlines. The last line may have none.
abbrev pub onto_first : ℕ → List (List ℕ) → List (List ℕ)
onto_first c [] = (c ∷ []) ∷ []
onto_first c (l ∷ ls) = (c ∷ l) ∷ ls

unfoldable pub lines : List ℕ → List (List ℕ)
lines [] = []
lines (c ∷ buf) = if c == b'\n' then [] ∷ lines buf else onto_first c (lines buf)

-- if (llen > 0 && line[llen - 1] == '\r') llen--;
unfoldable pub strip_return : List ℕ → List ℕ
strip_return [] = []
strip_return (c ∷ []) = if c == b'\r' then [] else c ∷ []
strip_return (c ∷ d ∷ l) = c ∷ strip_return (d ∷ l)

-- The loop of toml_load_buffer over the lines.
unfoldable pub load_lines : List (List ℕ) → Doc → ParseState → Parsed Doc
unfolding parse_line c_string strip_return
load_lines [] doc state = ok doc
load_lines (l ∷ ls) doc state = do
  require (ltb (length l) max_line_len) overflow
  (doc', state') ← parse_line doc state (c_string (strip_return l))
  load_lines ls doc' state'

-- toml_load_buffer. `memory` says whether calloc returns a document.
unfoldable pub load_buffer : Bool → List ℕ → Parsed Doc
unfolding load_lines lines
load_buffer memory buf = do
  require (not (length buf == 0 || ltb max_doc_bytes (length buf))) too_large
  require memory io
  load_lines (lines buf) empty_doc initial_state

-- What the kernel answers: whether open succeeds, the st_size of fstat, whether the two callocs
-- succeed, and the bytes of read, of which there are at most st_size.
pub record File : Type 0 where
  pub opened : Bool
  pub st_size : Option ℕ
  pub buffer_memory : Bool
  pub bytes : Option (List ℕ)
  pub doc_memory : Bool

-- toml_load_file.
unfoldable pub load_file : File → Parsed Doc
unfolding load_buffer
load_file file = do
  require file.opened io
  st_size ← from_option file.st_size too_large
  require (not (ltb max_doc_bytes st_size)) too_large
  require file.buffer_memory io
  buf ← from_option file.bytes io
  load_buffer file.doc_memory (take st_size buf)
