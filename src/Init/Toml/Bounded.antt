-- ===== src/Init/Toml/Bounded.antt =====
-- toml_load_buffer and toml_load_file of src/luna-init/toml.c leave a document within its limits.
use mahina_os.Init.Toml.{
  Error, Parsed, ◌>>=◌, require, from_option, Entry, ArrayTable, Doc, ParseState, max_key_len,
  max_section_len, max_entries, max_array_tables, empty_doc, initial_state,
}
use mahina_os.Init.Toml.Text.{copy_bounded, trim, split_at, before_brackets, c_string}
use mahina_os.Init.Toml.Values.{parse_value}
use mahina_os.Init.Toml.Line.{
  get_or_create, bump_count, array_header, section_header, value_text, key_value, dispatch,
  parse_line,
}
use mahina_os.Init.Toml.Load.{strip_return, lines, load_lines, load_buffer, File, load_file}
use mahina_os.Init.Toml.Lookup.{count_loop}
use mahina_os.Init.Toml.Safe.{Ensures, bind-Ensures, require-Ensures, from_option-Ensures}
use mahina_os.Init.Toml.Tables.{ShortNames, CountedAt, get_or_create-Counted}
use mahina_os.Init.Toml.Valid.{Fits, parse_value-Fits}
use mahina_os.Prelude.{
  ℕ, ◌≤◌, ◌<◌, ◌≡◌, subst, sym, Bool-cases, inl, inr, ◌&&◌, Bool, true, false, ◌||◌, not, List, [],
  ◌∷◌, ◌++◌, Option, none, some, arith, ◌==◌, ltb, if◌then◌else◌, length, take, CString,
  length-append, ltb→lt,
}

-- An entry of an array table has a number below the table's count.
abbrev IndexOk : List ArrayTable → CString → Option ℕ → Type 0
IndexOk tables section none = Unit {0}
IndexOk tables section (some i) = i < count_loop tables section

pub record IsValidEntry (tables : List ArrayTable) (e : Entry) : Type 0 where
  pub section_short : length e.section < max_section_len
  pub key_short : length e.key < max_key_len
  pub value_fits : Fits e.value
  pub index_ok : IndexOk tables e.section e.array_table_index

abbrev pub ValidEntries : List ArrayTable → List Entry → Type 0
ValidEntries tables [] = Unit {0}
ValidEntries tables (e ∷ es) = IsValidEntry tables e × ValidEntries tables es

pub record IsValid (doc : Doc) : Type 0 where
  pub few_entries : length doc.entries ≤ max_entries
  pub few_tables : length doc.array_tables ≤ max_array_tables
  pub short_names : ShortNames doc.array_tables
  pub entries_valid : ValidEntries doc.array_tables doc.entries

-- The section of the parse state fits, and its array entry has been counted.
record IsValidState (tables : List ArrayTable) (state : ParseState) : Type 0 where
  section_short : length state.cur_section < max_section_len
  index_ok : IndexOk tables state.cur_section state.cur_array_table_entry

abbrev Valid : Doc × ParseState → Type 0
Valid r = IsValid r.0 × IsValidState r.0.array_tables r.1

IndexOk-mono :
    (old new : List ArrayTable) (section : CString) (i : Option ℕ)
    → count_loop old section ≤ count_loop new section
    → IndexOk old section i
    → IndexOk new section i
IndexOk-mono old new section none l h = tt
IndexOk-mono old new section (some i) l h = omega arith

ValidEntries-mono :
    (old new : List ArrayTable) (es : List Entry)
    → ((s : CString) → count_loop old s ≤ count_loop new s)
    → ValidEntries old es
    → ValidEntries new es
ValidEntries-mono old new [] l h = tt
ValidEntries-mono old new (e ∷ es) l h = (
  record {
    section_short = h.0.section_short;
    key_short = h.0.key_short;
    value_fits = h.0.value_fits;
    index_ok = IndexOk-mono old new e.section e.array_table_index (l e.section) h.0.index_ok;
  },
  ValidEntries-mono old new es l h.1,
)

ValidEntries-append :
    (tables : List ArrayTable) (es : List Entry) (e : Entry)
    → ValidEntries tables es
    → IsValidEntry tables e
    → ValidEntries tables (es ++ e ∷ [])
ValidEntries-append tables [] e h v = (v, tt)
ValidEntries-append tables (d ∷ es) e h v = (h.0, ValidEntries-append tables es e h.1 v)

copy_bounded-fits :
    (n : ℕ) (s : CString)
    → (copy_bounded n s).1 ≡ true
    → ((copy_bounded n s).0 ≡ s) × (length s < n)
unfolding copy_bounded
copy_bounded-fits n s h = ground arith

copy_bounded-short :
    (n : ℕ) (s : CString) → (copy_bounded n s).1 ≡ true → length (copy_bounded n s).0 < n
unfolding copy_bounded
copy_bounded-short n s h = ground arith

array_header-Valid :
    (doc : Doc) (rest : CString) → IsValid doc → Ensures Valid (array_header doc rest)
unfolding array_header
array_header-Valid doc rest v =
    bind-Ensures (λ name. before_brackets rest ≡ some name) Valid
      (from_option (before_brackets rest) _) _ (from_option-Ensures (before_brackets rest) _)
      (λ name _.
        bind-Ensures (λ _. (copy_bounded 64 name).1 ≡ true) Valid
          (require (copy_bounded 64 name).1 _) _ (require-Ensures (copy_bounded 64 name).1 _)
          (λ _ fits.
            let (same, short) = copy_bounded-fits 64 name fits in
            bind-Ensures (CountedAt name doc.array_tables) Valid
              (get_or_create name doc.array_tables) _
              (get_or_create-Counted name doc.array_tables short)
              (λ r c. (
                record {
                  few_entries = v.few_entries;
                  few_tables = c.few v.few_tables;
                  short_names = c.short v.short_names;
                  entries_valid =
                      ValidEntries-mono doc.array_tables (bump_count r.0 r.1).1 doc.entries c.grows
                        v.entries_valid;
                },
                record {
                  section_short = copy_bounded-short 64 name fits;
                  index_ok =
                      subst (λ t. (bump_count r.0 r.1).0 < count_loop (bump_count r.0 r.1).1 t)
                        (sym same) c.below;
                },
              ))))

section_header-Valid :
    (doc : Doc) (rest : CString) → IsValid doc → Ensures Valid (section_header doc rest)
unfolding section_header
section_header-Valid doc rest v =
    bind-Ensures (λ r. split_at b']' rest ≡ some r) Valid (from_option (split_at b']' rest) _) _
      (from_option-Ensures (split_at b']' rest) _)
      (λ r _.
        bind-Ensures (λ _. (copy_bounded 64 r.0).1 ≡ true) Valid (require (copy_bounded 64 r.0).1 _)
          _ (require-Ensures (copy_bounded 64 r.0).1 _)
          (λ _ fits. (v, record { section_short = copy_bounded-short 64 r.0 fits; index_ok = tt })))

pick-IndexOk :
    (tables : List ArrayTable) (section : CString) (b : Bool) (i : Option ℕ)
    → IndexOk tables section i
    → IndexOk tables section (if b then i else none)
pick-IndexOk tables section true i h = h
pick-IndexOk tables section false i h = tt

-- A checked copy, or TOML_ERR_OVERFLOW.
copied-Ensures :
    {B : Type 0} (Q : B → Type 0) (n : ℕ) (s : CString) (e : Error) (f : Unit {0} → Parsed B)
    → ((copy_bounded n s).1 ≡ true → Ensures Q (f tt))
    → Ensures Q (require (copy_bounded n s).1 e >>= f)
copied-Ensures Q n s e f h =
    bind-Ensures (λ _. (copy_bounded n s).1 ≡ true) Q (require (copy_bounded n s).1 e) f
      (require-Ensures (copy_bounded n s).1 e) (λ _ fits. h fits)

key_value-Valid :
    (doc : Doc) (state : ParseState) (line : CString)
    → IsValid doc
    → IsValidState doc.array_tables state
    → Ensures Valid (key_value doc state line)
unfolding key_value
key_value-Valid doc state line v w =
    bind-Ensures (λ r. split_at b'=' line ≡ some r) Valid (from_option (split_at b'=' line) _) _
      (from_option-Ensures (split_at b'=' line) _)
      (λ r _. copied-Ensures Valid 64 r.0 _ _ (λ _. copied-Ensures Valid 512 r.1 _ _ (λ _.
        bind-Ensures (λ _. ltb (length doc.entries) 128 ≡ true) Valid
          (require (ltb (length doc.entries) 128) _) _
          (require-Ensures (ltb (length doc.entries) 128) _)
          (λ _ room. copied-Ensures Valid 64 state.cur_section _ _ (λ fits.
            copied-Ensures Valid 64 (trim (copy_bounded 64 r.0).0) _ _ (λ named.
              bind-Ensures Fits Valid (parse_value (value_text (copy_bounded 512 r.1).0)) _
                (parse_value-Fits (value_text (copy_bounded 512 r.1).0))
                (λ value bounded. (
                  record {
                    few_entries = omega (
                      arith,
                      length-append {0} doc.entries,
                      ltb→lt (length doc.entries) 128 room,
                    );
                    few_tables = v.few_tables;
                    short_names = v.short_names;
                    entries_valid =
                        ValidEntries-append doc.array_tables doc.entries _ v.entries_valid (record {
                          section_short = copy_bounded-short 64 state.cur_section fits;
                          key_short = copy_bounded-short 64 (trim (copy_bounded 64 r.0).0) named;
                          value_fits = bounded;
                          index_ok =
                              subst
                                (λ t. IndexOk doc.array_tables t (
                                  if state.cur_is_array_table
                                  then state.cur_array_table_entry
                                  else none))
                                (sym (copy_bounded-fits 64 state.cur_section fits).0)
                                (pick-IndexOk doc.array_tables state.cur_section
                                  state.cur_is_array_table state.cur_array_table_entry w.index_ok);
                        });
                  },
                  w,
                ))))))))

dispatch-Valid :
    (doc : Doc) (state : ParseState) (line : CString)
    → IsValid doc
    → IsValidState doc.array_tables state
    → Ensures Valid (dispatch doc state line)
unfolding dispatch
dispatch-Valid doc state [] v w = (v, w)
dispatch-Valid doc state (c ∷ []) v w =
    let a = section_header-Valid doc [] v in
    let k = key_value-Valid doc state (c ∷ []) v w in
    let stay : Valid (doc, state) = (v, w) in
    elim (Bool-cases (c == b'#')) [
      | inl e ↦ rw e stay
      | inr e ↦ rw e (elim (Bool-cases (c == b'[')) [ inl f ↦ rw f a | inr f ↦ rw f k ])
    ]
dispatch-Valid doc state (c ∷ d ∷ rest) v w =
    let h = array_header-Valid doc rest v in
    let a = section_header-Valid doc (d ∷ rest) v in
    let k = key_value-Valid doc state (c ∷ d ∷ rest) v w in
    let stay : Valid (doc, state) = (v, w) in
    elim (Bool-cases (c == b'#')) [
      | inl e ↦ rw e stay
      | inr e ↦ rw e (elim (Bool-cases (c == b'[' && d == b'[')) [
        | inl f ↦ rw f h
        | inr f ↦ rw f (elim (Bool-cases (c == b'[')) [ inl g ↦ rw g a | inr g ↦ rw g k ])
      ])
    ]

load_lines-IsValid :
    (ls : List (List ℕ)) (doc : Doc) (state : ParseState)
    → IsValid doc
    → IsValidState doc.array_tables state
    → Ensures IsValid (load_lines ls doc state)
unfolding load_lines
load_lines-IsValid [] doc state v w = v
load_lines-IsValid (l ∷ ls) doc state v w =
    bind-Ensures (λ _. ltb (length l) 512 ≡ true) IsValid (require (ltb (length l) 512) _) _
      (require-Ensures (ltb (length l) 512) _)
      (λ _ _.
        bind-Ensures Valid IsValid (parse_line doc state (c_string (strip_return l))) _
          (unfold parse_line in dispatch-Valid doc state (trim (c_string (strip_return l))) v w)
          (λ r k. load_lines-IsValid ls r.0 r.1 k.0 k.1))

-- Whatever the bytes of the buffer are, toml_load_buffer reads no string past its end, and a
-- document that it returns has at most 128 entries and 32 array tables, sections, keys and names
-- shorter than their buffers, values that fit their toml_value_t, and, for each entry of an array
-- table, an index below the count of its table.
pub load_buffer-IsValid : (memory : Bool) (buf : List ℕ) → Ensures IsValid (load_buffer memory buf)
unfolding load_buffer
load_buffer-IsValid memory buf =
    bind-Ensures _ IsValid (require (not (length buf == 0 || ltb 65536 (length buf))) _) _
      (require-Ensures (not (length buf == 0 || ltb 65536 (length buf))) _)
      (λ _ _. bind-Ensures _ IsValid (require memory _) _ (require-Ensures memory _) (λ _ _.
        load_lines-IsValid (lines buf) empty_doc initial_state
          (record {
            few_entries = omega arith;
            few_tables = omega arith;
            short_names = tt;
            entries_valid = tt;
          })
          (record { section_short = omega arith; index_ok = tt })))

-- The same for toml_load_file, whatever the kernel answers.
pub load_file-IsValid : (file : File) → Ensures IsValid (load_file file)
unfolding load_file
load_file-IsValid file =
    bind-Ensures _ IsValid (require file.opened _) _ (require-Ensures file.opened _) (λ _ _.
      bind-Ensures _ IsValid (from_option file.st_size _) _ (from_option-Ensures file.st_size _)
        (λ size _.
          bind-Ensures _ IsValid (require (not (ltb 65536 size)) _) _
            (require-Ensures (not (ltb 65536 size)) _)
            (λ _ _.
              bind-Ensures _ IsValid (require file.buffer_memory _) _
                (require-Ensures file.buffer_memory _)
                (λ _ _.
                  bind-Ensures _ IsValid (from_option file.bytes _) _
                    (from_option-Ensures file.bytes _)
                    (λ buf _. load_buffer-IsValid file.doc_memory (take size buf))))))
