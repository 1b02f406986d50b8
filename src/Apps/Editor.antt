-- ===== src/Apps/Editor.antt =====
-- Loading a file into the text editor (apps/text-editor/luna-editor.c). What `fgets` reads is an
-- argument: the buffers in order, each up to and with a newline.
pub mod Program
use luna_os_arm.Prelude.{
  ℕ, zero, suc, ◌+◌, ◌≡◌, refl, inl, inr, Bool, true, ◌&&◌, Option, none, some, List, [], ◌∷◌, ◌==◌,
  leb, if◌then◌else◌, length, map, take, ◌>>=◌, Bool-cases,
}

abbrev pub max_lines : ℕ
max_lines = 65536

-- `Line`: the first `len` bytes of `data`, and the room of `data`.
pub record Line : Type 0 where
  pub text : List ℕ
  pub cap : ℕ

-- `line_init`
abbrev pub line_init : Line
line_init = record { text = []; cap = 80 }

-- The bytes before the first zero.
abbrev pub c_string : List ℕ → List ℕ
c_string [] = []
c_string (c ∷ cs) = let rest = c_string cs in if c == 0 then [] else c ∷ rest

-- `if (n > 0 && buf[n-1] == '\n') buf[--n] = 0`
abbrev pub strip_newline : List ℕ → List ℕ
strip_newline [] = []
strip_newline (c ∷ []) = if c == 10 then [] else c ∷ []
strip_newline (c ∷ d ∷ cs) = c ∷ strip_newline (d ∷ cs)

abbrev pub line_text : List ℕ → List ℕ
line_text buf = strip_newline (c_string buf)

-- `memcpy(l->data, buf, n+1)` into a new line: `none` is a write past its end.
abbrev pub copy_line : List ℕ → Option Line
copy_line buf =
    if leb (length (line_text buf) + 1) line_init.cap
    then some (record line_init { text = line_text buf })
    else none

-- The loop of `editor_load`, with room for so many lines more.
unfoldable pub load_lines : (room : ℕ) → List (List ℕ) → Option (List Line)
load_lines zero bufs = some []
load_lines (suc room) [] = some []
load_lines (suc room) (buf ∷ bufs) = do
  line ← copy_line buf
  lines ← load_lines room bufs
  some (line ∷ lines)

-- `if (!ed->line_count)`: an empty file has one empty line.
abbrev pub at_least_one : List Line → List Line
at_least_one [] = line_init ∷ []
at_least_one (line ∷ lines) = line ∷ lines

-- `editor_load`: the lines, `none` for a write past the end of one. A file that does not open is
-- the outer `none` of the argument.
unfoldable pub editor_load : Option (List (List ℕ)) → Option (List Line)
editor_load none = some (line_init ∷ [])
editor_load (some bufs) = do lines ← load_lines max_lines bufs; some (at_least_one lines)

-- Each text, with its zero, fits into the 80 bytes of a new line.
abbrev pub all_fit : List (List ℕ) → Bool
all_fit [] = true
all_fit (buf ∷ bufs) = leb (length (line_text buf) + 1) 80 && all_fit bufs

abbrev pub line_of : List ℕ → Line
line_of buf = record { text = line_text buf; cap = 80 }

load_lines_lem :
    (room : ℕ) (bufs : List (List ℕ))
    → load_lines room bufs
      ≡ (if all_fit (take room bufs) then some (map line_of (take room bufs)) else none)
unfolding load_lines
load_lines_lem zero bufs = refl
load_lines_lem (suc room) [] = refl
load_lines_lem (suc room) (buf ∷ bufs) = elim (Bool-cases (leb (length (line_text buf) + 1) 80)) [
  | inr f ↦ simp f
  | inl t ↦ elim (Bool-cases (all_fit (take room bufs))) [
    | inl fits ↦ simp (t, load_lines_lem room bufs, fits)
    | inr long ↦ simp (t, load_lines_lem room bufs, long)
  ]
]

-- A file loads as its first 65536 lines without their newlines, or as one empty line if it has
-- none, exactly if each of these lines has at most 79 bytes; otherwise a line is written past its
-- end.
pub editor_load_lem :
    (bufs : List (List ℕ))
    → editor_load (some bufs) ≡ (
        if all_fit (take max_lines bufs)
        then some (at_least_one (map line_of (take max_lines bufs)))
        else none)
unfolding editor_load
editor_load_lem bufs = elim (Bool-cases (all_fit (take max_lines bufs))) [
  | inl t ↦ simp (load_lines_lem max_lines bufs, t)
  | inr f ↦ simp (load_lines_lem max_lines bufs, f)
]
