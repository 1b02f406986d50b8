-- ===== src/Apps/Editor/Program.antt =====
-- The program apps/text-editor/luna-editor.c: its state, and what `main` opens.
use luna_os_arm.Prelude.{
  ℕ, zero, suc, ◌+◌, ◌≤◌, ◌≡◌, subst, Bool, true, false, Option, none, some, List, [], ◌∷◌, length,
  take, ◌>>=◌, bind-some, arith,
}
use luna_os_arm.Apps.Editor.{
  Line, line_init, copy_line, load_lines, at_least_one, editor_load, max_lines,
}

-- `Editor`, with the `line_count` first entries of `lines`.
pub record Editor : Type 0 where
  pub lines : List Line
  pub cursor_row : ℕ
  pub cursor_col : ℕ
  pub scroll_row : ℕ
  pub filepath : List ℕ
  pub modified : Bool
  pub running : Bool

abbrev pub blank : Editor
blank = record {
  lines = [];
  cursor_row = 0;
  cursor_col = 0;
  scroll_row = 0;
  filepath = [];
  modified = false;
  running = true;
}

-- `main`: the editor with the file of the first argument, whose path and contents are given, or with
-- one empty line; `none` is a write past the end of a line.
unfoldable pub main : Option (List ℕ × Option (List (List ℕ))) → Option Editor
unfolding editor_load
main none = some (record blank { lines = line_init ∷ [] })
main (some (path, file)) = do
  lines ← editor_load file
  some (record blank { lines = lines; filepath = take 511 path })

-- Each line has room for its bytes and the zero behind them.
abbrev pub AllFit : List Line → Type 0
AllFit [] = Unit
AllFit (line ∷ lines) = (length line.text + 1 ≤ line.cap) × AllFit lines

load_lines_bounds :
    (room : ℕ) (bufs : List (List ℕ)) (lines : List Line)
    → load_lines room bufs ≡ some lines
    → AllFit lines × (length lines ≤ room)
unfolding load_lines
load_lines_bounds zero bufs lines e =
    (let none_left : [] ≡ lines = cc in
      subst (λ (ls : List Line). AllFit ls × (length ls ≤ 0)) none_left (tt, omega arith))
load_lines_bounds (suc room) [] lines e =
    (let none_left : [] ≡ lines = cc in
      subst (λ (ls : List Line). AllFit ls × (length ls ≤ suc room)) none_left (tt, omega arith))
load_lines_bounds (suc room) (buf ∷ bufs) lines e =
    let (line, copied, e') = bind-some (copy_line buf) e in
    let (others, loaded, e'') = bind-some (load_lines room bufs) e' in
    let (fit, few) = load_lines_bounds room bufs others loaded in
    let here : length line.text + 1 ≤ line.cap = ground arith in
    let same : line ∷ others ≡ lines = cc in
    subst (λ (ls : List Line). AllFit ls × (length ls ≤ suc room)) same ((here, fit), omega arith)

length-take-le {ℓ} : {A : Type ℓ} (n : ℕ) (xs : List A) → length (take n xs) ≤ n
length-take-le zero xs = omega arith
length-take-le (suc n) [] = omega arith
length-take-le (suc n) (x ∷ xs) = omega (arith, length-take-le n xs)

at_least_one_bounds :
    (lines : List Line)
    → AllFit lines
    → length lines ≤ 65536
    → AllFit (at_least_one lines)
      × (length (at_least_one lines) ≤ 65536)
      × (1 ≤ length (at_least_one lines))
at_least_one_bounds [] fit few = ((omega arith, tt), omega arith, omega arith)
at_least_one_bounds (line ∷ lines) fit few = (fit, few, omega arith)

-- At least one line and at most 65536, each with room for its bytes and the zero behind them, and a
-- path below 512 bytes.
pub record IsOpen (ed : Editor) : Type 0 where
  pub some_line : 1 ≤ length ed.lines
  pub few : length ed.lines ≤ 65536
  pub fit : AllFit ed.lines
  pub short : length ed.filepath ≤ 511

opened_IsOpen :
    (path : List ℕ) (read lines : List Line) (ed : Editor)
    → AllFit read
    → length read ≤ 65536
    → some (at_least_one read) ≡ some lines
    → some (record blank { lines = lines; filepath = take 511 path }) ≡ some ed
    → IsOpen ed
opened_IsOpen path read lines ed fit few listed e =
    let (fits, fewer, one) = at_least_one_bounds read fit few in
    let all : at_least_one read ≡ lines = cc in
    let same : record blank { lines = lines; filepath = take 511 path } ≡ ed = cc in
    subst IsOpen same (
      subst (λ (ls : List Line). IsOpen (record blank { lines = ls; filepath = take 511 path })) all
        (record { some_line = one; few = fewer; fit = fits; short = length-take-le 511 path }))

-- What `main` opens, with a file or without one, if nothing is written past the end of a line: at
-- least one line and at most 65536, each with room for its bytes and the zero behind them, and a
-- path below 512 bytes.
pub main-IsOpen :
    (arg : Option (List ℕ × Option (List (List ℕ)))) (ed : Editor) → main arg ≡ some ed → IsOpen ed
unfolding main
main-IsOpen none ed e =
    (let same : record blank { lines = line_init ∷ [] } ≡ ed = cc in
      subst IsOpen same (record {
        some_line = omega arith;
        few = omega arith;
        fit = (omega arith, tt);
        short = omega arith;
      }))
main-IsOpen (some (path, none)) ed e =
    (let same : record blank { lines = line_init ∷ []; filepath = take 511 path } ≡ ed = cc in
      subst IsOpen same (record {
        some_line = omega arith;
        few = omega arith;
        fit = (omega arith, tt);
        short = length-take-le 511 path;
      }))
main-IsOpen (some (path, some bufs)) ed e =
    let (lines, loaded, e') =
      bind-some (load_lines max_lines bufs >>= λ ls. some (at_least_one ls)) e in
    let (read, was, listed) = bind-some (load_lines max_lines bufs) loaded in
    let (fit, few) = load_lines_bounds max_lines bufs read was in
    opened_IsOpen path read lines ed fit few listed e'
