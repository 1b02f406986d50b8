-- ===== src/Launcher.antt =====
-- The launcher of the shell (shell/src/luna-launcher-wallpaper.c): the applications that it reads
-- from .desktop files, and when it is visible. The names of `readdir` and the lines of `fgets` are
-- arguments.
pub mod Loaded
pub mod Draw
pub mod Columns
pub mod Memory
pub mod Life
pub mod Refused
mod Tests
use luna_os_arm.Prelude.{
  ℕ, zero, suc, Bool, true, false, not, ◌&&◌, ◌||◌, Option, none, some, List, [], ◌∷◌, ◌==◌,
  if◌then◌else◌, take,
}
use luna_os_arm.Prelude.Text.{codes, starts_with, str_eq}

-- `struct luna_app`, as far as `luna_apps_load` fills it from a file.
pub record App : Type 0 where
  pub name : List ℕ
  pub exec : List ℕ
  pub icon_name : List ℕ
  pub accent_color : ℕ

-- `memset(a, 0, sizeof(*a))` and the colour.
abbrev pub blank_app : App
blank_app = record { name = []; exec = []; icon_name = []; accent_color = 0xFF607D8B }

-- `line[strcspn(line, "\n")] = 0`
abbrev pub chomp : List ℕ → List ℕ
chomp [] = []
chomp (c ∷ cs) = let rest = chomp cs in if (c == 10) || (c == 0) then [] else c ∷ rest

abbrev pub drop : ℕ → List ℕ → List ℕ
drop zero cs = cs
drop (suc n) [] = []
drop (suc n) (c ∷ cs) = drop n cs

-- `if (!strncmp(line, key, 5)) strncpy(field, line + 5, room)`
abbrev pub set_field : List ℕ → ℕ → List ℕ → List ℕ → List ℕ
set_field key room line field = if starts_with key line then take room (drop 5 line) else field

abbrev pub set_fields : List ℕ → App → App
set_fields line a = record a {
  name = set_field (codes "Name=") 63 line a.name;
  exec = set_field (codes "Exec=") 255 line a.exec;
  icon_name = set_field (codes "Icon=") 63 line a.icon_name;
}

abbrev pub is_section : List ℕ → Bool
is_section [] = false
is_section (c ∷ cs) = c == 91

-- The loop over the lines of a file; the flag is `in`.
unfoldable pub read_lines : List (List ℕ) → Bool → App → App
read_lines [] entry a = a
read_lines (buf ∷ bufs) entry a =
    if str_eq (chomp buf) (codes "[Desktop Entry]")
    then read_lines bufs true a
    else read_lines bufs (if is_section (chomp buf) then false else entry)
        (if is_section (chomp buf) || not entry then a else set_fields (chomp buf) a)

abbrev pub map_cons : ℕ → Option (List ℕ) → Option (List ℕ)
map_cons c none = none
map_cons c (some front) = some (c ∷ front)

-- The bytes before the first `%`, if there is one.
abbrev pub before_percent : List ℕ → Option (List ℕ)
before_percent [] = none
before_percent (c ∷ cs) =
    let rest = map_cons c (before_percent cs) in if c == 37 then some [] else rest

abbrev pub drop_last : List ℕ → List ℕ
drop_last [] = []
drop_last (c ∷ []) = []
drop_last (c ∷ d ∷ cs) = c ∷ drop_last (d ∷ cs)

abbrev pub cut_at : List ℕ → Option (List ℕ) → List ℕ
cut_at exec none = exec
cut_at exec (some []) = exec
cut_at exec (some (c ∷ front)) = drop_last (c ∷ front)

-- `char *pct = strchr(exec, '%'); if (pct && pct > exec) *(pct - 1) = 0`
abbrev pub cut_percent : List ℕ → List ℕ
cut_percent exec = cut_at exec (before_percent exec)

abbrev pub finish : App → App
finish a = record a { exec = cut_percent a.exec }

abbrev pub is_empty : List ℕ → Bool
is_empty [] = true
is_empty (c ∷ cs) = false

-- `strstr(name, part)`
abbrev pub contains : List ℕ → List ℕ → Bool
contains part [] = starts_with part []
contains part (c ∷ cs) = starts_with part (c ∷ cs) || contains part cs

-- `if (a->name[0] && a->exec[0]) count++`
abbrev pub keep_app : App → List App → List App
keep_app a rest = if is_empty a.name || is_empty a.exec then rest else a ∷ rest

-- A name in the directory, and the lines of the file, `none` if it does not open.
pub record DirEntry : Type 0 where
  pub d_name : List ℕ
  pub lines : Option (List (List ℕ))

abbrev pub load_file : Option (List (List ℕ)) → List App → List App
load_file none rest = rest
load_file (some bufs) rest = keep_app (finish (read_lines bufs false blank_app)) rest

-- One turn of the loop of `luna_apps_load`.
abbrev pub load_entry : DirEntry → List App → List App
load_entry e rest = if contains (codes ".desktop") e.d_name then load_file e.lines rest else rest

-- `luna_apps_load` of a directory that opens.
unfoldable pub apps_load : List DirEntry → List App
apps_load [] = []
apps_load (e ∷ es) = load_entry e (apps_load es)

-- What the launcher asks of its surface.
pub data Request : Type 0 where
  rendered : Request
  committed : Request
  hidden : Request

-- `luna_launcher_show`, with the flag that launcher and shell share.
unfoldable pub show : Bool → Bool × List Request
show visible = if visible then (true, []) else (true, committed ∷ rendered ∷ [])

-- `luna_launcher_hide`
unfoldable pub hide : Bool → Bool × List Request
hide visible = if visible then (false, hidden ∷ committed ∷ []) else (false, [])
