-- ===== src/Apps/Files.antt =====
-- The directory listing of the file manager (apps/files/luna-files.c). `opendir`, `readdir` and
-- `stat` give arguments; `strcasecmp` and `qsort` are parameters.
use luna_os_arm.Prelude.{
  ℕ, zero, suc, ℤ, pos, negsuc, ◌≡◌, refl, inl, inr, Bool, false, Option, none, some, List, [], ◌∷◌,
  ◌++◌, map, take, if◌then◌else◌, Bool-cases,
}
use luna_os_arm.Prelude.Text.{codes, str_eq}

abbrev pub max_files : ℕ
max_files = 4096

-- `struct stat`, as far as it is read.
pub record Stat : Type 0 where
  pub is_dir : Bool
  pub size : ℕ
  pub mtime : ℕ

pub record FileEntry : Type 0 where
  pub name : List ℕ
  pub path : List ℕ
  pub stat : Stat

-- `FilesApp` without its Wayland objects; `files` are the first `file_count` entries.
pub record FilesApp : Type 0 where
  pub cwd : List ℕ
  pub files : List FileEntry
  pub selected : ℕ
  pub scroll : ℕ

-- `cmp_entries`
unfoldable pub cmp_entries : (List ℕ → List ℕ → ℤ) → FileEntry → FileEntry → ℤ
cmp_entries strcasecmp a b =
    if a.stat.is_dir
    then (if b.stat.is_dir then strcasecmp a.name b.name else negsuc 0)
    else (if b.stat.is_dir then pos 1 else strcasecmp a.name b.name)

abbrev pub or_blank : Option Stat → Stat
or_blank none = record { is_dir = false; size = 0; mtime = 0 }
or_blank (some st) = st

abbrev pub entry_path : List ℕ → List ℕ → List ℕ
entry_path dir name = take 510 (dir ++ codes "/" ++ name)

-- The entry of one name, in a slot that was never used.
abbrev pub entry_of : (List ℕ → Option Stat) → List ℕ → List ℕ → FileEntry
entry_of stat dir name = record {
  name = take 255 name;
  path = entry_path dir name;
  stat = or_blank (stat (entry_path dir name));
}

-- `!strcmp(ent->d_name, ".")`
abbrev pub is_dot : List ℕ → Bool
is_dot name = str_eq name (codes ".")

-- The loop of `load_dir`, with room for so many entries more.
unfoldable pub read_entries :
    (List ℕ → Option Stat) → List ℕ → (names : List (List ℕ)) → ℕ → List FileEntry
read_entries stat dir [] room = []
read_entries stat dir (name ∷ names) zero = []
read_entries stat dir (name ∷ names) (suc room) =
    let skipped = read_entries stat dir names (suc room) in
    let rest = read_entries stat dir names room in
    if is_dot name then skipped else entry_of stat dir name ∷ rest

-- `load_dir` of an application that has loaded nothing before; `none` is a directory that does not
-- open.
unfoldable pub load_dir :
    (((FileEntry → FileEntry → ℤ) → List FileEntry → List FileEntry))
    → (List ℕ → List ℕ → ℤ)
    → (List ℕ → Option Stat)
    → List ℕ
    → Option (List (List ℕ))
    → FilesApp
    → FilesApp
load_dir qsort strcasecmp stat dir none app = app
load_dir qsort strcasecmp stat dir (some names) app = record {
  cwd = take 511 dir;
  files = qsort (cmp_entries strcasecmp) (read_entries stat dir names max_files);
  selected = 0;
  scroll = 0;
}

-- The names but `.`.
abbrev pub visible : List (List ℕ) → List (List ℕ)
visible [] = []
visible (name ∷ names) = let rest = visible names in if is_dot name then rest else name ∷ rest

-- What `load_dir` reads before it sorts: an entry for each of the first `room` names other than
-- `.`, in the order of the directory, with what `stat` tells of its path.
pub read_entries_lem :
    (stat : List ℕ → Option Stat) (dir : List ℕ) (names : List (List ℕ)) (room : ℕ)
    → read_entries stat dir names room ≡ map (entry_of stat dir) (take room (visible names))
unfolding read_entries
read_entries_lem stat dir [] zero = refl
read_entries_lem stat dir [] (suc room) = refl
read_entries_lem stat dir (name ∷ names) zero = refl
read_entries_lem stat dir (name ∷ names) (suc room) = elim (Bool-cases (is_dot name)) [
  | inl t ↦ simp (t, read_entries_lem stat dir names (suc room))
  | inr f ↦ simp (f, read_entries_lem stat dir names room)
]
