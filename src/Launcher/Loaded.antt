-- ===== src/Launcher/Loaded.antt =====
-- What the launcher can rely on about the applications that it has read.
use luna_os_arm.Prelude.{
  ℕ, zero, suc, ◌≤◌, ◌≡◌, inl, inr, Bool, true, false, not, ◌||◌, ◌==◌, Option, none, some, List,
  [], ◌∷◌, length, take, arith, if◌then◌else◌, Bool-cases,
}
use luna_os_arm.Prelude.Text.{codes, starts_with, str_eq}
use luna_os_arm.Launcher.{
  App, blank_app, chomp, drop, set_field, set_fields, is_section, read_lines, before_percent,
  drop_last, cut_at, map_cons, load_file, finish, is_empty, keep_app, contains, DirEntry, apps_load,
}

-- The texts of an application fit into their fields with a zero behind them.
record IsFitting (a : App) : Type 0 where
  name : length a.name ≤ 63
  exec : length a.exec ≤ 255
  icon : length a.icon_name ≤ 63

length-take : (n : ℕ) (cs : List ℕ) → length (take n cs) ≤ n
length-take zero cs = omega arith
length-take (suc n) [] = omega arith
length-take (suc n) (c ∷ cs) = omega (arith, length-take n cs)

length-set_field :
    (key : List ℕ) (room : ℕ) (line field : List ℕ)
    → length field ≤ room
    → length (set_field key room line field) ≤ room
length-set_field key room line field h = elim (Bool-cases (starts_with key line)) [
  | inl t ↦ simp t (length-take room (drop 5 line))
  | inr f ↦ simp f h
]

set_fields-IsFitting : (line : List ℕ) (a : App) → IsFitting a → IsFitting (set_fields line a)
set_fields-IsFitting line a f = record {
  name = length-set_field (codes "Name=") 63 line a.name f.name;
  exec = length-set_field (codes "Exec=") 255 line a.exec f.exec;
  icon = length-set_field (codes "Icon=") 63 line a.icon_name f.icon;
}

line-IsFitting :
    (skip : Bool) (line : List ℕ) (a : App)
    → IsFitting a
    → IsFitting (if skip then a else set_fields line a)
line-IsFitting true line a f = f
line-IsFitting false line a f = set_fields-IsFitting line a f

read_lines-IsFitting :
    (bufs : List (List ℕ)) (entry : Bool) (a : App)
    → IsFitting a
    → IsFitting (read_lines bufs entry a)
unfolding read_lines
read_lines-IsFitting [] entry a f = f
read_lines-IsFitting (buf ∷ bufs) entry a f =
    elim (Bool-cases (str_eq (chomp buf) (codes "[Desktop Entry]"))) [
      | inl t ↦ simp t (read_lines-IsFitting bufs true a f)
      | inr n ↦ simp n (
          read_lines-IsFitting bufs (if is_section (chomp buf) then false else entry) _
            (line-IsFitting (is_section (chomp buf) || not entry) (chomp buf) a f))
    ]

abbrev Short : List ℕ → Option (List ℕ) → Type 0
Short exec none = Unit
Short exec (some front) = length front ≤ length exec

Short-cons :
    (c : ℕ) (cs : List ℕ) (o : Option (List ℕ)) → Short cs o → Short (c ∷ cs) (map_cons c o)
Short-cons c cs none h = tt
Short-cons c cs (some front) h = omega arith

before_percent-Short : (exec : List ℕ) → Short exec (before_percent exec)
before_percent-Short [] = tt
before_percent-Short (c ∷ cs) = elim (Bool-cases (c == 37)) [
  | inl t ↦ simp t (omega arith)
  | inr f ↦ simp f (Short-cons c cs (before_percent cs) (before_percent-Short cs))
]

length-drop_last : (cs : List ℕ) → length (drop_last cs) ≤ length cs
length-drop_last [] = omega arith
length-drop_last (c ∷ []) = omega arith
length-drop_last (c ∷ d ∷ cs) = omega (arith, length-drop_last (d ∷ cs))

length-cut_at :
    (exec : List ℕ) (o : Option (List ℕ)) → Short exec o → length (cut_at exec o) ≤ length exec
length-cut_at exec none h = omega arith
length-cut_at exec (some []) h = omega arith
length-cut_at exec (some (c ∷ front)) h = omega (arith, length-drop_last (c ∷ front))

-- An application that the launcher can show and start: its texts fit, its name and its command are
-- not empty.
pub record IsRunnable (a : App) : Type 0 where
  pub named : (1 ≤ length a.name) × (length a.name ≤ 63)
  pub command : (1 ≤ length a.exec) × (length a.exec ≤ 255)
  pub icon : length a.icon_name ≤ 63

abbrev pub AllRunnable : List App → Type 0
AllRunnable [] = Unit
AllRunnable (a ∷ rest) = IsRunnable a × AllRunnable rest

finish-IsFitting : (a : App) → IsFitting a → IsFitting (finish a)
finish-IsFitting a f = record {
  name = f.name;
  exec =
      omega
        (arith, f.exec, length-cut_at a.exec (before_percent a.exec) (before_percent-Short a.exec));
  icon = f.icon;
}

is_empty-length : (cs : List ℕ) → is_empty cs ≡ false → 1 ≤ length cs
is_empty-length [] e = cc e
is_empty-length (c ∷ cs) e = omega arith

keep_app-Runnable :
    (a : App) (rest : List App) → IsFitting a → AllRunnable rest → AllRunnable (keep_app a rest)
keep_app-Runnable a rest f all = elim (Bool-cases (is_empty a.name)) [
  | inl t ↦ simp t all
  | inr n ↦ elim (Bool-cases (is_empty a.exec)) [
    | inl t ↦ simp (n, t) all
    | inr x ↦
        simp (n, x)
          (
            record {
              named = (is_empty-length a.name n, f.name);
              command = (is_empty-length a.exec x, f.exec);
              icon = f.icon;
            },
            all,
          )
  ]
]

load_file-Runnable :
    (lines : Option (List (List ℕ))) (rest : List App)
    → AllRunnable rest
    → AllRunnable (load_file lines rest)
load_file-Runnable none rest all = all
load_file-Runnable (some bufs) rest all =
    keep_app-Runnable _ rest
      (finish-IsFitting _ (
        read_lines-IsFitting bufs false blank_app
          (record { name = omega arith; exec = omega arith; icon = omega arith })))
      all

-- Whatever the directory and its files hold, each application that is loaded has a name of 1 to 63
-- bytes and a command of 1 to 255 bytes, which fit into their fields with their zeros, and an icon's
-- name of at most 63.
pub apps_load-AllRunnable : (es : List DirEntry) → AllRunnable (apps_load es)
unfolding apps_load
apps_load-AllRunnable [] = tt
apps_load-AllRunnable (e ∷ es) = elim (Bool-cases (contains (codes ".desktop") e.d_name)) [
  | inl t ↦ simp t (load_file-Runnable e.lines (apps_load es) (apps_load-AllRunnable es))
  | inr f ↦ simp f (apps_load-AllRunnable es)
]
