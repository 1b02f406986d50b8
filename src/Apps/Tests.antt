-- ===== src/Apps/Tests.antt =====
-- A short file.
use luna_os_arm.Prelude.{ℕ, ◌≡◌, none, some, List, [], ◌∷◌, map, take, if◌then◌else◌}
use luna_os_arm.Apps.Editor.{
  editor_load, editor_load_lem, all_fit, at_least_one, line_of, max_lines,
}

abbrev bufs : List (List ℕ)
bufs = (104 ∷ 105 ∷ 10 ∷ []) ∷ (10 ∷ []) ∷ []

editor_load_lem_example : editor_load (some bufs) ≡ (
    if all_fit (take max_lines bufs)
    then some (at_least_one (map line_of (take max_lines bufs)))
    else none)
editor_load_lem_example = editor_load_lem bufs
