-- ===== src/Launcher/Tests.antt =====
-- A directory with one application, and a launcher.
use luna_os_arm.Prelude.{arith, ◌≡◌, refl, none, some, List, [], ◌∷◌, ◌>>=◌}
use luna_os_arm.Launcher.Draw.{layout, grid_x}
use luna_os_arm.Launcher.Columns.{layout-grid_x}
use luna_os_arm.Prelude.Text.{codes}
use luna_os_arm.Launcher.{DirEntry, apps_load}
use luna_os_arm.Launcher.Loaded.{AllRunnable, apps_load-AllRunnable}

abbrev entries : List DirEntry
entries =
    record {
      d_name = codes "foot.desktop";
      lines = some (codes "[Desktop Entry]" ∷ codes "Name=Foot" ∷ codes "Exec=foot %U" ∷ []);
    }
    ∷ []

apps_load-AllRunnable_example : AllRunnable (apps_load entries)
apps_load-AllRunnable_example = apps_load-AllRunnable entries

-- The columns of a launcher of 1280 pixels at the scale 2; on one of 8 their width overflows.
edges :
    ((layout 2 64 none 1280 800 >>= grid_x) ≡ some (136, 0))
    × ((layout 1 64 none 8 800 >>= grid_x) ≡ none)
unfolding layout
edges = (refl, refl)

layout-grid_x_example : (layout 1 64 none 8 800 >>= grid_x) ≡ none
layout-grid_x_example = layout-grid_x 1 64 none 8 800 (omega arith) (omega arith) (omega arith)
