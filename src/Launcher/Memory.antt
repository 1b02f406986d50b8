-- ===== src/Launcher/Memory.antt =====
-- The shared memory of the launcher and of the wallpaper (shell/src/luna-launcher-wallpaper.c), and
-- the handlers that make it. What shm_open, ftruncate and mmap give, and the colours of the
-- gradient, which are computed in floating point, are arguments; `none` is as in Draw.
use luna_os_arm.Prelude.{
  ℕ, ◌*◌, Bool, true, false, Option, none, some, List, [], ◌∷◌, ◌++◌, if◌then◌else◌, ◌>>=◌,
}
use luna_os_arm.Shell.Pixels.{mul_int}
use luna_os_arm.Shell.Buffers.{Shm, Layer, Action, gradient}
use luna_os_arm.Shell.Panel.{Pixels, scale_of, mapping, unmap, close_fd, is_null}
use luna_os_arm.Launcher.{App}
use luna_os_arm.Launcher.Draw.{Grid, layout, draw_launcher}

-- The fields that `struct luna_launcher` and `struct luna_wallpaper` share: `buffer` tells whether
-- the pointers to the pool and the buffer are set.
pub record Memory : Type 0 where
  pub pixels : Pixels
  pub size : ℕ
  pub shm_fd : Option ℕ
  pub buffer : Bool

-- `calloc`, with `shm_fd=-1`.
abbrev pub no_memory : Memory
no_memory = record { pixels = Pixels.null; size = 0; shm_fd = none; buffer = false }

-- `if(pixels){munmap(pixels,size);wl_buffer_destroy(buffer);wl_shm_pool_destroy(shm_pool);close(shm_fd);}`
abbrev pub give_back : Memory → List Action
give_back m =
    if is_null m.pixels
    then []
    else unmap m.pixels m.size
      ++ (Action.buffer_destroyed ∷ Action.pool_destroyed ∷ close_fd m.shm_fd)

abbrev opened_fd : Option ℕ → List Action
opened_fd none = Action.unlinked ∷ []
opened_fd (some fd) = Action.opened fd ∷ Action.unlinked ∷ []

abbrev is_open : Option ℕ → Bool
is_open none = false
is_open (some fd) = true

-- The pointer that `mmap` gives, for a descriptor that may be -1.
abbrev pub mmap : Shm → ℕ → Pixels
mmap shm size =
    if is_open shm.shm_fd
    then (if shm.maps then mapping shm size else Pixels.map_failed)
    else Pixels.map_failed

abbrev mapped_action : Pixels → ℕ → List Action
mapped_action (Pixels.memory px) size = Action.mapped size ∷ []
mapped_action px size = []

-- The same lines of `ll_configure` and `wp_configure`: the old memory goes, and a new one for `pw`
-- by `ph` pixels is asked for; nothing looks at what the system answers.
unfoldable pub remake : Shm → (pw ph : ℕ) → Memory → Option (Memory × List Action)
remake shm pw ph m = do
  stride ← mul_int pw 4
  size ← mul_int stride ph
  some (
    record { pixels = mmap shm size; size = size; shm_fd = shm.shm_fd; buffer = true },
    give_back m
        ++ opened_fd shm.shm_fd
        ++ mapped_action (mmap shm size) size
        ++ (Action.pool_created size ∷ Action.buffer_created pw ph stride ∷ []),
  )

abbrev present_on :
    (pw ph scale : ℕ) → (List ℕ → Option (List ℕ)) → Memory → Pixels → Option (Memory × List Action)
present_on pw ph scale paint_px m (Pixels.memory px) = do
  out ← paint_px px
  some (
    record m { pixels = Pixels.memory out },
    Action.attached ∷ Action.damaged pw ph ∷ Action.buffer_scale scale ∷ Action.committed out ∷ [],
  )
present_on pw ph scale paint_px m px = none

-- What is drawn into the memory, and what the compositor is told.
unfoldable pub present :
    (pw ph scale : ℕ) → (List ℕ → Option (List ℕ)) → Memory → Option (Memory × List Action)
present pw ph scale paint_px m = present_on pw ph scale paint_px m m.pixels

-- `struct luna_launcher`
pub record Launcher : Type 0 where
  pub grid : Grid
  pub memory : Memory
  pub configured : Bool
  pub visible : Bool

-- `launcher_render`: nothing before there is a pointer to pixels.
unfoldable pub launcher_render : List App → Launcher → Option (Launcher × List Action)
launcher_render apps l =
    if l.configured
    then if is_null l.memory.pixels then some (l, []) else (do
      (shown, acts) ←
          present (l.grid.width * l.grid.scale) (l.grid.height * l.grid.scale) l.grid.scale
            (draw_launcher l.grid apps) l.memory
      some (record l { memory = shown }, acts))
    else some (l, [])

-- `ll_configure`
unfoldable pub ll_configure :
    (display_scale icon_size : ℕ)
    → List App
    → Shm
    → (w h : ℕ) → Launcher
    → Option (Launcher × List Action)
ll_configure display_scale icon_size apps shm w h l = do
  grid ← layout display_scale icon_size l.grid.hover_idx w h
  pw ← mul_int w grid.scale
  ph ← mul_int h grid.scale
  (made, acts) ← remake shm pw ph l.memory
  let next : Launcher = record l { grid = grid; memory = made; configured = true }
  (shown, drawn) ← (if l.visible then launcher_render apps next else some (next, []))
  some (shown, (Action.acknowledged ∷ acts) ++ drawn)

-- `luna_launcher_create`
unfoldable pub launcher_create : Launcher × List Action
launcher_create = (
  record {
    grid = record {
      width = 0;
      height = 0;
      scale = 0;
      cols = 0;
      cell_w = 0;
      cell_h = 0;
      icon_size = 0;
      hover_idx = none;
    };
    memory = no_memory;
    configured = false;
    visible = false;
  },
  Action.layer_surface Layer.overlay
      ∷ Action.anchored
      ∷ Action.exclusive_zone none
      ∷ Action.interactive true
      ∷ [],
)

-- What `luna_launcher_destroy` and `luna_wallpaper_destroy` give back.
unfoldable pub memory_destroy : Memory → List Action
memory_destroy m =
    unmap m.pixels m.size
    ++ (if m.buffer then Action.buffer_destroyed ∷ Action.pool_destroyed ∷ [] else [])
    ++ close_fd m.shm_fd
    ++ (Action.surface_destroyed ∷ [])

-- `wp_configure`
unfoldable pub wp_configure :
    (ℕ → ℕ → ℕ) → (output_scale : ℕ) → Shm → (w h : ℕ) → Memory → Option (Memory × List Action)
wp_configure shade output_scale shm w h m = do
  pw ← mul_int w (scale_of output_scale)
  ph ← mul_int h (scale_of output_scale)
  (made, acts) ← remake shm pw ph m
  (shown, drawn) ← present pw ph (scale_of output_scale) (gradient shade pw ph ph 0) made
  some (shown, (Action.acknowledged ∷ acts) ++ drawn)

-- `luna_wallpaper_create`
unfoldable pub wallpaper_create : Memory × List Action
wallpaper_create = (
  no_memory,
  Action.layer_surface Layer.background
      ∷ Action.anchored
      ∷ Action.exclusive_zone none
      ∷ Action.interactive false
      ∷ Action.initial_commit
      ∷ [],
)

-- `luna_launcher_destroy`
abbrev pub launcher_destroy : Launcher → List Action
launcher_destroy l = memory_destroy l.memory

-- `luna_wallpaper_destroy`
abbrev pub wallpaper_destroy : Memory → List Action
wallpaper_destroy m = memory_destroy m
