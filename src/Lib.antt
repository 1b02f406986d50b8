-- ===== src/Lib.antt =====
-- LunaOS for arm64: the display stack, the seat daemon, the input bridge, the event loop, the
-- compositor, the shell, and what the applications read.
--
-- The kernel extension IODRMShim serves /dev/dri/card0. Clients reach it by ioctls, directly (the
-- buffer manager darwin-gbm) or through libdrm-darwin; the compositor gets the device's descriptor
-- from the seat daemon, its input from the evdev bridge and its wake-ups from the event loop. Parts:
--
--   Pitch       the 32-bit row pitch of drm-shim/kern/IODRMShim.cpp, drm-shim/user/libdrm-darwin.c
--               and graphics/include/darwin-gbm.c
--   Drm         the structures and commands of drm-shim/include/drm_darwin.h; Drm.Layout lays the
--               structures out in memory as the kernel extension and as its clients declare them
--   Shim        drm-shim/kern/IODRMShim.cpp. The state is the record `Shim`: the table `bos` of 256
--               slots, the display and the shown buffer. Shim.Buffers has the buffer ioctls
--               (ioctl_create_dumb, ioctl_map_dumb, ioctl_gem_close, ...), Shim.Display the blit, the
--               mode set, the probe, start and stop, Shim.Query the queries, Shim.Dispatch drm_ioctl,
--               Shim.Switch its switch over the command numbers
--   Device      what a client knows of the device: the operations (record `Device`) and the contract
--               of the dumb-buffer ioctls (record `Lawful`), which Shim.Device fills for the shim
--   Libdrm      drm-shim/user/libdrm-darwin.c on any device (drmModeCreateDumbBuffer is
--               create_dumb_buffer, drmModeGetResources is get_resources, and so on); Libdrm.Memory has
--               the blocks that the results take and the drmModeFree functions give back
--   Gbm         graphics/include/darwin-gbm.c on any device: buffer objects, in Gbm.Surface the
--               surfaces with two buffers, in Gbm.Plane the device and what the accessors tell
--   Seatd       seatd-darwin/seatd-darwin.c: the table g_clients, accept_client, the message handler,
--               the socket and the options; Seatd.Race has the halves of a handler in any order,
--               Seatd.Daemon the life of the daemon with its signals
--   Evdev       evdev-bridge/darwin-evdev-bridge.c: the key map, hid_value_callback, device_added,
--               and in Evdev.Service what the run loop delivers, in any order
--   EventLoop   libwayland-darwin/wayland-darwin-event-loop.c: its array of sources and its calls
--   Apps        apps/text-editor/luna-editor.c (Apps.Editor, and its main in Apps.Editor.Program) and
--               apps/files/luna-files.c (Apps.Files): what they read into memory
--   Shell       shell/src/luna-shell-main.c and shell/src/luna-panel.c: Shell.Pixels has the painting
--               of rectangles, Shell.Buffers the panel and the wallpaper of an output, Shell.Main the
--               globals, the keyboard and the redraw, Shell.Panel the panel with its zones
--               (luna_panel_render is panel_render), Shell.Program main with all that the
--               compositor tells it; Shell.Held follows what is held of the system,
--               Shell.Protocol the order that the layer-shell protocol asks for
--   Launcher    shell/src/luna-launcher-wallpaper.c: the applications read from .desktop files,
--               showing and hiding, Launcher.Draw the grid and the drawing, Launcher.Memory the
--               shared memory of launcher and wallpaper (ll_configure, wp_configure)
--   Compositor  compositor/src/main.c: the list of views and the keyboard shortcuts,
--               Compositor.Scene the pointer (view_at, handle_cursor_motion, handle_cursor_button),
--               Compositor.Reach the events as steps, Compositor.Inputs the input devices and the
--               seat (server_new_input), Compositor.Outputs the outputs (server_new_output),
--               Compositor.Main the start, the loop and the end (main)
--
-- The shell takes its keys as the evdev bridge writes them (Shell.Keys), and launcher and panel
-- paint with the same rectangles (Shell.Pixels).
--
-- Bounds: a word of 32 or 64 bits is a number with its wrap-around written out. The kernel's table
-- has 256 slots, the daemon's 16, the bridge's 32, the event loop's 256, as in the code. The number in
-- a device path is printed with room for ten digits, which a slot below 32 never fills. The search
-- for a view in the scene graph has fuel, and the depth of the node is enough; each other loop is a
-- recursion on its list or its counter. In shared memory a store outside the mapping, and an `int`
-- that overflows in the size of a buffer, is `none`.
--
-- Parameters: the physical allocator (`contiguous`), the display services, the results of open,
-- accept, pipe, kevent, shm_open, ftruncate and mmap, the values that IOHID delivers, the scene graph,
-- the seat and the answers of wlroots, where the kernel maps what the shim lets it map, the encoding of
-- the command numbers, the colours of the gradients. The scale of an output is a positive finite float. Allocation in user space
-- succeeds, but for an output and for the device of darwin-gbm.
--
-- Not modelled: widths and heights of the launcher from 2^31 on, keyboards that are removed, the
-- floating-point colours of the gradients, the text of the clock, the device nodes,
-- logging and time stamps. The seat daemon's queue is concurrent: its handlers are taken one at a
-- time, in any order, but in Seatd.Race.
pub mod Prelude
pub mod Pitch
pub mod Errno
pub mod Drm
pub mod Device
pub mod Shim
pub mod Libdrm
pub mod Gbm
pub mod Seatd
pub mod Evdev
pub mod EventLoop
pub mod Apps
pub mod Launcher
pub mod Compositor
pub mod Shell
