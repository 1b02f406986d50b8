-- ===== src/Libdrm/Crtc.antt =====
-- `drmModeGetCrtc` and `drmModeSetCrtc` of libdrm-darwin.c.
use luna_os_arm.Prelude.{ℕ, Option, none, some, List, ◌==◌, if◌then◌else◌}
use luna_os_arm.Drm.{ModeInfo}
use luna_os_arm.Device.{Device}
use luna_os_arm.Libdrm.{Reply, reply}
use luna_os_arm.Libdrm.Modes.{ModeCrtc, crtc_request, blank_mode}

-- `mode_valid = mode ? 1 : 0`, and the mode copied if there is one.
abbrev pub valid_flag : Option ModeInfo → ℕ
valid_flag none = 0
valid_flag (some m) = 1

abbrev pub mode_or_blank : Option ModeInfo → ModeInfo
mode_or_blank none = blank_mode
mode_or_blank (some m) = m

module _ (d : Device) where
  open d use {State}

  -- `drmModeGetCrtc`
  unfoldable pub get_crtc : ℕ → State → Option ModeCrtc × State
  get_crtc id s =
      let (e, req, s') = d.get_crtc (crtc_request id) s in
      let c : ModeCrtc = record {
        crtc_id = id;
        buffer_id = req.fb_id;
        mode_valid = req.mode_valid;
        mode = req.mode;
      } in
      (if e == 0 then some c else none, s')

  -- `drmModeSetCrtc`
  unfoldable pub set_crtc :
      ℕ → ℕ → ℕ → ℕ → Option (List ℕ) → ℕ → Option ModeInfo → State → Reply (Unit {0}) × State
  set_crtc crtc_id fb_id x y connectors count mode s =
      let (e, _, s') =
        d.set_crtc
          (record {
            set_connectors = connectors;
            count_connectors = count;
            crtc_id = crtc_id;
            fb_id = fb_id;
            x = x;
            y = y;
            gamma_size = 0;
            mode_valid = valid_flag mode;
            mode = mode_or_blank mode;
          })
          s in
      (reply e tt, s')
