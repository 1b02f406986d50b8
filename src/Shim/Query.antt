-- ===== src/Shim/Query.antt =====
-- The handlers of IODRMShim.cpp that report the driver, the display and its mode.
use luna_os_arm.Prelude.{
  ℕ, ◌/◌, Option, none, some, List, [], ◌∷◌, ◌++◌, ◌==◌, leb, set, length, if◌then◌else◌, u16,
  mul32,
}
use luna_os_arm.Prelude.Text.{codes, overwrite, decimal}
use luna_os_arm.Drm.{Version, CardRes, Connector, Encoder, Crtc, ModeInfo}
use luna_os_arm.Shim.{Shim}

abbrev pub driver_name : List ℕ
driver_name = codes "iomobilefb-drm" ++ (0 ∷ [])

abbrev pub driver_desc : List ℕ
driver_desc = codes "LunaOS IOMobileFramebuffer DRM shim (arm64)" ++ (0 ∷ [])

-- `if (p && len >= sizeof(text)) copyout(text, p, sizeof(text))`
abbrev pub copyout_text : List ℕ → ℕ → Option (List ℕ) → Option (List ℕ)
copyout_text text len none = none
copyout_text text len (some buf) = some (if leb (length text) len then overwrite text buf else buf)

-- `ioctl_version`
unfoldable pub ioctl_version : Version → Version
ioctl_version v = record {
  version_major = 1;
  version_minor = 0;
  version_patchlevel = 0;
  name_len = length driver_name;
  name = copyout_text driver_name v.name_len v.name;
  desc_len = length driver_desc;
  desc = copyout_text driver_desc v.desc_len v.desc;
}

-- `if (ptr && count >= 1) copyout(&id, ptr, sizeof(uint32_t))`, with the id 1.
abbrev pub copyout_id : ℕ → Option (List ℕ) → Option (List ℕ)
copyout_id count none = none
copyout_id count (some ids) = some (if leb 1 count then set ids 0 1 else ids)

-- `ioctl_getresources`
unfoldable pub ioctl_getresources : CardRes → Shim → CardRes
ioctl_getresources res s = record {
  crtc_ids = copyout_id res.count_crtcs res.crtc_ids;
  connector_ids = copyout_id res.count_connectors res.connector_ids;
  encoder_ids = copyout_id res.count_encoders res.encoder_ids;
  count_fbs = 0;
  count_crtcs = 1;
  count_connectors = 1;
  count_encoders = 1;
  min_width = 1;
  max_width = s.display_width;
  min_height = 1;
  max_height = s.display_height;
}

abbrev pub zero_mode : ModeInfo
zero_mode = record {
  clock = 0;
  hdisplay = 0;
  hsync_start = 0;
  hsync_end = 0;
  htotal = 0;
  hskew = 0;
  vdisplay = 0;
  vsync_start = 0;
  vsync_end = 0;
  vtotal = 0;
  vscan = 0;
  vrefresh = 0;
  flags = 0;
  mode_type = 0;
  name = [];
}

-- The name `"%ux%u"`: 21 bytes at most, so `mode.name` is not cut.
abbrev pub mode_name : ℕ → ℕ → List ℕ
mode_name w h = decimal 10 w ++ (b'x' ∷ decimal 10 h)

-- The native mode of `ioctl_getconnector`.
unfoldable pub native_mode : Shim → ModeInfo
native_mode s = record zero_mode {
  clock = mul32 (mul32 s.display_width s.display_height) 60 / 1000;
  hdisplay = u16 s.display_width;
  vdisplay = u16 s.display_height;
  vrefresh = 60;
  mode_type = 9;
  name = mode_name s.display_width s.display_height;
}

-- `copyout(&mode, conn->modes_ptr, sizeof(mode))`
abbrev pub copyout_mode : ModeInfo → Option (List ModeInfo) → Option (List ModeInfo)
copyout_mode m none = none
copyout_mode m (some ms) = some (set ms 0 m)

-- `ioctl_getconnector`
unfoldable pub ioctl_getconnector : Connector → Shim → Connector
unfolding native_mode
ioctl_getconnector conn s = record conn {
  modes = if conn.count_modes == 0 then conn.modes else copyout_mode (native_mode s) conn.modes;
  count_modes = 1;
  encoder_id = 1;
  connector_type = 14;
  connector_type_id = 1;
  connection = 1;
  mm_width = mul32 s.display_width 25400 / 220;
  mm_height = mul32 s.display_height 25400 / 220;
  subpixel = 1;
}

-- `ioctl_getencoder`
unfoldable pub ioctl_getencoder : Encoder → Encoder
ioctl_getencoder enc = record enc { encoder_type = 2; crtc_id = 1; possible_crtcs = 1 }

-- `ioctl_getcrtc`
unfoldable pub ioctl_getcrtc : Crtc → Shim → Crtc
ioctl_getcrtc crtc s =
    let mode = crtc.mode in
    record crtc {
      fb_id = s.current_fb_id;
      mode_valid = 1;
      mode = record mode {
        hdisplay = u16 s.display_width;
        vdisplay = u16 s.display_height;
        vrefresh = 60;
      };
    }
