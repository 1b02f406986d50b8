-- ===== src/Drm.antt =====
-- The ioctl structures that drm-shim/include/drm_darwin.h declares, and the requests of
-- /dev/dri/card0. A pointer to user memory is an optional list, `none` for a null pointer.
pub mod Layout
use luna_os_arm.Prelude.{ℕ, ℤ, Option, List}

pub record Version : Type 0 where
  pub version_major : ℕ
  pub version_minor : ℕ
  pub version_patchlevel : ℕ
  pub name_len : ℕ
  pub name : Option (List ℕ)
  pub desc_len : ℕ
  pub desc : Option (List ℕ)

pub record CardRes : Type 0 where
  pub crtc_ids : Option (List ℕ)
  pub connector_ids : Option (List ℕ)
  pub encoder_ids : Option (List ℕ)
  pub count_fbs : ℕ
  pub count_crtcs : ℕ
  pub count_connectors : ℕ
  pub count_encoders : ℕ
  pub min_width : ℕ
  pub max_width : ℕ
  pub min_height : ℕ
  pub max_height : ℕ

pub record ModeInfo : Type 0 where
  pub clock : ℕ
  pub hdisplay : ℕ
  pub hsync_start : ℕ
  pub hsync_end : ℕ
  pub htotal : ℕ
  pub hskew : ℕ
  pub vdisplay : ℕ
  pub vsync_start : ℕ
  pub vsync_end : ℕ
  pub vtotal : ℕ
  pub vscan : ℕ
  pub vrefresh : ℕ
  pub flags : ℕ
  pub mode_type : ℕ
  pub name : List ℕ

pub record Crtc : Type 0 where
  pub set_connectors : Option (List ℕ)
  pub count_connectors : ℕ
  pub crtc_id : ℕ
  pub fb_id : ℕ
  pub x : ℕ
  pub y : ℕ
  pub gamma_size : ℕ
  pub mode_valid : ℕ
  pub mode : ModeInfo

pub record FbCmd : Type 0 where
  pub fb_id : ℕ
  pub width : ℕ
  pub height : ℕ
  pub pitch : ℕ
  pub bpp : ℕ
  pub depth : ℕ
  pub handle : ℕ

pub record CreateDumb : Type 0 where
  pub height : ℕ
  pub width : ℕ
  pub bpp : ℕ
  pub flags : ℕ
  pub handle : ℕ
  pub pitch : ℕ
  pub size : ℕ

pub record MapDumb : Type 0 where
  pub handle : ℕ
  pub offset : ℕ

pub record PrimeHandle : Type 0 where
  pub handle : ℕ
  pub flags : ℕ
  pub fd : ℤ

pub record Connector : Type 0 where
  pub modes : Option (List ModeInfo)
  pub count_modes : ℕ
  pub count_props : ℕ
  pub count_encoders : ℕ
  pub encoder_id : ℕ
  pub connector_id : ℕ
  pub connector_type : ℕ
  pub connector_type_id : ℕ
  pub connection : ℕ
  pub mm_width : ℕ
  pub mm_height : ℕ
  pub subpixel : ℕ

pub record Encoder : Type 0 where
  pub encoder_id : ℕ
  pub encoder_type : ℕ
  pub crtc_id : ℕ
  pub possible_crtcs : ℕ
  pub possible_clones : ℕ

-- An ioctl command with its structure, which the handler updates in place. `other` is any command
-- number that the header does not name.
pub data Request : Type 0 where
  version : Version → Request
  get_resources : CardRes → Request
  get_connector : Connector → Request
  get_encoder : Encoder → Request
  get_crtc : Crtc → Request
  set_crtc : Crtc → Request
  add_fb : FbCmd → Request
  rm_fb : ℕ → Request
  create_dumb : CreateDumb → Request
  map_dumb : MapDumb → Request
  destroy_dumb : ℕ → Request
  gem_close : ℕ → Request
  prime_handle_to_fd : PrimeHandle → Request
  prime_fd_to_handle : PrimeHandle → Request
  other : ℕ → Request
