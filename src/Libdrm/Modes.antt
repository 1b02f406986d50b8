-- ===== src/Libdrm/Modes.antt =====
-- The mode-setting wrappers of libdrm-darwin.c. Memory for the results is always granted.
use luna_os_arm.Prelude.{ℕ, Option, none, some, List, [], ◌==◌, ltb, if◌then◌else◌, replicate}
use luna_os_arm.Drm.{CardRes, Connector, Crtc, ModeInfo}
use luna_os_arm.Device.{Device}

-- `drmModeRes`; `fbs` and `count_fbs` stay zero. An array that is not allocated is `none`.
pub record ModeRes : Type 0 where
  pub count_crtcs : ℕ
  pub count_connectors : ℕ
  pub count_encoders : ℕ
  pub crtcs : Option (List ℕ)
  pub connectors : Option (List ℕ)
  pub encoders : Option (List ℕ)
  pub min_width : ℕ
  pub max_width : ℕ
  pub min_height : ℕ
  pub max_height : ℕ

-- `drmModeConnector`, without the members that are never set.
pub record ModeConnector : Type 0 where
  pub connector_id : ℕ
  pub encoder_id : ℕ
  pub connector_type : ℕ
  pub connection : ℕ
  pub mm_width : ℕ
  pub mm_height : ℕ
  pub count_modes : ℕ
  pub modes : Option (List ModeInfo)

-- `drmModeEncoder`
pub record ModeEncoder : Type 0 where
  pub encoder_id : ℕ
  pub encoder_type : ℕ
  pub crtc_id : ℕ
  pub possible_crtcs : ℕ

-- `drmModeCrtc`, without the members that are never set.
pub record ModeCrtc : Type 0 where
  pub crtc_id : ℕ
  pub buffer_id : ℕ
  pub mode_valid : ℕ
  pub mode : ModeInfo

abbrev pub zero_resources : CardRes
zero_resources = record {
  crtc_ids = none;
  connector_ids = none;
  encoder_ids = none;
  count_fbs = 0;
  count_crtcs = 0;
  count_connectors = 0;
  count_encoders = 0;
  min_width = 0;
  max_width = 0;
  min_height = 0;
  max_height = 0;
}

-- `calloc(count, sizeof(T))` for a count above 0.
abbrev pub calloc {ℓ} : {A : Type ℓ} → ℕ → A → Option (List A) → Option (List A)
calloc count zeroed otherwise = if ltb 0 count then some (replicate count zeroed) else otherwise

abbrev pub blank_mode : ModeInfo
blank_mode = record {
  clock = 0;
  hdisplay = 0;
  hsync_start = 0;
  hsync_end = 0;
  htotal = 0;
  hskew = 0;
  vdisplay = 0;
  vsync_start = 0;
  vsync_end = 0;
  vtotal = 0;
  vscan = 0;
  vrefresh = 0;
  flags = 0;
  mode_type = 0;
  name = [];
}

abbrev pub connector_request : ℕ → Connector
connector_request id = record {
  modes = none;
  count_modes = 0;
  count_props = 0;
  count_encoders = 0;
  encoder_id = 0;
  connector_id = id;
  connector_type = 0;
  connector_type_id = 0;
  connection = 0;
  mm_width = 0;
  mm_height = 0;
  subpixel = 0;
}

abbrev pub crtc_request : ℕ → Crtc
crtc_request id = record {
  set_connectors = none;
  count_connectors = 0;
  crtc_id = id;
  fb_id = 0;
  x = 0;
  y = 0;
  gamma_size = 0;
  mode_valid = 0;
  mode = blank_mode;
}

module _ (d : Device) where
  open d use {State}

  -- `drmModeGetResources`: the first call gives the counts, the second fills the arrays, and its
  -- result is not looked at.
  unfoldable pub get_resources : State → Option ModeRes × State
  get_resources s =
      let (e, res, s') = d.get_resources zero_resources s in
      let arrays = record res {
        crtc_ids = calloc res.count_crtcs 0 res.crtc_ids;
        connector_ids = calloc res.count_connectors 0 res.connector_ids;
        encoder_ids = calloc res.count_encoders 0 res.encoder_ids;
      } in
      let (_, filled, s'') = d.get_resources arrays s' in
      if e == 0
      then (
        some (record {
          count_crtcs = res.count_crtcs;
          count_connectors = res.count_connectors;
          count_encoders = res.count_encoders;
          crtcs = filled.crtc_ids;
          connectors = filled.connector_ids;
          encoders = filled.encoder_ids;
          min_width = res.min_width;
          max_width = res.max_width;
          min_height = res.min_height;
          max_height = res.max_height;
        }),
        s'',
      )
      else (none, s')

  -- `drmModeGetConnector`
  unfoldable pub get_connector : ℕ → State → Option ModeConnector × State
  get_connector id s =
      let (e, req, s') = d.get_connector (connector_request id) s in
      let with_modes = record req { modes = calloc req.count_modes blank_mode req.modes } in
      let (_, again, s'') = d.get_connector with_modes s' in
      let some_modes = ltb 0 req.count_modes in
      let last = (if some_modes then again else req) in
      if e == 0
      then (
        some (record {
          connector_id = id;
          encoder_id = last.encoder_id;
          connector_type = req.connector_type;
          connection = req.connection;
          mm_width = req.mm_width;
          mm_height = req.mm_height;
          count_modes = req.count_modes;
          modes = last.modes;
        }),
        (if some_modes then s'' else s'),
      )
      else (none, s')

  -- `drmModeGetEncoder`
  unfoldable pub get_encoder : ℕ → State → Option ModeEncoder × State
  get_encoder id s =
      let (e, req, s') =
        d.get_encoder
          (record {
            encoder_id = id;
            encoder_type = 0;
            crtc_id = 0;
            possible_crtcs = 0;
            possible_clones = 0;
          })
          s in
      let enc : ModeEncoder = record {
        encoder_id = id;
        encoder_type = req.encoder_type;
        crtc_id = req.crtc_id;
        possible_crtcs = req.possible_crtcs;
      } in
      (if e == 0 then some enc else none, s')
