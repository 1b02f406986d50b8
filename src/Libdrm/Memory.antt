-- ===== src/Libdrm/Memory.antt =====
-- The memory of the results of libdrm-darwin.c: which blocks its queries allocate, and what the
-- drmModeFree functions give back. Blocks are numbered; calloc grants each request.
use luna_os_arm.Prelude.{
  ℕ, ◌+◌, ◌≡◌, refl, Bool, true, false, Option, none, some, List, [], ◌∷◌, ltb, ◌==◌, if◌then◌else◌,
  arith,
}

-- The number of the next block, and the blocks that are allocated, the last one first.
pub record Heap : Type 0 where
  pub next : ℕ
  pub live : List ℕ

abbrev pub calloc : Heap → ℕ × Heap
calloc h = (h.next, record { next = h.next + 1; live = h.next ∷ h.live })

-- `if (count > 0) … = calloc(count, …)`; the pointer stays NULL otherwise.
abbrev pub calloc_if : Bool → Heap → Option ℕ × Heap
calloc_if false h = (none, h)
calloc_if true h = (some h.next, record { next = h.next + 1; live = h.next ∷ h.live })

abbrev pub remove : ℕ → List ℕ → List ℕ
remove b [] = []
remove b (x ∷ xs) = let rest = remove b xs in if x == b then xs else x ∷ rest

-- `free`, which does nothing at NULL.
abbrev pub free : Option ℕ → Heap → Heap
free none h = h
free (some b) h = record h { live = remove b h.live }

-- The blocks of a drmModeRes.
pub record Resources : Type 0 where
  pub self : ℕ
  pub crtcs : Option ℕ
  pub connectors : Option ℕ
  pub encoders : Option ℕ

-- The allocations of `drmModeGetResources`, by the counts of the first ioctl; `answered` is whether
-- it succeeds.
unfoldable pub get_resources :
    (answered : Bool) (count_crtcs count_connectors count_encoders : ℕ)
    → Heap
    → Option Resources × Heap
get_resources false count_crtcs count_connectors count_encoders h = (none, h)
get_resources true count_crtcs count_connectors count_encoders h =
    let (r, h1) = calloc h in
    let (crtcs, h2) = calloc_if (ltb 0 count_crtcs) h1 in
    let (connectors, h3) = calloc_if (ltb 0 count_connectors) h2 in
    let (encoders, h4) = calloc_if (ltb 0 count_encoders) h3 in
    (some (record { self = r; crtcs = crtcs; connectors = connectors; encoders = encoders }), h4)

-- `drmModeFreeResources`
unfoldable pub free_resources : Option Resources → Heap → Heap
free_resources none h = h
free_resources (some r) h =
    free (some r.self) (free r.encoders (free r.connectors (free r.crtcs h)))

-- The blocks of a drmModeConnector.
pub record Connector : Type 0 where
  pub self : ℕ
  pub modes : Option ℕ

-- The allocations of `drmModeGetConnector`.
unfoldable pub get_connector : (answered : Bool) (count_modes : ℕ) → Heap → Option Connector × Heap
get_connector false count_modes h = (none, h)
get_connector true count_modes h =
    let (c, h1) = calloc h in
    let (modes, h2) = calloc_if (ltb 0 count_modes) h1 in
    (some (record { self = c; modes = modes }), h2)

-- `drmModeFreeConnector`
unfoldable pub free_connector : Option Connector → Heap → Heap
free_connector none h = h
free_connector (some c) h = free (some c.self) (free c.modes h)

-- The allocation of `drmModeGetEncoder` and of `drmModeGetCrtc`.
unfoldable pub get_one : (answered : Bool) → Heap → Option ℕ × Heap
get_one answered h = calloc_if answered h

-- `drmModeFreeEncoder` and `drmModeFreeCrtc`
abbrev pub free_one : Option ℕ → Heap → Heap
free_one p h = free p h

resources_blocks :
    (a b c : Bool) (h : Heap)
    → let (crtcs, h2) = calloc_if a (calloc h).1 in
      let (connectors, h3) = calloc_if b h2 in
      let (encoders, h4) = calloc_if c h3 in
      (free (some h.next) (free encoders (free connectors (free crtcs h4)))).live ≡ h.live
resources_blocks true true true h = ground arith
resources_blocks true true false h = ground arith
resources_blocks true false true h = ground arith
resources_blocks true false false h = ground arith
resources_blocks false true true h = ground arith
resources_blocks false true false h = ground arith
resources_blocks false false true h = ground arith
resources_blocks false false false h = ground arith

-- Whatever the kernel answers, and also where it refuses: `drmModeFreeResources` of what
-- `drmModeGetResources` gave leaves the allocated blocks as they were before.
pub get-free_resources :
    (answered : Bool) (crtcs connectors encoders : ℕ) (h : Heap)
    → let (r, h') = get_resources answered crtcs connectors encoders h in
      (free_resources r h').live ≡ h.live
unfolding get_resources free_resources
get-free_resources false crtcs connectors encoders h = refl
get-free_resources true crtcs connectors encoders h =
    resources_blocks (ltb 0 crtcs) (ltb 0 connectors) (ltb 0 encoders) h

connector_blocks :
    (a : Bool) (h : Heap)
    → let (modes, h2) = calloc_if a (calloc h).1 in
      (free (some h.next) (free modes h2)).live ≡ h.live
connector_blocks true h = ground arith
connector_blocks false h = ground arith

-- The same of `drmModeFreeConnector` and `drmModeGetConnector`.
pub get-free_connector :
    (answered : Bool) (modes : ℕ) (h : Heap)
    → let (c, h') = get_connector answered modes h in (free_connector c h').live ≡ h.live
unfolding get_connector free_connector
get-free_connector false modes h = refl
get-free_connector true modes h = connector_blocks (ltb 0 modes) h

-- The same of `drmModeFreeEncoder` and `drmModeGetEncoder`, and of the CRTC.
pub get-free_one :
    (answered : Bool) (h : Heap) → let (p, h') = get_one answered h in (free_one p h').live ≡ h.live
unfolding get_one
get-free_one true h = ground arith
get-free_one false h = refl
