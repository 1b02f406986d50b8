-- ===== src/Pitch/Tests.antt =====
-- The pitches of a screen of 1366 pixels, and of a width that overflows.
use luna_os_arm.Prelude.{◌+◌, ◌*◌, ◌^◌, ◌≤◌, ◌<◌, ◌↔◌}
use luna_os_arm.Pitch.{kernel_pitch}
use luna_os_arm.Pitch.Laws.{kernel_pitch_covers_iff}

kernel_pitch_covers_iff_example :
    (134217728 * 32 ≤ 8 * kernel_pitch 134217728 32) ↔ (134217728 * 32 + 7 < 2 ^ 32)
kernel_pitch_covers_iff_example = kernel_pitch_covers_iff 134217728 32
