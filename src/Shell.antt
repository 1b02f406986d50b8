-- ===== src/Shell.antt =====
-- The shell (shell/src): its pixels, its main program (luna-shell-main.c), its panel (luna-panel.c).
pub mod Pixels
pub mod Painted
pub mod Buffers
pub mod Main
pub mod Held
pub mod Released
pub mod Drawn
pub mod Running
pub mod Surfaces
pub mod Keys
pub mod Globals
pub mod Panel
pub mod Windows
pub mod Zones
pub mod Life
pub mod Protocol
pub mod Order
pub mod Program
mod Tests
