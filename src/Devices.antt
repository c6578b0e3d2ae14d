-- ===== src/Devices.antt =====
-- kernel/devices: keyboards and terminals.
pub mod InputManager
pub mod Keymaps
pub mod Ps2Keyboard
pub mod TextMode
pub mod Tty
mod Tests
