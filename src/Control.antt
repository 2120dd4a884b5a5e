-- ===== src/Control.antt =====
-- The control formats that carry ACF messages: include/avtp/acf/Tscf.h and Ntscf.h.
pub mod Tscf
pub mod Ntscf
pub mod Valid
pub mod Sequence
