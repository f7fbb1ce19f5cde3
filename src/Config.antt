-- ===== src/Config.antt =====
-- src/app.h, src/app.cpp (`app::load_conf`) and src/inet_addr.h: the apps of the configuration are read
-- and checked.
-- Strings are lists of bytes. What `value` of the JSON library gives for a key, or for its default, is an
-- input: the fields of `AppJson` and `BackendJson`. `none` is the result -1.
pub mod Addr
pub mod Load
pub mod Apps
pub mod Good
pub mod Valid
pub mod Match
pub mod Process
mod Tests
