-- ===== src/Helper.antt =====
-- src/helper.c
pub mod Hash
pub mod Prime
pub mod Number
