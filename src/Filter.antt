-- ===== src/Filter.antt =====
-- The sample filters behind filter.h: the moving average (mave.c) and the moving median (mmedian.c),
-- and the choice between them (filter.c).
pub mod Mave
pub mod Mmedian
pub mod Choice
