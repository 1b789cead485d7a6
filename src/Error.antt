-- ===== src/Error.antt =====
-- ERROR_T of btree_lab/global.h: the codes that the operations return.
pub data Error : Type 0 where
  no_error general nomem nosuchblock wrongsizeblock nofetch notanindex nospace : Error
  conflict nonexistent size implbug badconfig nofile unimpl insane : Error
