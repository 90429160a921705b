-- ===== src/Error/Laws.antt =====
-- The comparison of errors (src/error.rs).
use text.Mathlib.TextEquality.{eq_iff}
use lsm_storage_engine.Common.{true, ◌≡◌, refl, arith}
use lsm_storage_engine.Error.{Error, IoKind, io, empty_key, compaction, kind_eq, eq}

kind_eq_refl : (a : IoKind) → kind_eq a a ≡ true
unfolding kind_eq
kind_eq_refl a = ground arith

-- Every error equals itself.
eq_refl : (a : Error) → eq a a ≡ true
unfolding eq
eq_refl (io a) = kind_eq_refl a.kind
eq_refl (compaction a) = (eq_iff a a).1 refl
eq_refl empty_key = refl
eq_refl _ = refl
