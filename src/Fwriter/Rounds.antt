-- ===== src/Fwriter/Rounds.antt =====
-- The rounds of `__fwriter` of kernel/utils/__fwriter.c with a buffer as the target.
use project_islay.Prelude.{List}
