-- ===== src/Mapping/Duplicate.antt =====
-- clonePageDirectory as a whole: a directory with a stack of its own.
use myreallyoldkernel.Memory.{Memory}
