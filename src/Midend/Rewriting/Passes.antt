-- ===== src/Midend/Rewriting/Passes.antt =====
-- Language/Midend/src: all passes of the optimizer follow the rules.
use tatlang.Double.{Double}
use tatlang.Tree.{Tree}
use tatlang.Midend.Settled.{Settled}
