-- ===== src/Ring/Tests.antt =====
-- The free space of a ring of two blocks of four cells whose writer has gone round.
use randserver.Base.{◌≡◌, some, arith}
use randserver.Ring.{get_space}
use randserver.Ring.Position.{get_space_lem}

get_space_lem_example : get_space 2 4 (0, 2) (0, 1) ≡ some 1
get_space_lem_example =
    get_space_lem 2 4 (omega arith) (omega arith) (omega arith) (omega arith) 10 17 (omega arith)
      (omega arith) (omega arith)
