-- ===== src/Pstree/Tests.antt =====
-- pstree.c at concrete processes.
use linux_programming.Base.{◌≡◌, [], ◌∷◌, arith}
use linux_programming.Base.Int.{pos}
use linux_programming.Base.Bytes.{codes}
use linux_programming.Pstree.{Process, insert_all, find_node_in_ll}
use linux_programming.Pstree.Linked.{empty, position, find_node_in_ll-position}

abbrev init : Process
init = record { name = codes "init"; pid = pos 1; ppid = pos 0 }

abbrev shell : Process
shell = record { name = codes "sh"; pid = pos 8; ppid = pos 1 }

find_node_in_ll-position_example :
    find_node_in_ll 4 (insert_all (init ∷ shell ∷ []) empty) (pos 8)
    ≡ position (pos 8) (init ∷ shell ∷ []) 0
find_node_in_ll-position_example = find_node_in_ll-position 4 init shell [] (pos 8) (omega arith)
