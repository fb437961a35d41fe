-- ===== src/Method/Tests.antt =====
-- Calls of known and of unknown methods.
use p_rpc.Base.{◌≡◌, codes, some, int_mod, ◌+◌, ◌%◌}
use p_rpc.Socket.{ok}
use p_rpc.Writable.{nil, int_writable}
use p_rpc.Method.{call}
use p_rpc.Method.Dispatch.{four_ints, call-four_ints}

call-four_ints_example :
    call (codes "NameNode") (codes "create") (four_ints 1 2 3 4 nil)
    ≡ ok (some (int_writable (some ((1 + 2 + 3 + 4) % int_mod))))
call-four_ints_example = call-four_ints 1 2 3 4 nil
