-- ===== src/IntWritable/Tests.antt =====
-- A number that does not fit a byte, over the simulated socket.
use p_rpc.Base.{[], ◌≡◌, refl, some, arith}
use p_rpc.IntWritable.Narrow.{narrow}
use p_rpc.IntWritable.RoundTrip.{Transfers, read_value-write_value}
use p_rpc.Socket.Simulated.{simulated, Stream}

-- 300 arrives as 44.
narrow-300 : narrow 300 ≡ 44
unfolding narrow
narrow-300 = refl

abbrev line : Stream
line = record { pending = []; sent = []; room = 50 }

read_value-write_value_example : Transfers (some 9) 300 line
read_value-write_value_example =
    read_value-write_value (some 9) 300 line (omega arith) (omega arith)
