-- ===== src/MethodWritable/Tests.antt =====
-- A method call with a nested value, over the simulated socket.
use p_rpc.Base.{◌≡◌, ◌≢◌, ◌≤◌, ◌<◌, refl, [], ◌∷◌, ◌++◌, arith, codes, length, le_bytes}
use p_rpc.Socket.{ok, crash, out_of_fuel}
use p_rpc.Socket.Simulated.{simulated, Stream}
use p_rpc.Writable.{Writable, method_writable, nil, get_class, size}
use p_rpc.Writable.Strings.{string_wire}
use p_rpc.IntWritable.Narrow.{int_wire}
use p_rpc.Method.{get_new_instance}
use p_rpc.Method.Dispatch.{four_ints}
use p_rpc.MethodWritable.{write_fields, read_fields}
use p_rpc.MethodWritable.Wire.{
  wire, wire_params, received, result_of, depth, depth_params, IsSendable, method, also, int, end,
}
use p_rpc.MethodWritable.RoundTrip.{read_fields-write_fields}
use p_rpc.MethodWritable.Fuel.{read_fields_ends}

abbrev create_call : Writable
create_call = method_writable (codes "NameNode") (codes "create") (four_ints 1 2 3 300 nil)

create_call-IsSendable : IsSendable create_call
unfolding size
create_call-IsSendable =
    method (record { chars = omega arith; not_empty = omega arith; short = omega arith })
      (record { chars = omega arith; not_empty = omega arith; short = omega arith }) (omega arith)
      (also (int 1) (also (int 2) (also (int 3) (also (int 300) end))))

abbrev sender : Stream
sender = record { pending = []; sent = []; room = 1000 }

abbrev receiver : Stream
receiver = record { pending = wire create_call ++ 9 ∷ []; sent = []; room = 0 }

wire_fits : length (wire create_call) ≤ 1000
unfolding wire wire_params size int_wire string_wire le_bytes get_class
wire_fits = omega arith

depth-create_call : depth create_call < 2
unfolding depth depth_params
depth-create_call = omega arith

read_fields-write_fields_example :
    ((s' : Stream) × (write_fields create_call sender ≡ (ok (result_of create_call), s'))
      × (s'.sent ≡ [] ++ wire create_call))
    × ((t' : Stream) × (read_fields 2 (get_new_instance (get_class create_call)) receiver
          ≡ (ok (received create_call, result_of create_call), t'))
        × (t'.pending ≡ 9 ∷ [])
        × (t'.sent ≡ []))
read_fields-write_fields_example =
    read_fields-write_fields create_call 2 sender receiver (9 ∷ []) create_call-IsSendable
      depth-create_call wire_fits refl

abbrev garbage : Stream
garbage = record { pending = 1 ∷ 0 ∷ 0 ∷ 0 ∷ 65 ∷ 7 ∷ []; sent = []; room = 0 }

read_fields_ends_example :
    ((read_fields 7 create_call garbage).0 ≢ crash out_of_fuel)
    × (length (read_fields 7 create_call garbage).1.pending ≤ 6)
read_fields_ends_example = read_fields_ends 7 create_call garbage (omega arith)
