-- ===== src/Server/State.antt =====
-- The objects that the threads of the server share. `_connections` leads from endpoints to
-- connection objects, which live on after they are erased there while a call refers to them: they
-- stand in a heap of their own, and a call holds the address of its connection.
use p_rpc.Base.{ℕ, List, ◌==◌, if◌then◌else◌, []}
use p_rpc.BlockQueue.{BlockQueue, new_queue}
use p_rpc.Socket.{Result, Eff, Asio}
use p_rpc.Server.Call.{Call}
use p_rpc.Server.Connection.{Connection}

abbrev pub update {ℓ} : {A : Type ℓ} → (ℕ → A) → ℕ → A → ℕ → A
update f i a j = if i == j then a else f j

abbrev pub max_num_calls : ℕ
max_num_calls = 100

abbrev pub max_repsond_size : ℕ
max_repsond_size = 100

module _ ⦃net : Asio⦄ where
  pub record State : Type 0 where
    pub connections : List (ℕ × ℕ)
    pub objects : ℕ → Connection
    pub num_connections : ℕ
    pub last_connection_index : ℕ
    pub bq_call : BlockQueue Call
    pub bq_respond : BlockQueue ℕ

  -- What the server starts with; `objects` is the memory before any connection was made.
  unfoldable pub new_state : (ℕ → Connection) → State
  new_state memory = record {
    connections = [];
    objects = memory;
    num_connections = 0;
    last_connection_index = 0;
    bq_call = new_queue max_num_calls;
    bq_respond = new_queue max_repsond_size;
  }

  abbrev pub in_state : {A : Type 0} → State → ℕ → Result A × Connection → Result A × State
  in_state st c (r, conn) = (r, record st { objects = update st.objects c conn })

  -- A computation on the connection at the address `c`.
  abbrev pub on_connection : {A : Type 0} → ℕ → Eff Connection A → Eff State A
  on_connection c m st = in_state st c (m (st.objects c))
