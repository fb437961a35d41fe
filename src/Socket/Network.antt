-- ===== src/Socket/Network.antt =====
-- The network between the sockets of a client and a server.
use p_rpc.Base.{List, ℕ, ◌≡◌, ◌++◌}
use p_rpc.Socket.{Asio}

module _ ⦃net : Asio⦄ where
  open net use {Socket, pending, sent, room}

  -- The network between two sockets: what is sent at one end comes in at the other, after what is
  -- still to be read there.
  pub record Network : Type 0 where
    pub deliver : List ℕ → Socket → Socket
    pub comes_in : (bs : List ℕ) (s : Socket) → pending (deliver bs s) ≡ pending s ++ bs
    pub sends_nothing : (bs : List ℕ) (s : Socket) → sent (deliver bs s) ≡ sent s
    pub stands_as_long : (bs : List ℕ) (s : Socket) → room (deliver bs s) ≡ room s
