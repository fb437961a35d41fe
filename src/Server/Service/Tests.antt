-- ===== src/Server/Service/Tests.antt =====
-- A server with one client, which sends one request, over the simulated socket.
use p_rpc.Server.Responder.Framing.{sent_at}
use p_rpc.Server.Service.{read_in}
use p_rpc.Server.Service.Answering.{IsAnswered, requests-IsAnswered}
use p_rpc.Server.Service.Projecting.{project_all}
use p_rpc.Server.Service.Sample.{
  turns, memory, listener, comes_first, arrived-IsKnown, come_world-HoldsNone, turns-AllWhole,
  come_world, sent_world,
}
use p_rpc.Socket.Simulated.{eager}

requests-IsAnswered_example :
    IsAnswered 0 come_world sent_world (read_in turns) (sent_at 0 (project_all turns))
requests-IsAnswered_example =
    requests-IsAnswered memory listener 2 0 comes_first turns arrived-IsKnown come_world-HoldsNone
      turns-AllWhole
