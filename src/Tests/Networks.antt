-- ===== src/Tests/Networks.antt =====
-- Two small environments and sockets. The sum of the bytes of a text stands for its hash.
use module_oriented_software.Common.{ℕ, ◌≡◌, refl, ◌+◌, ◌%◌, ◌^◌, true, some, none, List, [], ◌∷◌}
use module_oriented_software.Common.OrderedMap.{lookup}
use module_oriented_software.Environment.{EnvCfgHeader}
use module_oriented_software.NetworkManager.{
  Bytes, text, same_bytes, Manager, address_hash, is_peer_connected, on_receive, probe,
  network_manager,
}
use module_oriented_software.NetworkManager.Steps.{receives, probes, here, next, IsConsistent}
use module_oriented_software.NetworkManager.Consistency.{network_manager-IsConsistent}
use module_oriented_software.NetworkManager.Answers.{sender, probe-on_receive}

sum : List ℕ → ℕ
sum [] = 0
sum (b ∷ bs) = b + sum bs

abbrev header : ℕ → EnvCfgHeader
header n = record {
  env_name = "env";
  env_ipv4_tcp_port = 4001;
  env_ipv6_tcp_port = 4003;
  env_pid = n;
  env_host_name = "host";
  env_invite = none;
  domain_tcp_socket_path = "";
}

abbrev here_addr : Bytes
here_addr = 49 ∷ 48 ∷ 0 ∷ []

abbrev there_addr : Bytes
there_addr = 50 ∷ 48 ∷ 0 ∷ []

abbrev here_manager : Manager
here_manager = network_manager sum here_addr 4001 (header 1)

abbrev there_manager : Manager
there_manager = network_manager sum there_addr 4001 (header 2)

-- One manager hears of another, invites it, and its client socket for it is disconnected.
abbrev heard : Manager
heard = (on_receive sum there_addr (header 2) 0 true here_manager).0

abbrev invited : Manager
invited = probe sum [] heard

network_manager-IsConsistent_example : IsConsistent invited
network_manager-IsConsistent_example =
    network_manager-IsConsistent sum here_addr 4001 (header 1) invited refl
      (next (next here (receives there_addr (header 2) 0 true here_manager)) (probes [] heard))

probe-on_receive_example :
    let sent = (probe sum [] heard).header in
    let h = sender sum here_addr heard.header in
    ((probe sum [] heard).sent ≡ sent ∷ heard.sent)
    × (sent.env_invite ≡ some there_manager.host_hash)
    × (lookup h (on_receive sum here_addr sent 0 true there_manager).0.peers
        ≡ some (record { header = sent; address = text here_addr; unit = there_manager.units }))
unfolding network_manager address_hash sum on_receive is_peer_connected lookup text same_bytes
probe-on_receive_example =
    probe-on_receive sum [] heard there_manager (4001 % 2 ^ 16) [] here_addr 0 true
      (sender sum here_addr heard.header) refl refl tt
