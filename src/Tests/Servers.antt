-- ===== src/Tests/Servers.antt =====
-- Small servers and clients. The length of a name stands for its hash; data, arguments and results are numbers.
use module_oriented_software.Common.{ℕ, ◌≡◌, ◌+◌, ◌*◌, some, [], ◌∷◌, List}
use module_oriented_software.Sequence.{Base}
use module_oriented_software.Hook
use module_oriented_software.Hook.{Hook}
use module_oriented_software.Port.{PortBase}
use module_oriented_software.Port.Queue
use module_oriented_software.Port.Queue.{Call, put, get, Reply}
use module_oriented_software.Port.Server.{Server, Request, Response}
use module_oriented_software.Port.Client.{Client}
use module_oriented_software.Port.Client.Buffers
use module_oriented_software.Port.Client.Buffers.{queued, run_client_refines}

abbrev adder : Base ℕ ℕ ℕ
adder x w = (x + 1, w * 10 + 9)

abbrev doubler : Base ℕ ℕ ℕ
doubler x w = (x + x, w * 10 + 8)

-- A port whose handler writes the code behind the state.
abbrev port : PortBase ℕ
port = record {
  name = "port";
  info = record { id = 4; name_hash = 4; port_type_hash = 0; component_id = 0; composition_id = 0 };
  env = some 1;
  get_id = 50;
  connected = [];
  proxies = [];
  error_handler = λ id code at w. w * 100 + code;
}

-- A hook of one function, which writes a digit behind the state.
abbrev hook : ℕ → Hook ℕ ℕ
hook d = record {
  registry = record {
    id = 7;
    error_handler = λ id code at w. w;
    entries = (0, (2, λ x w. w * 10 + d)) ∷ [];
    current_number = 1;
  };
  call_count = 0;
  hash = 0;
}

abbrev answer : ℕ → Response ℕ
answer n = record { client_id = 50; payload = n }

abbrev asked : ℕ → Request ℕ
asked n = record { server_id = 4; request_id = 5; payload = n }

abbrev server : List (Response ℕ) → List (Request ℕ) → Server ℕ ℕ ℕ
server responses requests = record {
  port = port;
  transaction_count = 0;
  response_queue_size = 8;
  request_queue_size = 8;
  before_call_hook = hook 1;
  after_call_hook = hook 2;
  response_buffer = responses;
  request_buffer = requests;
  calls = (3, adder) ∷ [];
}

abbrev client : ℕ → Client ℕ ℕ ℕ
client size = record {
  port = port;
  transaction_count = 0;
  response_queue_size = 2;
  request_queue_size = size;
  before_call_hook = hook 1;
  after_call_hook = hook 2;
  response_queue = answer 9 ∷ [];
  request_queue = asked 9 ∷ [];
}

abbrev reads : List (Call (Response ℕ))
reads = put (answer 1) ∷ put (answer 2) ∷ get ∷ get ∷ get ∷ []

run_client_refines_example : Buffers.run reads (client 8) 0 ≡ Queue.run 2 reads (answer 9 ∷ [])
run_client_refines_example = run_client_refines reads (client 8) 0
