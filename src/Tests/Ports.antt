-- ===== src/Tests/Ports.antt =====
-- Small ports of each kind. The length of a name stands for its hash; data, arguments and results are numbers.
use Prim.Native.String.{len}
use module_oriented_software.Common.{ℕ, ◌≡◌, ◌+◌, ◌*◌, some, [], ◌∷◌, List}
use module_oriented_software.Sequence.{Base}
use module_oriented_software.Functor
use module_oriented_software.Functor.{TypeNames}
use module_oriented_software.Functor.Plain.{unnamed-IsPlain}
use module_oriented_software.Hook.{Hook}
use module_oriented_software.Port.{PortBase, PortInfo}
use module_oriented_software.Port.Queue
use module_oriented_software.Port.Queue.{Call, put, get, Reply}
use module_oriented_software.Port.Receiver
use module_oriented_software.Port.Receiver.{Receiver, receiver_port, is_friend}
use module_oriented_software.Port.Receiver.Refinement
use module_oriented_software.Port.Receiver.Refinement.{run_refines}
use module_oriented_software.Port.Sender.{Sender}

abbrev types : TypeNames
types = record { of_functor = 3 ∷ []; of_sequence = 4 ∷ []; of_hooks = 5 ∷ [] }

abbrev adder : Base ℕ ℕ ℕ
adder x w = (x + 1, w * 10 + 9)

abbrev info : ℕ → PortInfo
info n = record { id = n; name_hash = n; port_type_hash = 0; component_id = 0; composition_id = 0 }

-- A port that is connected to the ports of a list. Its handler writes the code behind the state.
abbrev port : List PortInfo → PortBase ℕ
port connected = record {
  name = "port";
  info = info 4;
  env = some 1;
  get_id = 50;
  connected = connected;
  proxies = [];
  error_handler = λ id code at w. w * 100 + code;
}

-- A hook of one function, which writes the digit that it is given behind the state.
abbrev hook : Hook ℕ ℕ
hook = record {
  registry = record {
    id = 7;
    error_handler = λ id code at w. w;
    entries = (0, (2, λ d w. w * 10 + d)) ∷ [];
    current_number = 1;
  };
  call_count = 0;
  hash = 0;
}

abbrev calls : List (Call ℕ)
calls = get ∷ put 5 ∷ put 6 ∷ put 7 ∷ get ∷ put 8 ∷ get ∷ get ∷ get ∷ []

abbrev receiver : Receiver ℕ ℕ
receiver = record {
  port = port [];
  queue_size = 2;
  hook = hook;
  reader = Functor.unnamed len types 0 Receiver.identity;
  buffer = 9 ∷ [];
}

run_refines_example : Refinement.run calls receiver 0 ≡ Queue.run 2 calls (9 ∷ [])
run_refines_example = run_refines calls receiver 0 (unnamed-IsPlain Receiver.identity len types 0)

-- A sender with four values, connected to some ports.
abbrev sender : List PortInfo → ℕ → Sender ℕ ℕ
sender connected n = record {
  port = port connected;
  queue_size = 8;
  transaction_count = n;
  hook = hook;
  functor = Functor.unnamed len types 0 adder;
  buffer = 1 ∷ 2 ∷ 3 ∷ 4 ∷ [];
}
