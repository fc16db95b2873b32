-- ===== src/EnvUtils.antt =====
-- utils/env/inc/env_utils.hpp and utils/hash/sha256/sha256.hpp: the error codes, the status that
-- every operation returns, the result type of code that may throw, and the hash values.
use module_oriented_software.Common.{ℕ, Option, []}
use module_oriented_software.Common.OrderedMap.{OrderedMap, insert, lookup}
use module_oriented_software.Sha256.{Hash}

-- `error_case_e`: when an error handler is called.
pub data ErrorCase : Type 0 where
  construct destruct runtime : ErrorCase

-- `env_errno_e`, `hook_errno_e` and `seq_errno_e`, with the numbers that `static_cast` gives them.
pub data EnvErrno : Type 0 where
  not_inited clear buffer_empty buffer_overflow port_exists port_missing : EnvErrno
  max_ports_connected not_accessible not_available no_transactions : EnvErrno
  call_exists call_missing : EnvErrno

abbrev pub env_code : EnvErrno → ℕ
env_code not_inited = 0
env_code clear = 1
env_code buffer_empty = 2
env_code buffer_overflow = 3
env_code port_exists = 4
env_code port_missing = 5
env_code max_ports_connected = 6
env_code not_accessible = 7
env_code not_available = 8
env_code no_transactions = 9
env_code call_exists = 10
env_code call_missing = 11

-- `hook_errno_e` and `seq_errno_e` have the same members under the same numbers.
pub data RegistryErrno : Type 0 where
  clear missing exists unknown : RegistryErrno

abbrev pub registry_code : RegistryErrno → ℕ
registry_code clear = 0
registry_code missing = 1
registry_code exists = 2
registry_code unknown = 3

-- `funct_errno_e::FUNCT_CLEAR`
abbrev pub functor_clear : ℕ
functor_clear = 0

-- `env_status_s`: the identifier of the object that made it, and the qualifiers by identifier.
pub record EnvStatus : Type 0 where
  pub id : Hash
  pub qualifiers : OrderedMap ℕ

abbrev pub env_status : Hash → EnvStatus
env_status id = record { id = id; qualifiers = [] }

-- `qualifiers.insert(std::make_pair(id, code))`, and `qualifiers.at(id)`, which throws at `none`.
abbrev pub qualify : EnvStatus → Hash → ℕ → EnvStatus
qualify s id code = record s { qualifiers = insert id code s.qualifiers }

abbrev pub qualifier_at : EnvStatus → Hash → Option ℕ
qualifier_at s id = lookup id s.qualifiers

-- `env_data_s`: a status with a value.
pub record EnvData {ℓ} (A : Type ℓ) : Type ℓ where
  pub status : EnvStatus
  pub value : A

-- What a call comes to that may throw `std::out_of_range`; each way carries what holds after it.
pub data Outcome {ℓ κ} (A : Type ℓ) (B : Type κ) : Type (ℓ ⊔ κ) where
  returned : A → Outcome A B
  out_of_range : B → Outcome A B

-- A handler is told the object, the code and the case, and acts on the state `W` of all else.
abbrev pub ErrorHandler : Type 0 → Type 0
ErrorHandler W = Hash → ℕ → ErrorCase → W → W
