-- ===== src/Tests/Credentials.antt =====
-- A secure server and a secure client with small numbers for the objects of OpenSSL.
use module_oriented_software.Common.{ℕ, ◌≡◌, ◌≢◌, refl, ◌⊎◌, true, some, none, [], ◌∷◌, arith}
use module_oriented_software.Common.OrderedMap.{lookup, insert}
use module_oriented_software.TcpServer.{
  SockAddr, listening, connected, disconnected, code, negative, on_connect, ended, accepts,
  accept_ready,
}
use module_oriented_software.TcpClient.{no_error, is_connected}
use module_oriented_software.Tls.{
  ready, error_none, want_read, verified, PeerAnswers, returns, TlsServer, register_client,
  clear_peer_creds,
}
use module_oriented_software.Tls.Store.{IsRegistered, SameMaps, register_client_lem}
use module_oriented_software.Tls.Store.Reached.{SameKeys, here, registers, clears, Reach-SameKeys}
use module_oriented_software.Tls.Subject.{
  Bytes, field_of, parsed, out_of_fuel, no_info, from_string,
}
use module_oriented_software.Tls.Subject.First.{from_string-only}
use module_oriented_software.Tls.Subject.Ends.{from_string-ends}
use module_oriented_software.SecureServer.{SecureServer, secure_incoming_peer, secure_reset}
use module_oriented_software.SecureServer.Credentials.{IsConsistent}
use module_oriented_software.SecureServer.Reached as server_steps
use module_oriented_software.SecureServer.Reached.{Reach-IsConsistent, accepts_peer, begins}
use module_oriented_software.SecureServer.Resets.{secure_incoming_peer-reset}
use module_oriented_software.SecureClient.{SecureClient, ConnectAnswers, secure_connect}
use module_oriented_software.SecureClient.Connecting.{IsVerified, secure_connect-IsVerified}

-- A peer whose handshake waits once and then succeeds.
abbrev good : PeerAnswers
good = record {
  context = some 1;
  signed = some (2, 3);
  initialized = true;
  handle = some 4;
  handshake = want_read ready ∷ error_none ∷ [];
  certificate = verified;
}

abbrev empty : TlsServer
empty = record { handles = []; contexts = []; certs = []; rsa_priv_keys = []; freed = [] }

abbrev with_one : TlsServer
with_one = record {
  handles = (5, 4) ∷ [];
  contexts = (5, 1) ∷ [];
  certs = (5, 2) ∷ [];
  rsa_priv_keys = (5, 3) ∷ [];
  freed = [];
}

empty-SameKeys : SameKeys empty
empty-SameKeys = record { ordered = tt; contexts = refl; certs = refl; rsa_priv_keys = refl }

is_registered : register_client 5 good empty ≡ ended (with_one, returns (code 0))
unfolding register_client
is_registered = refl

register_client_lem_example :
    ((returns (code 0) ≡ returns (code 0)) × IsRegistered 5 good empty with_one)
    ⊎ ((returns (code 0) ≢ returns (code 0)) × SameMaps empty with_one)
register_client_lem_example =
    register_client_lem 5 good empty with_one (returns (code 0)) is_registered

Reach-SameKeys_example : SameKeys (clear_peer_creds 5 with_one)
Reach-SameKeys_example =
    Reach-SameKeys empty-SameKeys
      (clears 5 (registers 5 good with_one (returns (code 0)) here is_registered))

-- The beginning of the text that an environment has.
abbrev subject : Bytes
subject = b'C' ∷ b'=' ∷ b'X' ∷ b'X' ∷ b';' ∷ b' ' ∷ b'S' ∷ b'T' ∷ b'=' ∷ b'Y' ∷ []

from_string-only_example :
    from_string subject ≡ parsed (record no_info { country = b'X' ∷ b'X' ∷ [] })
unfolding field_of
from_string-only_example =
    from_string-only b'C' [] b'X' (b'X' ∷ []) (b' ' ∷ b'S' ∷ b'T' ∷ b'=' ∷ b'Y' ∷ []) b';'
      (λ v i. record i { country = v }) (refl, tt) (refl, (refl, tt))
      (refl, (refl, (refl, (refl, tt)))) refl refl

from_string-ends_example : from_string subject ≢ out_of_fuel
from_string-ends_example = from_string-ends subject

abbrev at : ℕ → SockAddr
at n = record { addr = n; port = 80 }

abbrev serving : SecureServer
serving = record {
  tcp = record {
    sock_fd = 3;
    peers = (5, at 1) ∷ [];
    state = connected;
    listen_enabled = true;
    joinable = true;
    log = on_connect (at 1) ∷ [];
  };
  tls = with_one;
}

abbrev waiting : SecureServer
waiting = record {
  tcp = record serving.tcp { peers = []; state = listening; log = [] };
  tls = empty;
}

waiting-IsConsistent : IsConsistent waiting
waiting-IsConsistent = record { ordered = tt; credentials = empty-SameKeys; peers = refl }

is_accepted :
    secure_incoming_peer (accept_ready ∷ accepts 5 (at 1) ∷ []) good waiting
    ≡ ended (serving, returns (code 5))
unfolding secure_incoming_peer register_client insert
is_accepted = refl

serving-IsConsistent : IsConsistent serving
serving-IsConsistent = record {
  ordered = (omega arith, tt);
  credentials = record {
    ordered = (omega arith, tt);
    contexts = refl;
    certs = refl;
    rsa_priv_keys = refl;
  };
  peers = refl;
}

Reach-IsConsistent_example : IsConsistent serving
unfolding lookup
Reach-IsConsistent_example = Reach-IsConsistent waiting-IsConsistent (
    server_steps.next server_steps.here (
      accepts_peer (accept_ready ∷ accepts 5 (at 1) ∷ []) good waiting serving (code 5)
        (omega arith, refl) is_accepted))

secure_incoming_peer-reset_example :
    (t : SecureServer) × (secure_incoming_peer (accepts 5 (at 2) ∷ []) good (secure_reset serving)
      ≡ ended (t, returns negative))
    × (t.tcp.peers ≡ [])
unfolding lookup
secure_incoming_peer-reset_example =
    secure_incoming_peer-reset 5 (at 2) (at 1) [] good serving serving-IsConsistent refl refl
      (omega arith) refl

abbrev idle : SecureClient
idle = record {
  tcp = record { sock_fd = 4; peer = at 0; state = disconnected; log = [] };
  tls = record { handle = none; context = none; cert = none; rsa_priv_key = none; freed = [] };
}

abbrev in_touch : SecureClient
in_touch = record {
  tcp = record { sock_fd = 4; peer = at 1; state = connected; log = on_connect (at 1) ∷ [] };
  tls = record {
    handle = some 4;
    context = some 1;
    cert = some 2;
    rsa_priv_key = some 3;
    freed = [];
  };
}

abbrev answers : ConnectAnswers
answers = record {
  resolved = some (at 1);
  opened = some 4;
  options = true;
  connects = true;
  waited = true;
  events = no_error ∷ [];
}

is_served : secure_connect answers good idle ≡ ended (in_touch, returns (code 0))
unfolding secure_connect
is_served = refl

secure_connect-IsVerified_example :
    (is_connected in_touch.tcp ≡ true) × IsVerified good in_touch.tls
secure_connect-IsVerified_example = secure_connect-IsVerified answers good idle in_touch is_served
