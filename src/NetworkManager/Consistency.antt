-- ===== src/NetworkManager/Consistency.antt =====
-- Whatever a network manager receives, and however its threads are scheduled, it stays consistent.
use module_oriented_software.Common.{
  ℕ, ◌≡◌, ◌≢◌, refl, ◌∙◌, ap, ◌==◌, ==_ne, ◌&&◌, not, Bool, Bool-cases, inl, inr, none, List, arith,
  ◌%◌, ◌^◌, Option-cases,
}
use module_oriented_software.Common.OrderedMap.{
  lookup, insert, insert-OrderedFrom, erase-OrderedFrom, lookup-insert, lookup-erase_if,
}
use module_oriented_software.Sha256.{Hash}
use module_oriented_software.Environment.{EnvCfgHeader}
use module_oriented_software.NetworkManager.{
  Bytes, text, same_bytes, Peer, Manager, learn, answer, invite_hash, handle_probe, on_receive,
  probe, expire, on_disconnect, address_hash, network_manager, forget, out_connection_established,
}
use module_oriented_software.NetworkManager.Steps.{
  Step, receives, probes, expires, disconnects, Reach, here, next, IsConsistent, forget-AllOnce,
  forget-NotAmong, invite-NotAmong, learn-IsConsistent,
}

-- A new peer under another hash than that of the environment itself.
with_peer-IsConsistent :
    (h : Hash) (p : Peer) (u : ℕ) (m : Manager)
    → h ≢ m.host_hash
    → lookup h m.peers ≡ none
    → IsConsistent m
    → IsConsistent (record m { peers = insert h p m.peers; units = u })
with_peer-IsConsistent h p u m n e v = record {
  expiring = v.expiring;
  once = v.once;
  not_itself = v.not_itself;
  ordered = insert-OrderedFrom 0 h p m.peers (omega arith) v.ordered;
  not_connected =
      lookup-insert 0 h m.host_hash p m.peers v.ordered e
      ∙ rw (==_ne h m.host_hash n) v.not_connected;
  invites = v.invites;
  invited = v.invited;
}

with_unit-IsConsistent :
    (u : ℕ) (m : Manager) → IsConsistent m → IsConsistent (record m { units = u })
with_unit-IsConsistent u m v = record {
  expiring = v.expiring;
  once = v.once;
  not_itself = v.not_itself;
  ordered = v.ordered;
  not_connected = v.not_connected;
  invites = v.invites;
  invited = v.invited;
}

handle_probe-IsConsistent :
    (addr : Bytes) (h : Hash) (header : EnvCfgHeader) (connects : Bool) (m : Manager)
    → h ≢ m.host_hash
    → IsConsistent m
    → IsConsistent (handle_probe addr h header connects m).0
unfolding handle_probe
handle_probe-IsConsistent addr h header connects m n v =
    elim (Bool-cases (same_bytes addr (text m.host_addr))) [
      | inl same ↦ rw same v
      | inr other ↦ elim (Option-cases (lookup h m.peers)) [
        | inr (p, e) ↦ rw (other, e) v
        | inl e ↦ elim (Bool-cases connects) [
          | inl c ↦ rw (other, e, c) (with_peer-IsConsistent h _ _ m n e v)
          | inr c ↦ rw (other, e, c) (with_unit-IsConsistent _ m v)
        ]
      ]
    ]

answer-IsConsistent :
    (buffer : Bytes) (h : Hash) (header : EnvCfgHeader) (invited : Hash) (connects : Bool)
    (m : Manager)
    → h ≢ m.host_hash
    → IsConsistent m
    → IsConsistent (answer buffer h header invited connects m).0
unfolding answer
answer-IsConsistent buffer h header invited connects m n v =
    elim (Bool-cases (invited == m.host_hash && not (out_connection_established h m.peers))) [
      | inl e ↦ rw e (handle_probe-IsConsistent (text buffer) h header connects m n v)
      | inr e ↦ rw e v
    ]

learn-host : (h : Hash) (p : ℕ) (m : Manager) → (learn h p m).host_hash ≡ m.host_hash
unfolding learn
learn-host h p m = ground arith

on_receive-IsConsistent :
    (compute : Bytes → Hash) (buffer : Bytes) (header : EnvCfgHeader) (stray : Hash)
    (connects : Bool) (m : Manager)
    → IsConsistent m
    → IsConsistent (on_receive compute buffer header stray connects m).0
unfolding on_receive
on_receive-IsConsistent compute buffer header stray connects m v =
    let port = header.env_ipv4_tcp_port % 2 ^ 16 in
    let h = address_hash compute buffer port in
    elim (Bool-cases (h == m.host_hash)) [
      | inl same ↦ rw same v
      | inr other ↦
          let n : h ≢ m.host_hash = ground arith in
          rw other (
            answer-IsConsistent buffer h header (invite_hash header stray) connects (learn h port m)
              (rw (learn-host h port m) n) (learn-IsConsistent h port m n v))
    ]

probe-IsConsistent :
    (compute : Bytes → Hash) (connected : List Bytes) (m : Manager)
    → IsConsistent m
    → IsConsistent (probe compute connected m)
unfolding probe
probe-IsConsistent compute connected m v =
    let n =
      invite-NotAmong compute connected m.host_hash m.known_envs m.header v.not_itself v.invites in
    record {
      expiring = v.expiring;
      once = v.once;
      not_itself = v.not_itself;
      ordered = v.ordered;
      not_connected = v.not_connected;
      invites = n;
      invited = (n, v.invited);
    }

expire-IsConsistent :
    (h : Hash) (p : ℕ) (m : Manager) → IsConsistent m → IsConsistent (expire h p m)
unfolding expire
expire-IsConsistent h p m v = record {
  expiring = ap (forget h p) v.expiring;
  once = forget-AllOnce h p m.known_envs v.once;
  not_itself = forget-NotAmong m.host_hash h p m.known_envs v.not_itself;
  ordered = v.ordered;
  not_connected = v.not_connected;
  invites = v.invites;
  invited = v.invited;
}

on_disconnect-IsConsistent :
    (h : Hash) (m : Manager) → IsConsistent m → IsConsistent (on_disconnect h m)
unfolding on_disconnect
on_disconnect-IsConsistent h m v = record {
  expiring = v.expiring;
  once = v.once;
  not_itself = v.not_itself;
  ordered = erase-OrderedFrom 0 h m.peers v.ordered;
  not_connected =
      lookup-erase_if h m.host_hash m.peers v.ordered
      ∙ (elim (Bool-cases (h == m.host_hash)) [ inl e ↦ rw e | inr e ↦ rw e v.not_connected ]);
  invites = v.invites;
  invited = v.invited;
}

Step-IsConsistent :
    {compute : Bytes → Hash} {t u : Manager} → Step compute t u → IsConsistent t → IsConsistent u
Step-IsConsistent {compute} (receives buffer header stray connects m) v =
    on_receive-IsConsistent compute buffer header stray connects m v
Step-IsConsistent {compute} (probes connected m) v = probe-IsConsistent compute connected m v
Step-IsConsistent (expires h p m k) v = expire-IsConsistent h p m v
Step-IsConsistent (disconnects h m) v = on_disconnect-IsConsistent h m v

Reach-IsConsistent :
    {compute : Bytes → Hash} {s t : Manager} → IsConsistent s → Reach compute s t → IsConsistent t
Reach-IsConsistent v here = v
Reach-IsConsistent v (next r st) = Step-IsConsistent st (Reach-IsConsistent v r)

-- From the start of an environment whose own header invites nobody, in every order of probes received, rounds of
-- probing, forgetting threads and disconnections: an environment that is known is known once and has exactly
-- one thread that will forget it, and no environment is known, connected to or invited under the hash that the manager
-- calculated for itself when it was made. A probe of its own that comes with another hash, as the bytes of the buffer behind
-- the address are hashed with it, is not one of these.
pub network_manager-IsConsistent :
    (compute : Bytes → Hash) (host_addr : Bytes) (port : ℕ) (header : EnvCfgHeader) (m : Manager)
    → header.env_invite ≡ none
    → Reach compute (network_manager compute host_addr port header) m
    → IsConsistent m
unfolding network_manager lookup
network_manager-IsConsistent compute host_addr port header m e r =
    Reach-IsConsistent
      (record {
        expiring = refl;
        once = tt;
        not_itself = tt;
        ordered = tt;
        not_connected = refl;
        invites = λ f. cc;
        invited = tt;
      })
      r
