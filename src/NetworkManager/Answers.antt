-- ===== src/NetworkManager/Answers.antt =====
-- How a network manager answers a probe, and what comes of an invitation.
use module_oriented_software.Common.{
  not, ◌&&◌, Option, Option-cases, ℕ, ◌+◌, ◌≡◌, ◌≢◌, refl, ◌∙◌, sym, ap, ◌==◌, ==_ne, ==_refl, Bool,
  true, false, Bool-cases, inl, inr, none, some, List, [], ◌∷◌, ◌++◌, arith, if◌then◌else◌, ◌%◌,
  ◌^◌,
}
use module_oriented_software.Common.OrderedMap.{
  OrderedMap, IsOrdered, lookup, insert, lookup-insert,
}
use module_oriented_software.Sha256.{Hash}
use module_oriented_software.Environment.{EnvCfgHeader}
use module_oriented_software.Common.Keys.{is_some}
use module_oriented_software.NetworkManager.{
  Peer, Bytes, text, same_bytes, Manager, is_known, learn, answer, invite_hash, handle_probe,
  on_receive, probe, address_hash, invite, out_connection_established, is_peer_connected,
}

is_known_last : (h : Hash) (p : ℕ) (es : List (Hash × ℕ)) → is_known h p (es ++ (h, p) ∷ []) ≡ true
unfolding is_known
is_known_last h p [] = ground arith
is_known_last h p ((k, q) ∷ es) = ground (arith, is_known_last h p es)

learn_lem :
    (h : Hash) (p : ℕ) (m : Manager)
    → (is_known h p (learn h p m).known_envs ≡ true)
      × ((learn h p m).host_hash ≡ m.host_hash)
      × ((learn h p m).host_addr ≡ m.host_addr)
      × ((learn h p m).peers ≡ m.peers)
      × ((learn h p m).units ≡ m.units)
unfolding learn
learn_lem h p m = elim (Bool-cases (is_known h p m.known_envs)) [
  | inl known ↦ rw known (known, refl, refl, refl, refl)
  | inr new ↦ rw new (is_known_last h p m.known_envs, refl, refl, refl, refl)
]

answer_connects :
    (buffer : Bytes) (h : Hash) (header : EnvCfgHeader) (m : Manager)
    → lookup h m.peers ≡ none
    → same_bytes (text buffer) (text m.host_addr) ≡ false
    → answer buffer h header m.host_hash true m ≡ (
      record m {
        peers =
            insert h (record { header = header; address = text buffer; unit = m.units }) m.peers;
        units = m.units + 1;
      },
      some (some 0),
    )
unfolding answer handle_probe out_connection_established
answer_connects buffer h header m e s = rw (==_refl m.host_hash, out_connection_established, e, s)

answer_uninvited :
    (buffer : Bytes) (h : Hash) (header : EnvCfgHeader) (invited : Hash) (connects : Bool)
    (m : Manager)
    → invited ≢ m.host_hash
    → answer buffer h header invited connects m ≡ (m, none)
unfolding answer
answer_uninvited buffer h header invited connects m n = rw (==_ne invited m.host_hash n)

-- The hash of the environment that a probe comes from.
abbrev pub sender : (Bytes → Hash) → Bytes → EnvCfgHeader → Hash
sender compute buffer header = address_hash compute buffer (header.env_ipv4_tcp_port % 2 ^ 16)

module _ (compute : Bytes → Hash) (buffer : Bytes) (header : EnvCfgHeader) (stray : Hash) where
  -- A probe that does not invite this environment opens no connection and closes none.
  on_receive_uninvited :
      (connects : Bool) (m : Manager)
      → invite_hash header stray ≢ m.host_hash
      → ((on_receive compute buffer header stray connects m).0.peers ≡ m.peers)
        × ((on_receive compute buffer header stray connects m).1 ≡ none)
  unfolding on_receive
  on_receive_uninvited connects m n =
      let port = header.env_ipv4_tcp_port % 2 ^ 16 in
      let l = learn_lem (sender compute buffer header) port m in
      elim (Bool-cases ((sender compute buffer header) == m.host_hash)) [
        | inl same ↦ rw same (refl, refl)
        | inr other ↦
            rw
              (
                other,
                answer_uninvited buffer (sender compute buffer header) header
                    (invite_hash header stray) connects
                    (learn (sender compute buffer header) port m) (rw l.1 n),
              )
              (l.3, refl)
      ]

  -- A probe from another environment that invites this one, which is not connected to that environment and reaches it, at
  -- another address than its own: the environment is known then, and stands among the peers with its header and its
  -- address; the other peers stay.
  pub on_receive_invited :
      (m : Manager)
      → IsOrdered m.peers
      → (sender compute buffer header) ≢ m.host_hash
      → invite_hash header stray ≡ m.host_hash
      → lookup (sender compute buffer header) m.peers ≡ none
      → same_bytes (text buffer) (text m.host_addr) ≡ false
      → let r = on_receive compute buffer header stray true m in
        (r.1 ≡ some (some 0))
        × (is_known
              (sender compute buffer header)
              (header.env_ipv4_tcp_port % 2 ^ 16)
              r.0.known_envs
            ≡ true)
        × ((h : Hash)
            → lookup h r.0.peers ≡ (
                if (sender compute buffer header) == h
                then some (record { header = header; address = text buffer; unit = m.units })
                else lookup h m.peers))
  unfolding on_receive
  on_receive_invited m o n i e s =
      let port = header.env_ipv4_tcp_port % 2 ^ 16 in
      let m' = learn (sender compute buffer header) port m in
      let l = learn_lem (sender compute buffer header) port m in
      rw
        (
          ==_ne (sender compute buffer header) m.host_hash n,
          i ∙ sym l.1,
          answer_connects buffer (sender compute buffer header) header m'
              (ap (lookup (sender compute buffer header)) l.3 ∙ e)
              (ap (λ a. same_bytes (text buffer) (text a)) l.2 ∙ s),
        )
        (
          refl,
          l.0,
          λ h.
              lookup-insert 0 (sender compute buffer header) h _ m'.peers (rw l.3 o)
                (ap (lookup (sender compute buffer header)) l.3 ∙ e)
              ∙ rw (l.3, l.4),
        )

-- Whether a manager opens a connection to an environment that invites it, given its hash and address: it is another's hash, no peer has it,
-- the address is not that of the interface, and `connect` succeeds.
abbrev pub opens : Hash → Bytes → Bool → Manager → Bool
opens h buffer connects m =
    not (h == m.host_hash)
    && (not (is_some (lookup h m.peers))
        && (not (same_bytes (text buffer) (text m.host_addr)) && connects))

-- A peer under a hash, where a test holds, and the peers that there were.
abbrev pub with_peer : Bool → Hash → Peer → OrderedMap Peer → Hash → Option Peer
with_peer test h p peers k = if test && h == k then some p else lookup k peers

answer_peers :
    (buffer : Bytes) (h : Hash) (header : EnvCfgHeader) (connects : Bool) (m : Manager) (k : Hash)
    → IsOrdered m.peers
    → (h == m.host_hash) ≡ false
    → lookup k (answer buffer h header m.host_hash connects m).0.peers
      ≡ with_peer
          (opens h buffer connects m)
          h
          (record { header = header; address = text buffer; unit = m.units })
          m.peers
          k
unfolding answer handle_probe out_connection_established
answer_peers buffer h header connects m k o n = elim (Option-cases (lookup h m.peers)) [
  | inr (p, e) ↦ rw (==_refl m.host_hash, out_connection_established, e, n) refl
  | inl e ↦ elim (Bool-cases (same_bytes (text buffer) (text m.host_addr))) [
    | inl same ↦ rw (==_refl m.host_hash, out_connection_established, e, n, same) refl
    | inr other ↦ elim (Bool-cases connects) [
      | inr refused ↦
          rw (==_refl m.host_hash, out_connection_established, e, n, other, refused) refl
      | inl accepted ↦
          rw (==_refl m.host_hash, out_connection_established, e, n, other, accepted)
            (lookup-insert 0 h k _ m.peers o e)
    ]
  ]
]

-- The same of a manager that agrees with another in what the answer depends on.
answer_peers_of :
    (buffer : Bytes) (h : Hash) (header : EnvCfgHeader) (connects : Bool) (m m' : Manager)
    (k : Hash)
    → IsOrdered m.peers
    → (h == m.host_hash) ≡ false
    → m'.host_hash ≡ m.host_hash
    → m'.host_addr ≡ m.host_addr
    → m'.peers ≡ m.peers
    → m'.units ≡ m.units
    → lookup k (answer buffer h header m.host_hash connects m').0.peers
      ≡ with_peer
          (opens h buffer connects m)
          h
          (record { header = header; address = text buffer; unit = m.units })
          m.peers
          k
answer_peers_of buffer h header connects m m' k o n host addr peers units =
    rw (sym host, sym addr, sym peers, sym units)
      (answer_peers buffer h header connects m' k (rw peers o) (rw host n))

on_receive_other :
    (compute : Bytes → Hash) (buffer : Bytes) (header : EnvCfgHeader) (stray : Hash)
    (connects : Bool) (m : Manager)
    → let h = sender compute buffer header in
      let port = header.env_ipv4_tcp_port % 2 ^ 16 in
      (h == m.host_hash) ≡ false
      → on_receive compute buffer header stray connects m
        ≡ answer buffer h header (invite_hash header stray) connects (learn h port m)
unfolding on_receive
on_receive_other compute buffer header stray connects m other = rw other refl

on_receive_inviting :
    (compute : Bytes → Hash) (buffer : Bytes) (header : EnvCfgHeader) (stray : Hash)
    (connects : Bool) (m : Manager) (k : Hash)
    → IsOrdered m.peers
    → invite_hash header stray ≡ m.host_hash
    → lookup k (on_receive compute buffer header stray connects m).0.peers
      ≡ with_peer
          (opens (sender compute buffer header) buffer connects m)
          (sender compute buffer header)
          (record { header = header; address = text buffer; unit = m.units })
          m.peers
          k
unfolding on_receive
on_receive_inviting compute buffer header stray connects m k o i =
    let h = sender compute buffer header in
    let port = header.env_ipv4_tcp_port % 2 ^ 16 in
    let l = learn_lem h port m in
    elim (Bool-cases (h == m.host_hash)) [
      | inl same ↦ rw same refl
      | inr other ↦
          ap (λ r. lookup k r.0.peers)
            (on_receive_other compute buffer header stray connects m other
              ∙ ap (λ v. answer buffer h header v connects (learn h port m)) i)
          ∙ answer_peers_of buffer h header connects m (learn h port m) k o other l.1 l.2 l.3 l.4
    ]

-- Let the first environment that is known to one manager be known by the hash that another calculated for itself, and not be connected to. The
-- header that the first then sends invites the second. Whatever that finds when it receives the header from some address: it has the first among its
-- peers, with the header and the address, if the hash that it calculates for it is not its own and none of its peers has it, the address is not
-- its own and `connect` succeeds; else its peers are as before, and so are all others in each case.
pub probe-on_receive :
    (compute : Bytes → Hash) (connected : List Bytes) (a b : Manager) (p : ℕ) (es : List (Hash × ℕ))
    (buffer : Bytes) (stray : Hash) (connects : Bool) (k : Hash)
    → a.known_envs ≡ (b.host_hash, p) ∷ es
    → is_peer_connected compute b.host_hash p connected ≡ false
    → IsOrdered b.peers
    → let sent = (probe compute connected a).header in
      let h = sender compute buffer a.header in
      ((probe compute connected a).sent ≡ sent ∷ a.sent)
      × (sent.env_invite ≡ some b.host_hash)
      × (lookup k (on_receive compute buffer sent stray connects b).0.peers
          ≡ with_peer
              (opens h buffer connects b)
              h
              (record { header = sent; address = text buffer; unit = b.units })
              b.peers
              k)
unfolding probe invite invite_hash
probe-on_receive compute connected a b p es buffer stray connects k known c o =
    rw (known, c)
      (
        refl,
        refl,
        on_receive_inviting compute buffer (record a.header { env_invite = some b.host_hash }) stray
            connects b k o refl,
      )
