-- ===== src/NetworkManager/Steps.antt =====
-- The steps of a network manager, in any order, and what holds after any number of them.
use module_oriented_software.Common.{
  ℕ, ◌≡◌, ◌≢◌, refl, ap, ◌==◌, ◌&&◌, Bool, true, false, Bool-cases, inl, inr, none, some, List, [],
  ◌∷◌, ◌++◌, arith,
}
use module_oriented_software.Common.OrderedMap.{IsOrdered, lookup}
use module_oriented_software.Sha256.{Hash}
use module_oriented_software.Environment.{EnvCfgHeader}
use module_oriented_software.NetworkManager.{
  Bytes, Manager, is_known, forget, learn, on_receive, invite, probe, expire, on_disconnect,
}

module _ (compute : Bytes → Hash) where
  -- A probe is received, a round of probing is made, an environment is forgotten by a thread that slept for
  -- it, or a client socket is disconnected.
  pub data Step : Manager → Manager → Type 0 where
    receives :
        (buffer : Bytes) (header : EnvCfgHeader) (stray : Hash) (connects : Bool) (m : Manager)
        → Step m (on_receive compute buffer header stray connects m).0
    probes : (connected : List Bytes) (m : Manager) → Step m (probe compute connected m)
    expires :
        (h : Hash) (p : ℕ) (m : Manager) → is_known h p m.expirations ≡ true → Step m (expire h p m)
    disconnects : (h : Hash) (m : Manager) → Step m (on_disconnect h m)

  pub data Reach (s : Manager) : Manager → Type 0 where
    here : Reach s s
    next : {t u : Manager} → Reach s t → Step t u → Reach s u

-- Each environment once.
abbrev pub AllOnce : List (Hash × ℕ) → Type 0
AllOnce [] = Unit {0}
AllOnce ((h, p) ∷ es) = (is_known h p es ≡ false) × AllOnce es

-- None of the environments has the hash.
abbrev pub NotAmong : Hash → List (Hash × ℕ) → Type 0
NotAmong h [] = Unit {0}
NotAmong h ((k, p) ∷ es) = (k ≢ h) × NotAmong h es

-- None of the headers invites the hash.
abbrev pub NoneInvites : Hash → List EnvCfgHeader → Type 0
NoneInvites h [] = Unit {0}
NoneInvites h (e ∷ es) = (e.env_invite ≢ some h) × NoneInvites h es

-- Every environment that is known is known once and has one thread that will forget it, the environment itself
-- is neither known nor connected to, and has never been invited by itself.
pub record IsConsistent (m : Manager) : Type 0 where
  pub expiring : m.expirations ≡ m.known_envs
  pub once : AllOnce m.known_envs
  pub not_itself : NotAmong m.host_hash m.known_envs
  pub ordered : IsOrdered m.peers
  pub not_connected : lookup m.host_hash m.peers ≡ none
  pub invites : m.header.env_invite ≢ some m.host_hash
  pub invited : NoneInvites m.host_hash m.sent

is_known-append :
    (h k : Hash) (p q : ℕ) (es : List (Hash × ℕ))
    → is_known h p es ≡ false
    → ((k == h) && (q == p)) ≡ false
    → is_known h p (es ++ (k, q) ∷ []) ≡ false
unfolding is_known
is_known-append h k p q [] e f = ground arith
is_known-append h k p q ((a, b) ∷ es) e f = ground (arith, is_known-append h k p q es)

append-AllOnce :
    (h : Hash) (p : ℕ) (es : List (Hash × ℕ))
    → is_known h p es ≡ false
    → AllOnce es
    → AllOnce (es ++ (h, p) ∷ [])
unfolding is_known
append-AllOnce h p [] e a = (refl, tt)
append-AllOnce h p ((k, q) ∷ es) e a =
    ground (arith, is_known-append k h q p es, append-AllOnce h p es)

append-NotAmong :
    (h k : Hash) (p : ℕ) (es : List (Hash × ℕ))
    → k ≢ h
    → NotAmong h es
    → NotAmong h (es ++ (k, p) ∷ [])
append-NotAmong h k p [] n a = (n, tt)
append-NotAmong h k p ((j, q) ∷ es) n a = (a.0, append-NotAmong h k p es n a.1)

is_known-forget :
    (h k : Hash) (p q : ℕ) (es : List (Hash × ℕ))
    → is_known h p es ≡ false
    → is_known h p (forget k q es) ≡ false
unfolding is_known forget
is_known-forget h k p q [] e = refl
is_known-forget h k p q ((a, b) ∷ es) e = ground (arith, is_known-forget h k p q es)

pub forget-AllOnce :
    (h : Hash) (p : ℕ) (es : List (Hash × ℕ)) → AllOnce es → AllOnce (forget h p es)
unfolding forget
forget-AllOnce h p [] a = tt
forget-AllOnce h p ((k, q) ∷ es) a =
    ground (arith, is_known-forget k h q p es, forget-AllOnce h p es)

pub forget-NotAmong :
    (h k : Hash) (p : ℕ) (es : List (Hash × ℕ)) → NotAmong h es → NotAmong h (forget k p es)
unfolding forget
forget-NotAmong h k p [] a = tt
forget-NotAmong h k p ((j, q) ∷ es) a = ground (arith, forget-NotAmong h k p es)

-- The invite of a round is that before it, or a known environment.
pub invite-NotAmong :
    (compute : Bytes → Hash) (connected : List Bytes) (h : Hash) (es : List (Hash × ℕ))
    (header : EnvCfgHeader)
    → NotAmong h es
    → header.env_invite ≢ some h
    → (invite compute connected es header).env_invite ≢ some h
unfolding invite
invite-NotAmong compute connected h [] header a n = n
invite-NotAmong compute connected h ((k, p) ∷ es) header a n =
    ground (arith, invite-NotAmong compute connected h es header)

pub learn-IsConsistent :
    (h : Hash) (p : ℕ) (m : Manager) → h ≢ m.host_hash → IsConsistent m → IsConsistent (learn h p m)
unfolding learn
learn-IsConsistent h p m n v = elim (Bool-cases (is_known h p m.known_envs)) [
  | inl known ↦ rw known v
  | inr new ↦ rw new (record {
    expiring = ap (λ es. es ++ (h, p) ∷ []) v.expiring;
    once = append-AllOnce h p m.known_envs new v.once;
    not_itself = append-NotAmong m.host_hash h p m.known_envs n v.not_itself;
    ordered = v.ordered;
    not_connected = v.not_connected;
    invites = v.invites;
    invited = v.invited;
  })
]
