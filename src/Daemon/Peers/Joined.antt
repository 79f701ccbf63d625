-- ===== src/Daemon/Peers/Joined.antt =====
-- Which Tailscale peers Serf is told to join: probePeers and discoverAndJoinTailscalePeers of
-- node/internal/daemon/daemon.go.
use cluster_os.Prelude.{
  ℕ, ◌-◌, String, ◌≡◌, refl, sym, ap, ◌∙◌, Bool, true, false, ◌&&◌, Option, none, some, List, [],
  ◌∷◌, head?, ◌==◌, ◌⊎◌, inl, inr, ltb, ◌-◌, arith, eq_iff, elem, and_true, if-both, Bool-cases,
}
use cluster_os.Prelude.Maps.{lookup, lookup-delete, delete}
use cluster_os.Daemon.Peers.{
  PeerFailCache, Dialled, Peer, Discovery, failed_peer_ttl, should_skip, skip_found, probe_peers,
  is_unknown, peer_addr, consider, to_join, probe_and_join, discover_and_join,
}
use cluster_os.Daemon.Peers.Cache.{is_recent}

-- The dial of this address has come back and has connected.
abbrev pub IsUp : String → List Dialled → Type 0
IsUp a [] = ⊥
IsUp a (r ∷ rs) = ((r.addr ≡ a) × (r.ok ≡ true)) ⊎ IsUp a rs

-- One of the peers is online and has this address, which is not this node's and not a member's.
abbrev pub IsOffered : Discovery → String → List Peer → Type 0
IsOffered w a [] = ⊥
IsOffered w a (p ∷ ps) =
    ((p.online ≡ true)
      × ((ip : String) × (head? p.tailscale_ips ≡ some ip)
          × (is_unknown w ip ≡ true)
          × (a ≡ peer_addr w ip)))
    ⊎ IsOffered w a ps

elem_cases :
    (a b : String) (bs : List String) → elem a (b ∷ bs) ≡ true → (b ≡ a) ⊎ (elem a bs ≡ true)
unfolding elem
elem_cases a b bs h = elim (Bool-cases (b == a)) [
  | inl e ↦ inl ((eq_iff b a).0 e)
  | inr e ↦ inr (ground (arith, eq_iff b a, eq_iff a b))
]

probe_peers-IsUp :
    (a : String) (rs : List Dialled) (cache : PeerFailCache)
    → elem a (probe_peers rs cache).0 ≡ true
    → IsUp a rs
unfolding probe_peers elem
probe_peers-IsUp a [] cache h = absurd (ground arith)
probe_peers-IsUp a (r ∷ rs) cache h =
    let P = λ (o : List String × PeerFailCache). elem a o.0 ≡ true → IsUp a (r ∷ rs) in
    if-both P r.ok _ _
      (λ e k. elim (elem_cases a r.addr _ k) [
        | inl same ↦ inl (same, e)
        | inr among ↦ inr (probe_peers-IsUp a rs cache among)
      ])
      (λ e k. inr (probe_peers-IsUp a rs _ k)) h

-- Both caches make the same peers recent.
abbrev SameRecent : ℕ → PeerFailCache → PeerFailCache → Type 0
SameRecent now cache other =
    (a : String) → is_recent now (lookup a other) ≡ is_recent now (lookup a cache)

skip_found-SameRecent :
    (now : ℕ) (addr : String) (o : Option ℕ) (cache : PeerFailCache)
    → lookup addr cache ≡ o
    → ((skip_found now addr o cache).0 ≡ is_recent now o)
      × SameRecent now cache (skip_found now addr o cache).1
unfolding skip_found is_recent
skip_found-SameRecent now addr none cache found = (refl, λ a. refl)
skip_found-SameRecent now addr (some t) cache found =
    if-both
      (λ (r : Bool × PeerFailCache). (r.0 ≡ is_recent now (some t)) × SameRecent now cache r.1)
      (ltb failed_peer_ttl (now - t)) _ _ (λ e. (ground arith, λ a. deleted a e))
      (λ e. (ground arith, λ a. refl))
  where
    deleted :
        (a : String)
        → ltb failed_peer_ttl (now - t) ≡ true
        → is_recent now (lookup a (delete addr cache)) ≡ is_recent now (lookup a cache)
    deleted a e = elim (Bool-cases (addr == a)) [
      | inl same ↦
          let old = ap (λ x. lookup x cache) (sym ((eq_iff addr a).0 same)) ∙ found in
          rw (lookup-delete addr a cache, same, old, is_recent, e) refl
      | inr other ↦ rw (lookup-delete addr a cache, other) refl
    ]

-- What is known of an address to join, for the cache that the round began with.
abbrev pub IsWanted : Discovery → PeerFailCache → String → List Peer → Type 0
IsWanted w cache a ps = IsOffered w a ps × (is_recent w.now (lookup a cache) ≡ false)

IsWanted-cons :
    (w : Discovery) (cache : PeerFailCache) (a : String) (p : Peer) (ps : List Peer)
    → IsWanted w cache a ps
    → IsWanted w cache a (p ∷ ps)
IsWanted-cons w cache a p ps (offered, recent) = (inr offered, recent)

consider-IsWanted :
    (w : Discovery) (cache : PeerFailCache) (a : String) (p : Peer) (ps : List Peer)
    (ips : List String) (rest : PeerFailCache → List String × PeerFailCache) (other : PeerFailCache)
    → p.tailscale_ips ≡ ips
    → ((c : PeerFailCache)
        → SameRecent w.now cache c
        → elem a (rest c).0 ≡ true
        → IsWanted w cache a ps)
    → SameRecent w.now cache other
    → elem a (consider w p.online ips rest other).0 ≡ true
    → IsWanted w cache a (p ∷ ps)
unfolding consider should_skip
consider-IsWanted w cache a p ps [] rest other these later same h =
    IsWanted-cons w cache a p ps (later other same h)
consider-IsWanted w cache a p ps (ip ∷ ips) rest other these later same h =
    let P = λ (o : List String × PeerFailCache). elem a o.0 ≡ true → IsWanted w cache a (p ∷ ps) in
    let (answer, kept) = skip_found-SameRecent w.now (peer_addr w ip) _ other refl in
    let asked = λ (x : String). kept x ∙ same x in
    let among = λ (c : PeerFailCache) (s : SameRecent w.now cache c) (k : elem a (rest c).0 ≡ true).
      IsWanted-cons w cache a p ps (later c s k) in
    if-both P (p.online && is_unknown w ip) _ _
      (λ e.
        let (online, unknown) = and_true _ _ e in
        if-both P (should_skip w.now (peer_addr w ip) other).0 _ _ (λ skip k. among _ asked k)
          (λ fresh k. elim (elem_cases a (peer_addr w ip) _ k) [
            | inr behind ↦ among _ asked behind
            | inl this ↦
                let head = ap head? these in
                let recent =
                  ap (λ x. is_recent w.now (lookup x cache)) (sym this)
                  ∙ (sym (same (peer_addr w ip)) ∙ (sym answer ∙ fresh)) in
                (inl (online, (ip, head, unknown, sym this)), recent)
          ]))
      (λ e k. among other same k) h

to_join-IsWanted :
    (w : Discovery) (cache : PeerFailCache) (a : String) (ps : List Peer) (other : PeerFailCache)
    → SameRecent w.now cache other
    → elem a (to_join w ps other).0 ≡ true
    → IsWanted w cache a ps
unfolding to_join elem
to_join-IsWanted w cache a [] other same h = absurd (ground arith)
to_join-IsWanted w cache a (p ∷ ps) other same h =
    consider-IsWanted w cache a p ps p.tailscale_ips _ other refl
      (λ c s k. to_join-IsWanted w cache a ps c s k) same h

probe_and_join-IsUp :
    (w : Discovery) (found : List String) (cache : PeerFailCache) (a : String)
    → elem a (probe_and_join w found cache).0 ≡ true
    → IsUp a (w.dials found)
unfolding probe_and_join elem
probe_and_join-IsUp w [] cache a h = absurd (ground arith)
probe_and_join-IsUp w (x ∷ xs) cache a h =
    let P = λ (o : List String × PeerFailCache). elem a o.0 ≡ true → IsUp a (w.dials (x ∷ xs)) in
    if-both P (w.join_fails (probe_peers (w.dials (x ∷ xs)) cache).0) _ _
      (λ e k. probe_peers-IsUp a _ cache k) (λ e k. probe_peers-IsUp a _ cache k) h

-- Every address that a round of discovery tells Serf to join has answered a dial, is that of an online peer
-- of the tailnet that is neither this node nor a member, and is not the address of a peer whose failure the
-- cache had from the last five minutes, if only addresses that are asked for are dialled.
pub discover_and_join-IsWanted :
    (w : Discovery) (cache : PeerFailCache) (a : String)
    → ((asked : List String) (x : String) → IsUp x (w.dials asked) → elem x asked ≡ true)
    → elem a (discover_and_join w cache).0 ≡ true
    → IsWanted w cache a w.peers × ((asked : List String) × IsUp a (w.dials asked))
unfolding discover_and_join
discover_and_join-IsWanted w cache a honest h =
    let (found, asked) = to_join w w.peers cache in
    let up = probe_and_join-IsUp w found asked a h in
    (to_join-IsWanted w cache a w.peers cache (λ x. refl) (honest found a up), (found, up))
