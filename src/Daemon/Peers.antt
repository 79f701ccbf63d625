-- ===== src/Daemon/Peers.antt =====
-- Tailscale peers: peerFailCache, probePeers and discoverAndJoinTailscalePeers of
-- node/internal/daemon/daemon.go. The `tailscale` command with its JSON, TCP dials, Serf's Join and
-- net.SplitHostPort are arguments; times are nanoseconds of one clock.
pub mod Cache
pub mod Joined
use cluster_os.Prelude.{
  ℕ, ◌-◌, String, Bool, true, false, ◌&&◌, ◌||◌, not, Option, none, some, List, [], ◌∷◌, map, ◌==◌,
  eqb, ltb, elem, if◌then◌else◌,
}
use cluster_os.Prelude.Errors.{after_text}
use cluster_os.Prelude.Maps.{Map, lookup, insert, delete}
use cluster_os.Discovery.Member.{Member}

-- failedPeerTTL, five minutes
abbrev pub failed_peer_ttl : ℕ
failed_peer_ttl = 300000000000

-- The cache of peers: when each failed last.
abbrev pub PeerFailCache : Type 0
PeerFailCache = Map ℕ

-- The answer of shouldSkip for what the cache holds of an address.
unfoldable pub skip_found : ℕ → String → Option ℕ → PeerFailCache → Bool × PeerFailCache
skip_found now addr none cache = (false, cache)
skip_found now addr (some t) cache =
    if ltb failed_peer_ttl (now - t) then (false, delete addr cache) else (true, cache)

-- shouldSkip
unfoldable pub should_skip : ℕ → String → PeerFailCache → Bool × PeerFailCache
unfolding skip_found
should_skip now addr cache = skip_found now addr (lookup addr cache) cache

-- markFailed
unfoldable pub mark_failed : ℕ → String → PeerFailCache → PeerFailCache
mark_failed now addr cache = insert addr now cache

-- A dial that has come back: its address, whether it connected, and when.
pub record Dialled : Type 0 where
  pub addr : String
  pub ok : Bool
  pub time : ℕ

-- The loop of probePeers over the dials in the order in which they come back.
unfoldable pub probe_peers : List Dialled → PeerFailCache → List String × PeerFailCache
unfolding mark_failed
probe_peers [] cache = ([], cache)
probe_peers (r ∷ rs) cache =
    let (up, up_cache) = probe_peers rs cache in
    let down = probe_peers rs (mark_failed r.time r.addr cache) in
    if r.ok then (r.addr ∷ up, up_cache) else down

-- A peer in the output of `tailscale status --json`.
pub record Peer : Type 0 where
  pub tailscale_ips : List String
  pub online : Bool

-- What discoverAndJoinTailscalePeers reads: this node's address or "", the peers in the order in which the
-- map gives them, Serf's port in text, Serf's members before, the time, the dials for some addresses, the
-- answer to a join (whether it gave an error), and after it the members, the host of an address and the time.
pub record Discovery : Type 0 where
  pub self_ip : String
  pub peers : List Peer
  pub serf_port : String
  pub members : List Member
  pub now : ℕ
  pub dials : List String → List Dialled
  pub join_fails : List String → Bool
  pub members_after : List Member
  pub host_of : String → String
  pub later : ℕ

abbrev pub addresses : List Member → List String
addresses = map (λ m. m.addr)

-- Whether a peer with this address may be new.
unfoldable pub is_unknown : Discovery → String → Bool
is_unknown w ip = not (ip == w.self_ip) && not (elem ip (addresses w.members))

unfoldable pub peer_addr : Discovery → String → String
peer_addr w ip = after_text (after_text ip ":") w.serf_port

-- What a round of the loop over the peers does for one of them; `rest` is the loop over those after it.
unfoldable pub consider :
    Discovery
    → Bool
    → List String
    → (PeerFailCache → List String × PeerFailCache)
    → PeerFailCache
    → List String × PeerFailCache
consider w online [] rest cache = rest cache
consider w online (ip ∷ ips) rest cache =
    let (skip, asked) = should_skip w.now (peer_addr w ip) cache in
    let (found, after) = rest asked in
    if online && is_unknown w ip
    then (if skip then (found, after) else (peer_addr w ip ∷ found, after))
    else rest cache

-- The loop over the peers: the addresses to join, and the cache.
unfoldable pub to_join : Discovery → List Peer → PeerFailCache → List String × PeerFailCache
unfolding consider
to_join w [] cache = ([], cache)
to_join w (p ∷ ps) cache = consider w p.online p.tailscale_ips (λ c. to_join w ps c) cache

-- After a join with an error: the addresses whose host is not a member are marked.
unfoldable pub mark_missing : Discovery → List String → PeerFailCache → PeerFailCache
mark_missing w [] cache = cache
mark_missing w (a ∷ as') cache =
    let present = mark_missing w as' cache in
    let missing = mark_missing w as' (mark_failed w.later a cache) in
    if elem (w.host_of a) (addresses w.members_after) then present else missing

-- The second half: the addresses that answer are joined.
unfoldable pub probe_and_join :
    Discovery → List String → PeerFailCache → List String × PeerFailCache
unfolding probe_peers mark_missing
probe_and_join w [] cache = ([], cache)
probe_and_join w (a ∷ as') cache =
    let (up, probed) = probe_peers (w.dials (a ∷ as')) cache in
    if w.join_fails up then (up, mark_missing w up probed) else (up, probed)

-- discoverAndJoinTailscalePeers, after a status that parses: the addresses that Serf joins, and the cache
unfoldable pub discover_and_join : Discovery → PeerFailCache → List String × PeerFailCache
unfolding to_join probe_and_join
discover_and_join w cache =
    let (found, asked) = to_join w w.peers cache in probe_and_join w found asked
