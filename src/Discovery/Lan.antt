-- ===== src/Discovery/Lan.antt =====
-- node/internal/discovery/lan.go. What `ip`, avahi-browse, the interfaces and TCP probes answer are
-- arguments, and so is what package net makes of an address.
pub mod Candidates
pub mod Subnets
use cluster_os.Prelude.{
  ℕ, zero, suc, ◌+◌, ◌-◌, ◌%◌, ◌^◌, String, Bool, true, false, ◌&&◌, ◌||◌, not, Option, none, some,
  List, [], ◌∷◌, ◌++◌, map, ◌==◌, ◌⊎◌, inl, inr, eqb, leb, ltb, elem, filter, head?, if◌then◌else◌,
}
use cluster_os.Prelude.Errors.{after_text}
use cluster_os.Prelude.Words.{contains, has_prefix}
use cluster_os.Prelude.Fields.{fields, split_at}
use cluster_os.Prelude.Maps.{Map, lookup, insert}

-- What net.ParseIP and the tests on its answer say of a text: no address, or one of these kinds.
pub data IpClass : Type 0 where
  invalid : IpClass
  loopback : IpClass
  multicast : IpClass
  tailscale : IpClass
  unicast : IpClass

-- A peer on the wire: neither loopback nor multicast.
unfoldable pub is_usable : IpClass → Bool
is_usable invalid = false
is_usable loopback = false
is_usable multicast = false
is_usable tailscale = true
is_usable unicast = true

-- The first field of a line, if it has the right class.
first_field : (String → Bool) → List String → List String → List String
first_field ok [] rest = rest
first_field ok (f ∷ fs) rest = if ok f then f ∷ rest else rest

-- The loop of arpNeighbours over the lines of `ip neigh show`.
unfoldable pub arp_neighbours : (String → IpClass) → List String → List String
unfolding first_field
arp_neighbours class [] = []
arp_neighbours class (line ∷ lines) =
    let rest = arp_neighbours class lines in
    if contains line "FAILED" || contains line "INCOMPLETE"
    then rest
    else first_field (λ f. is_usable (class f)) (fields line) rest

-- The eighth part of a record of avahi-browse with at least nine.
unfoldable pub mdns_ip : List String → Option String
mdns_ip (a ∷ b ∷ c ∷ d ∷ e ∷ f ∷ g ∷ ip ∷ i ∷ rest) = some ip
mdns_ip _ = none

unfoldable pub is_valid : IpClass → Bool
is_valid invalid = false
is_valid loopback = true
is_valid multicast = true
is_valid tailscale = true
is_valid unicast = true

-- The loop of mdnsPeers over the lines of avahi-browse, with the addresses seen; 59 is ";".
unfoldable pub mdns_peers : (String → IpClass) → List String → List String → List String
unfolding mdns_ip
mdns_peers class seen [] = []
mdns_peers class seen (line ∷ lines) =
    let skipped = mdns_peers class seen lines in
    if has_prefix line "="
    then elim (mdns_ip (split_at 59 line)) [
      | none ↦ skipped
      | some ip ↦
          let taken = mdns_peers class (ip ∷ seen) lines in
          if is_valid (class ip) && not (elem ip seen) then ip ∷ taken else skipped
    ]
    else skipped

-- A net.IPNet: the IPv4 address, if it is one, and the two numbers of Mask.Size().
pub record IpNet : Type 0 where
  pub ip4 : Option ℕ
  pub ones : ℕ
  pub bits : ℕ

-- The addresses base + i for i from a number on, so many of them, as uint32.
unfoldable pub hosts_from : ℕ → ℕ → ℕ → List ℕ
hosts_from base i zero = []
hosts_from base i (suc n) = ((base + i) % 2 ^ 32) ∷ hosts_from base (suc i) n

-- expandSubnet, as numbers; maxSubnetHosts is 254. A host part of 63 bits or more, for which Go's int wraps
-- around, gives no hosts there and here.
unfoldable pub expand_subnet : IpNet → List ℕ
unfolding hosts_from
expand_subnet network =
    let num_hosts = 2 ^ (network.bits - network.ones) - 2 in
    if leb num_hosts 0 || ltb 254 num_hosts
    then []
    else elim network.ip4 [ none ↦ [] | some base ↦ hosts_from base 1 num_hosts ]

-- An interface as net.Interfaces and Addrs give it: an address stands with its own host part, and with
-- whether it is loopback.
pub record Interface : Type 0 where
  pub name : String
  pub is_up : Bool
  pub is_loopback : Bool
  pub addrs : List (IpNet × Bool)

unfoldable pub small_networks : List (IpNet × Bool) → List IpNet
small_networks [] = []
small_networks ((network, loops) ∷ rest) =
    let later = small_networks rest in
    elim network.ip4 [
      | none ↦ later
      | some ip ↦
          if loops
          then later
          else if leb (network.bits - network.ones) 8
          then network ∷ later
          else later
    ]

-- localPhysicalSubnets
unfoldable pub local_physical_subnets : List Interface → List IpNet
unfolding small_networks
local_physical_subnets [] = []
local_physical_subnets (i ∷ is) =
    let rest = local_physical_subnets is in
    if not i.is_up || i.is_loopback
    then rest
    else if has_prefix i.name "tailscale"
        || (has_prefix i.name "wg" || (has_prefix i.name "utun" || has_prefix i.name "tun"))
    then rest
    else small_networks i.addrs ++ rest

-- The hosts that scanLocalSubnets probes, in the order of the subnets.
unfoldable pub probed_hosts : List IpNet → List ℕ
probed_hosts [] = []
probed_hosts (network ∷ rest) = expand_subnet network ++ probed_hosts rest

-- The loop of `add` in scanAndJoin; what was seen is what was taken.
unfoldable pub add : List String → List String → List String
add [] candidates = candidates
add (ip ∷ ips) candidates =
    let fresh = add ips (candidates ++ (ip ∷ [])) in
    let again = add ips candidates in if elem ip candidates then again else fresh

-- The candidates of scanAndJoin.
unfoldable pub lan_candidates : List String → List String → List String → List String
unfolding add
lan_candidates arp mdns subnets = add subnets (add mdns (add arp []))

-- scanAndJoin up to the join: the peers
unfoldable pub scan_and_join : List String → List String → List String → List String
unfolding lan_candidates
scan_and_join arp mdns subnets = map (λ ip. after_text ip ":7946") (lan_candidates arp mdns subnets)

-- Whether watchNeighbours probes for a line, and whom: `recent` holds when it last joined an address.
unfoldable pub watch_first : (String → IpClass) → ℕ → Map ℕ → Option String → Option String
watch_first class now recent none = none
watch_first class now recent (some ip) = elim (class ip) [
  | invalid ↦ none
  | loopback ↦ none
  | multicast ↦ none
  | tailscale ↦ none
  | unicast ↦ elim (lookup ip recent) [
    | none ↦ some ip
    | some last ↦ if ltb (now - last) 300000000000 then none else some ip
  ]
]

unfoldable pub watch_line : (String → IpClass) → ℕ → Map ℕ → String → Option String
unfolding watch_first
watch_line class now recent line =
    if not (contains line "REACHABLE") && not (contains line "STALE")
    then none
    else watch_first class now recent (head? (fields line))

-- The end of such a probe: an address that answers is joined, and a join without error of some node is kept.
unfoldable pub watch_joined : ℕ → Bool → String ⊎ ℕ → String → Map ℕ → Map ℕ
watch_joined now answers (inl e) ip recent = recent
watch_joined now answers (inr n) ip recent =
    if answers && ltb 0 n then insert ip now recent else recent
