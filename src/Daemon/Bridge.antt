-- ===== src/Daemon/Bridge.antt =====
-- Nodes that bridge a LAN to the tailnet, and the routes through them: getPhysicalLANIP,
-- checkAndPublishBridgeGateway, syncBridgeGatewayRoute, mergeRoute and detectTailscaleIP of
-- node/internal/daemon/daemon.go, and isTailscaleIP of node/internal/networking/tailscale.go. What `ip`,
-- `tailscale` and package net answer are arguments.
pub mod Gateway
pub mod Range
use Prim.Native.Nat.{bit_and}
use cluster_os.Prelude.{
  ℕ, String, Bool, true, false, ◌&&◌, ◌||◌, not, Option, none, some, List, [], ◌∷◌, ◌++◌, ◌==◌, any,
  elem, eqb, if◌then◌else◌,
}
use cluster_os.Prelude.Maps.{Map}
use cluster_os.Prelude.Split.{trim_space}
use cluster_os.Prelude.Words.{has_prefix}
use cluster_os.Discovery.Member.{Member, tag, get_alive_members}
use cluster_os.Discovery.Tags.{SetTags, update_tags, delete_tags}
use cluster_os.Discovery.Lan.{IpClass, invalid, loopback, multicast, tailscale, unicast, is_valid}

-- isTailscaleIP of the first two bytes of an IPv4 address
unfoldable pub is_tailscale_ip : ℕ → ℕ → Bool
is_tailscale_ip a b = eqb a 100 && eqb (bit_and b 0xC0) 64

-- detectTailscaleIP, for the output of `tailscale ip -4` if it succeeds
unfoldable pub detect_tailscale_ip : (String → IpClass) → Option String → String
detect_tailscale_ip class none = ""
detect_tailscale_ip class (some output) =
    let ip = trim_space output in if is_valid (class ip) then ip else ""

-- mergeRoute
unfoldable pub merge_route : List String → String → List String
merge_route existing new_route =
    if elem new_route existing then existing else existing ++ (new_route ∷ [])

-- An address of an interface: its text, and whether it is IPv4 and whether it is loopback.
pub record NicAddr : Type 0 where
  pub text : String
  pub is_ip4 : Bool
  pub loops : Bool

pub record Nic : Type 0 where
  pub name : String
  pub is_up : Bool
  pub is_loopback : Bool
  pub addrs : List NicAddr

-- Whether an interface is an overlay or one of the containers'.
unfoldable pub is_virtual : String → Bool
is_virtual name =
    any (λ p. has_prefix name p)
      ("tailscale" ∷ "wg" ∷ "tun" ∷ "utun" ∷ "cni" ∷ "flannel" ∷ "veth" ∷ "docker" ∷ [])

unfoldable pub first_lan : List NicAddr → Option String
first_lan [] = none
first_lan (a ∷ as') =
    let rest = first_lan as' in
    if not a.is_ip4 || a.loops
    then rest
    else if any (λ p. has_prefix a.text p) ("100." ∷ "169.254." ∷ "10.42." ∷ "10.43." ∷ [])
    then rest
    else some a.text

-- getPhysicalLANIP
unfoldable pub get_physical_lan_ip : List Nic → String
unfolding first_lan
get_physical_lan_ip [] = ""
get_physical_lan_ip (i ∷ is) =
    let rest = get_physical_lan_ip is in
    if not i.is_up || i.is_loopback
    then rest
    else if is_virtual i.name
    then rest
    else elim (first_lan i.addrs) [ none ↦ rest | some ip ↦ ip ]

-- Whether an address is one on the LAN; one that is missing is invalid.
unfoldable pub is_lan : IpClass → Bool
is_lan invalid = false
is_lan loopback = false
is_lan multicast = true
is_lan tailscale = false
is_lan unicast = true

unfoldable pub has_lan_peers : (String → IpClass) → List Member → Bool
has_lan_peers class members = any (λ m. is_lan (class m.addr)) (get_alive_members members)

-- checkAndPublishBridgeGateway: this node's tags after it, for its Tailscale IP and its LAN IP or ""
unfoldable pub check_and_publish_bridge_gateway :
    SetTags → (String → IpClass) → String → String → List Member → Map String → Map String
check_and_publish_bridge_gateway set_tags class ts_ip lan_ip members tags =
    let current = tag "ts-bridge-gw" tags in
    if ts_ip == ""
    then tags
    else if not (has_lan_peers class members)
    then (if current == "" then tags else (delete_tags set_tags ("ts-bridge-gw" ∷ []) tags).0)
    else if lan_ip == ""
    then tags
    else if current == lan_ip
    then tags
    else (update_tags set_tags (("ts-bridge-gw", lan_ip) ∷ []) tags).0

-- The first gateway that the alive members name.
unfoldable pub first_gateway : (String → IpClass) → List Member → Option String
first_gateway class [] = none
first_gateway class (m ∷ ms) =
    let rest = first_gateway class ms in
    let gw = tag "ts-bridge-gw" m.tags in
    if gw == "" || not (is_valid (class gw)) then rest else some gw

-- What `ip route replace` leaves, by whether it succeeds; without a gateway the route is deleted.
unfoldable pub routed : (String → Bool) → Option String → Option String → Option String
routed replaces none route = none
routed replaces (some gw) route = if replaces gw then some gw else route

-- syncBridgeGatewayRoute: the gateway of the route to 100.64.0.0/10, if there is that route
unfoldable pub sync_bridge_gateway_route :
    (String → IpClass) → (String → Bool) → String → List Member → Option String → Option String
unfolding first_gateway routed
sync_bridge_gateway_route class replaces ts_ip members route =
    if ts_ip == ""
    then routed replaces (first_gateway class (get_alive_members members)) route
    else route
