-- ===== src/Networking.antt =====
-- DetectTailscaleIP, NewTailscaleManager and IsTailscaleAvailable of node/internal/networking/tailscale.go, over
-- the interfaces that package net lists.
pub mod Detected
use cluster_os.Prelude.{
  ℕ, String, Bool, true, false, ◌&&◌, ◌||◌, not, Option, none, some, List, [], ◌∷◌, ◌==◌, ◌⊎◌, inl,
  inr, if◌then◌else◌, is_some,
}
use cluster_os.Prelude.Errors.{caused}
use cluster_os.Prelude.Words.{has_prefix}
use cluster_os.Daemon.Bridge.{is_tailscale_ip}

-- The four bytes of an IPv4 address.
pub record Ip4 : Type 0 where
  pub first : ℕ
  pub second : ℕ
  pub third : ℕ
  pub fourth : ℕ

-- An interface: its flags, and its addresses if they can be read; `none` among them is not of an IPv4 network.
pub record Interface : Type 0 where
  pub name : String
  pub is_up : Bool
  pub is_loopback : Bool
  pub addrs : Option (List (Option Ip4))

abbrev pub in_range : Ip4 → Bool
in_range ip = is_tailscale_ip ip.first ip.second

-- The inner loop: the first address of Tailscale's range.
unfoldable pub first_in_range : List (Option Ip4) → Option Ip4
first_in_range [] = none
first_in_range (none ∷ rest) = first_in_range rest
first_in_range (some ip ∷ rest) =
    let later = first_in_range rest in if in_range ip then some ip else later

-- The address that one interface gives; one whose addresses cannot be read gives none.
unfoldable pub first_on : Option (List (Option Ip4)) → Option Ip4
unfolding first_in_range
first_on none = none
first_on (some addrs) = first_in_range addrs

-- A result that ends a loop, or what the rest of the loop gives.
abbrev pub found_or : Option Ip4 → Option Ip4 → Option Ip4
found_or none later = later
found_or (some ip) later = some ip

-- The first of the two outer loops, over interfaces with a name of Tailscale's.
unfoldable pub has_tailscale_name : String → Bool
has_tailscale_name name = has_prefix name "tailscale" || (has_prefix name "ts" || name == "utun")

unfoldable pub named_ip : List Interface → Option Ip4
unfolding first_on has_tailscale_name
named_ip [] = none
named_ip (i ∷ is) =
    let later = named_ip is in
    if not i.is_up
    then later
    else if not (has_tailscale_name i.name)
    then later
    else found_or (first_on i.addrs) later

-- The second, over all but WireGuard's.
unfoldable pub any_ip : List Interface → Option Ip4
unfolding first_on
any_ip [] = none
any_ip (i ∷ is) =
    let later = any_ip is in
    if not i.is_up || i.is_loopback
    then later
    else if has_prefix i.name "wg"
    then later
    else found_or (first_on i.addrs) later

abbrev pub or_none_found : Option Ip4 → String ⊎ Ip4
or_none_found none = inl "no Tailscale IP found - ensure Tailscale is running and connected"
or_none_found (some ip) = inr ip

-- DetectTailscaleIP: the error of listing the interfaces, or the interfaces
unfoldable pub detect_tailscale_ip : String ⊎ List Interface → String ⊎ Ip4
unfolding named_ip any_ip
detect_tailscale_ip (inl e) = inl (caused "failed to list interfaces" e)
detect_tailscale_ip (inr ifaces) = or_none_found (found_or (named_ip ifaces) (any_ip ifaces))

-- NewTailscaleManager: the local IP of the manager, or the error
unfoldable pub new_tailscale_manager : String ⊎ List Interface → String ⊎ Ip4
new_tailscale_manager listed = elim (detect_tailscale_ip listed) [
  | inl e ↦ inl (caused "failed to detect Tailscale IP" e)
  | inr ip ↦ inr ip
]

-- IsTailscaleAvailable
unfoldable pub is_tailscale_available : String ⊎ List Interface → Bool
is_tailscale_available listed = elim (detect_tailscale_ip listed) [ inl e ↦ false | inr ip ↦ true ]
