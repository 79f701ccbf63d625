-- ===== src/Examples/Bridge.antt =====
-- A node on a LAN and in the tailnet, and one on the LAN alone.
use cluster_os.Prelude.{
  ℕ, ◌+◌, ◌*◌, ◌/◌, String, ◌≡◌, refl, Bool, true, false, Option, none, some, List, [], ◌∷◌, eqb,
  ltb, eq_iff, false≢true, arith, if◌then◌else◌, ◌==◌,
}
use cluster_os.Discovery.Member.{Member, alive}
use cluster_os.Discovery.Tags.{SetTags}
use cluster_os.Discovery.Lan.{IpClass, tailscale, unicast}
use cluster_os.Daemon.Bridge.{
  check_and_publish_bridge_gateway, has_lan_peers, sync_bridge_gateway_route, is_tailscale_ip,
}
use cluster_os.Daemon.Bridge.Gateway.{bridged_route}

abbrev set_tags : SetTags
set_tags old new = (new, true)

abbrev class : String → IpClass
class ip = if ip == "100.64.0.1" then tailscale else unicast

abbrev lone : Member
lone = record { name = "lone"; addr = "192.168.1.9"; port = 7946; status = alive; tags = [] }

abbrev bridge : Member
bridge = record {
  name = "bridge";
  addr = "100.64.0.1";
  port = 7946;
  status = alive;
  tags = check_and_publish_bridge_gateway set_tags class "100.64.0.1" "192.168.1.5" (lone ∷ []) [];
}

bridged_route_example :
    sync_bridge_gateway_route class (λ gw. true) "" (bridge ∷ lone ∷ []) none
    ≡ (if has_lan_peers class (lone ∷ []) then some "192.168.1.5" else none)
unfolding cluster_os.Discovery.Lan.is_valid cluster_os.Discovery.Member.get_alive_members
    cluster_os.Prelude.filter cluster_os.Daemon.Bridge.first_gateway cluster_os.Discovery.Member.tag
    cluster_os.Prelude.Maps.lookup
bridged_route_example =
    bridged_route set_tags class (λ gw. true) "100.64.0.1" "192.168.1.5" (lone ∷ [])
      (bridge ∷ lone ∷ []) [] (lone ∷ []) bridge [] none (λ old new. refl)
      (λ e. false≢true ((eq_iff "100.64.0.1" "").1 e))
      (λ e. false≢true ((eq_iff "192.168.1.5" "").1 e)) refl refl refl refl refl refl
