-- ===== src/Daemon/Bridge/Gateway.antt =====
-- From the tag of a bridge to the route of a node without Tailscale: checkAndPublishBridgeGateway and
-- syncBridgeGatewayRoute of node/internal/daemon/daemon.go.
use cluster_os.Prelude.{
  String, ◌≡◌, ◌≢◌, refl, ap, sym, ◌∙◌, Bool, true, false, ◌||◌, not, Option, none, some, List, [],
  ◌∷◌, ◌++◌, ◌==◌, elem, eq_iff, arith, inl, inr, Bool-cases, if-both, if◌then◌else◌,
}
use mathlib.Core.Option.{some-ne-none}
use cluster_os.Prelude.Maps.{Map, lookup}
use cluster_os.Discovery.Member.{Member, tag, or_empty, get_alive_members}
use cluster_os.Discovery.Tags.{
  SetTags, Takes, update_tags, delete_tags, update_tags_exact, delete_tags_exact,
}
use cluster_os.Discovery.Lan.{IpClass, is_valid}
use cluster_os.Daemon.Bridge.{
  has_lan_peers, check_and_publish_bridge_gateway, first_gateway, routed, sync_bridge_gateway_route,
}

-- Serf takes every set of tags.
abbrev pub TakesAll : SetTags → Type 0
TakesAll set_tags = (existing tags : Map String) → (set_tags existing tags) ≡ (tags, true)

-- The gateway that a node names.
abbrev pub gateway : Map String → String
gateway tags = tag "ts-bridge-gw" tags

not-true : (b : Bool) → not b ≡ true → b ≡ false
not-true b h = ground arith

not-false : (b : Bool) → not b ≡ false → b ≡ true
not-false b h = ground arith

module _ (set_tags : SetTags) (takes : TakesAll set_tags) where
  Takes-all : Takes set_tags
  Takes-all = record { taken = λ existing tags h. ap (λ r. r.0) (takes existing tags) }

  updated :
      (ip : String) (tags : Map String)
      → gateway (update_tags set_tags (("ts-bridge-gw", ip) ∷ []) tags).0 ≡ ip
  unfolding tag lookup update_tags elem
  updated ip tags = ap or_empty (
      update_tags_exact set_tags (("ts-bridge-gw", ip) ∷ []) tags "ts-bridge-gw" Takes-all
        (refl, tt) (ap (λ r. r.1) (takes tags _)))

  deleted : (tags : Map String) → gateway (delete_tags set_tags ("ts-bridge-gw" ∷ []) tags).0 ≡ ""
  unfolding tag elem delete_tags
  deleted tags = ap or_empty (
      delete_tags_exact set_tags ("ts-bridge-gw" ∷ []) tags "ts-bridge-gw" Takes-all
        (ap (λ r. r.1) (takes tags _)))

  -- What a node with Tailscale names: its LAN IP while it has a LAN peer, and nothing otherwise.
  published :
      (class : String → IpClass) (ts_ip lan_ip : String) (members : List Member) (tags : Map String)
      → ts_ip ≢ ""
      → lan_ip ≢ ""
      → gateway (check_and_publish_bridge_gateway set_tags class ts_ip lan_ip members tags)
        ≡ (if has_lan_peers class members then lan_ip else "")
  unfolding check_and_publish_bridge_gateway
  published class ts_ip lan_ip members tags known lan =
      let other = λ (f : not (has_lan_peers class members) ≡ true).
        not-true (has_lan_peers class members) f in
      let same = λ (f : not (has_lan_peers class members) ≡ false).
        not-false (has_lan_peers class members) f in
      let P = λ (after : Map String).
        gateway after ≡ (if has_lan_peers class members then lan_ip else "") in
      if-both P (ts_ip == "") _ _ (λ e. absurd (known ((eq_iff ts_ip "").0 e)))
        (λ e.
          if-both P (not (has_lan_peers class members)) _ _
            (λ f.
              if-both P (gateway tags == "") _ _
                (λ g. rw (other f) ((eq_iff (gateway tags) "").0 g))
                (λ g. rw (other f) (deleted tags)))
            (λ f.
              if-both P (lan_ip == "") _ _ (λ g. absurd (lan ((eq_iff lan_ip "").0 g)))
                (λ g.
                  if-both P (gateway tags == lan_ip) _ _
                    (λ i. rw (same f) ((eq_iff (gateway tags) lan_ip).0 i))
                    (λ i. rw (same f) (updated lan_ip tags)))))

first_gateway-append :
    (class : String → IpClass) (before after : List Member)
    → first_gateway class before ≡ none
    → first_gateway class (before ++ after) ≡ first_gateway class after
unfolding first_gateway
first_gateway-append class [] after h = refl
first_gateway-append class (m ∷ ms) after h =
    elim (Bool-cases (gateway m.tags == "" || not (is_valid (class (gateway m.tags))))) [
      | inl e ↦ rw e (first_gateway-append class ms after (skipped e h))
      | inr e ↦ absurd (some-ne-none _ (stopped e h))
    ]
  where
    skipped :
        (gateway m.tags == "" || not (is_valid (class (gateway m.tags)))) ≡ true
        → first_gateway class (m ∷ ms) ≡ none
        → first_gateway class ms ≡ none
    skipped e h = sym (rw e refl) ∙ h

    stopped :
        (gateway m.tags == "" || not (is_valid (class (gateway m.tags)))) ≡ false
        → first_gateway class (m ∷ ms) ≡ none
        → some (gateway m.tags) ≡ none
    stopped e h = sym (rw e refl) ∙ h

-- The gateway that a list with one candidate gives.
first_gateway-one :
    (class : String → IpClass) (m : Member) (after : List Member)
    → first_gateway class after ≡ none
    → first_gateway class (m ∷ after) ≡ (
        if gateway m.tags == "" || not (is_valid (class (gateway m.tags)))
        then none
        else some (gateway m.tags))
unfolding first_gateway
first_gateway-one class m after h =
    ap
      (λ r.
        if gateway m.tags == "" || not (is_valid (class (gateway m.tags)))
        then r
        else some (gateway m.tags))
      h

chosen : (String → IpClass) → String → Option String
chosen class gw = if gw == "" || not (is_valid (class gw)) then none else some gw

chosen_valid :
    (class : String → IpClass) (ip : String)
    → ip ≢ ""
    → is_valid (class ip) ≡ true
    → chosen class ip ≡ some ip
unfolding chosen
chosen_valid class ip h v = elim (Bool-cases (ip == "")) [
  | inl e ↦ absurd (h ((eq_iff ip "").0 e))
  | inr e ↦ rw (e, v) refl
]

-- A node without Tailscale of its own, which sees one node that may name a gateway, routes the range of
-- Tailscale through the LAN IP of that node as long as that node has Tailscale and sees a peer on the LAN,
-- and has no such route otherwise. Serf takes the tags, the LAN IP is an address, and the route can be set.
pub bridged_route :
    (set_tags : SetTags) (class : String → IpClass) (replaces : String → Bool)
    (ts_ip lan_ip : String) (members seen before after : List Member) (bridge : Member)
    (tags : Map String) (route : Option String)
    → TakesAll set_tags
    → ts_ip ≢ ""
    → lan_ip ≢ ""
    → is_valid (class lan_ip) ≡ true
    → replaces lan_ip ≡ true
    → get_alive_members seen ≡ before ++ bridge ∷ after
    → first_gateway class before ≡ none
    → first_gateway class after ≡ none
    → bridge.tags ≡ check_and_publish_bridge_gateway set_tags class ts_ip lan_ip members tags
    → sync_bridge_gateway_route class replaces "" seen route
      ≡ (if has_lan_peers class members then some lan_ip else none)
unfolding sync_bridge_gateway_route chosen
bridged_route set_tags class replaces ts_ip lan_ip members seen before after bridge tags route takes
      known lan valid replaced alive none_before none_after same =
    let named =
      ap gateway same ∙ published set_tags takes class ts_ip lan_ip members tags known lan in
    let found : first_gateway class (get_alive_members seen)
        ≡ chosen class (if has_lan_peers class members then lan_ip else "") =
      ap (first_gateway class) alive
      ∙ (first_gateway-append class before (bridge ∷ after) none_before
          ∙ (first_gateway-one class bridge after none_after ∙ ap (chosen class) named)) in
    ap (λ o. routed replaces o route) found ∙ routes (has_lan_peers class members)
  where
    routes :
        (b : Bool)
        → routed replaces (chosen class (if b then lan_ip else "")) route
          ≡ (if b then some lan_ip else none)
    routes true =
        ap (λ o. routed replaces o route) (chosen_valid class lan_ip lan valid)
        ∙ rw (replaced, routed) refl
    routes false = refl
