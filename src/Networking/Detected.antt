-- ===== src/Networking/Detected.antt =====
-- Which address DetectTailscaleIP of node/internal/networking/tailscale.go finds.
use cluster_os.Prelude.{
  ◌≡◌, refl, sym, ap, Bool, ◌&&◌, not, Option, none, some, List, [], ◌∷◌, ◌++◌, inl, inr,
  if◌then◌else◌, head?, Bool-cases,
}
use cluster_os.Prelude.Words.{has_prefix}
use cluster_os.Networking.{
  Ip4, Interface, in_range, first_in_range, first_on, found_or, or_none_found, has_tailscale_name,
  named_ip, any_ip, detect_tailscale_ip,
}

-- The IPv4 addresses of Tailscale's range among these.
abbrev pub ranged : List (Option Ip4) → List Ip4
ranged [] = []
ranged (none ∷ rest) = ranged rest
ranged (some ip ∷ rest) = let later = ranged rest in if in_range ip then ip ∷ later else later

abbrev pub read_addrs : Option (List (Option Ip4)) → List (Option Ip4)
read_addrs none = []
read_addrs (some addrs) = addrs

-- Those of the interfaces that pass a test.
unfoldable pub ranged_of : (Interface → Bool) → List Interface → List Ip4
ranged_of p [] = []
ranged_of p (i ∷ is) =
    let later = ranged_of p is in if p i then ranged (read_addrs i.addrs) ++ later else later

-- An interface that is up and has a name of Tailscale's, and one that is neither loopback nor WireGuard's.
unfoldable pub is_named : Interface → Bool
is_named i = i.is_up && has_tailscale_name i.name

unfoldable pub is_open : Interface → Bool
is_open i = i.is_up && (not i.is_loopback && not (has_prefix i.name "wg"))

head-append : (xs ys : List Ip4) → head? (xs ++ ys) ≡ found_or (head? xs) (head? ys)
head-append [] ys = refl
head-append (x ∷ xs) ys = refl

first_in_range-head : (addrs : List (Option Ip4)) → first_in_range addrs ≡ head? (ranged addrs)
unfolding first_in_range
first_in_range-head [] = refl
first_in_range-head (none ∷ rest) = first_in_range-head rest
first_in_range-head (some ip ∷ rest) = elim (Bool-cases (in_range ip)) [
  | inl h ↦ rw h refl
  | inr h ↦ rw h (first_in_range-head rest)
]

first_on-head : (o : Option (List (Option Ip4))) → first_on o ≡ head? (ranged (read_addrs o))
unfolding first_on
first_on-head none = refl
first_on-head (some addrs) = first_in_range-head addrs

-- One more interface in front.
joined :
    (o : Option (List (Option Ip4))) (later : Option Ip4) (ys : List Ip4)
    → later ≡ head? ys
    → found_or (first_on o) later ≡ head? (ranged (read_addrs o) ++ ys)
joined o later ys e = rw (e, first_on-head o) (sym (head-append (ranged (read_addrs o)) ys))

named_ip-head : (ifaces : List Interface) → named_ip ifaces ≡ head? (ranged_of is_named ifaces)
unfolding named_ip ranged_of is_named
named_ip-head [] = refl
named_ip-head (i ∷ is) = elim (Bool-cases i.is_up) [
  | inl up ↦ elim (Bool-cases (has_tailscale_name i.name)) [
    | inl named ↦
        rw (up, named) (joined i.addrs (named_ip is) (ranged_of is_named is) (named_ip-head is))
    | inr other ↦ rw (up, other) (named_ip-head is)
  ]
  | inr down ↦ rw (down) (named_ip-head is)
]

any_ip-head : (ifaces : List Interface) → any_ip ifaces ≡ head? (ranged_of is_open ifaces)
unfolding any_ip ranged_of is_open
any_ip-head [] = refl
any_ip-head (i ∷ is) = elim (Bool-cases i.is_up) [
  | inl up ↦ elim (Bool-cases i.is_loopback) [
    | inl loops ↦ rw (up, loops) (any_ip-head is)
    | inr real ↦ elim (Bool-cases (has_prefix i.name "wg")) [
      | inl guard ↦ rw (up, real, guard) (any_ip-head is)
      | inr other ↦
          rw (up, real, other) (joined i.addrs (any_ip is) (ranged_of is_open is) (any_ip-head is))
    ]
  ]
  | inr down ↦ rw (down) (any_ip-head is)
]

-- DetectTailscaleIP finds the first address of Tailscale's range on the interfaces that are up and have a name
-- of Tailscale's, and then on those that are up and neither loopback nor WireGuard's; it fails exactly if there
-- is none on either.
pub detect_tailscale_ip_first :
    (ifaces : List Interface)
    → detect_tailscale_ip (inr ifaces)
      ≡ or_none_found (head? (ranged_of is_named ifaces ++ ranged_of is_open ifaces))
unfolding detect_tailscale_ip
detect_tailscale_ip_first ifaces =
    rw (named_ip-head ifaces, any_ip-head ifaces)
      (ap or_none_found (sym (head-append (ranged_of is_named ifaces) (ranged_of is_open ifaces))))
