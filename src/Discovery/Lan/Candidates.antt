-- ===== src/Discovery/Lan/Candidates.antt =====
-- The addresses that a LAN scan hands to Serf: scanAndJoin of node/internal/discovery/lan.go.
use cluster_os.Prelude.{
  String, ◌≡◌, refl, ap, subst, inl, inr, ◌∙◌, true, false, ◌||◌, List, [], ◌∷◌, ◌++◌, ◌==◌, elem,
  elem-append, eq_iff, arith, Bool-cases, if-both,
}
use cluster_os.Discovery.Lan.{add, lan_candidates}

-- No text stands twice.
abbrev pub IsOnce : List String → Type 0
IsOnce [] = Unit
IsOnce (s ∷ ss) = (elem s ss ≡ false) × IsOnce ss

IsOnce-snoc :
    (ss : List String) (s : String) → IsOnce ss → elem s ss ≡ false → IsOnce (ss ++ s ∷ [])
unfolding elem
IsOnce-snoc [] s h fresh = (refl, tt)
IsOnce-snoc (t ∷ ts) s h fresh = (
  elem-append t ts (s ∷ []) ∙ ground (arith, eq_iff s t, eq_iff t s, h.0, fresh),
  IsOnce-snoc ts s h.1 (ground arith),
)

add-IsOnce : (ips candidates : List String) → IsOnce candidates → IsOnce (add ips candidates)
unfolding add
add-IsOnce [] candidates h = h
add-IsOnce (ip ∷ ips) candidates h =
    if-both IsOnce (elem ip candidates) _ _ (λ e. add-IsOnce ips candidates h)
      (λ e. add-IsOnce ips _ (IsOnce-snoc candidates ip h e))

elem-add :
    (s : String) (ips candidates : List String)
    → elem s (add ips candidates) ≡ (elem s candidates || elem s ips)
unfolding add elem
elem-add s [] candidates = ground arith
elem-add s (ip ∷ ips) candidates =
    if-both (λ (r : List String). elem s r ≡ (elem s candidates || (ip == s || elem s ips)))
      (elem ip candidates) _ _ (λ e. elem-add s ips candidates ∙ repeated e)
      (λ e.
        elem-add s ips _
        ∙ (ap (λ x. x || elem s ips) (elem-append s candidates (ip ∷ [])) ∙ ground arith))
  where
    repeated :
        elem ip candidates ≡ true
        → (elem s candidates || elem s ips) ≡ (elem s candidates || (ip == s || elem s ips))
    repeated e = elim (Bool-cases (ip == s)) [
      | inl same ↦
          let there : elem s candidates ≡ true =
            subst (λ x. elem x candidates ≡ true) ((eq_iff ip s).0 same) e in
          ground arith
      | inr other ↦ ground arith
    ]

-- A scan probes through Serf every address that the neighbour table, mDNS or the subnets gave, no other, and
-- none twice.
pub candidates_exact :
    (arp mdns subnets : List String)
    → IsOnce (lan_candidates arp mdns subnets)
      × ((s : String)
          → elem s (lan_candidates arp mdns subnets)
            ≡ (elem s arp || (elem s mdns || elem s subnets)))
unfolding elem lan_candidates
candidates_exact arp mdns subnets = (
  add-IsOnce subnets _ (add-IsOnce mdns _ (add-IsOnce arp [] tt)),
  λ s. ground (
    arith,
    elem-add s subnets (add mdns (add arp [])),
    elem-add s mdns (add arp []),
    elem-add s arp [],
  ),
)
