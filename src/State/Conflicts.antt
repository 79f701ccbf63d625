-- ===== src/State/Conflicts.antt =====
-- FindIPConflicts of node/internal/state/types.go reports exactly the nodes that share an IP.
use cluster_os.Prelude.{
  String, ◌≡◌, ◌≢◌, false, Option, none, some, List, [], ◌∷◌, ◌==◌, eq_iff, arith, Option-cases,
  Bool-cases, inl, inr, elem,
}
use cluster_os.Prelude.Maps.{
  Map, KeysOnce, keys, lookup, insert, lookup-insert, Within, Within-self,
}
use cluster_os.State.{Ip, Node, ClusterState, find_ip_conflicts, ip_conflicts}
use cluster_os.State.Invariant.{IsWf}

-- The text of the IP of a node, if the node is there and has one.
abbrev pub ip_text : (Ip → String) → Option Node → Option String
ip_text ip_string none = none
ip_text ip_string (some n) = elim n.tailscale_ip [ none ↦ none | some ip ↦ some (ip_string ip) ]

module _ (ip_string : Ip → String) (m : Map Node) where
  -- Two different nodes have IPs of the same text.
  abbrev pub SharesIp : String → String → Type 0
  SharesIp a b =
      (a ≢ b)
      × ((t : String) × (ip_text ip_string (lookup a m) ≡ some t)
          × (ip_text ip_string (lookup b m) ≡ some t))

  abbrev pub AllShare : List (String × String) → Type 0
  AllShare [] = Unit
  AllShare ((a, b) ∷ ps) = SharesIp a b × AllShare ps

  -- The index holds nodes of the map that the loop has passed, under the texts of their IPs.
  abbrev Indexed : Map Node → Map String → Type 0
  Indexed rest seen =
      (t first : String)
      → lookup t seen ≡ some first
      → (ip_text ip_string (lookup first m) ≡ some t) × (elem first (keys rest) ≡ false)

  passed :
      (id : String) (n : Node) (rest : Map Node) (seen : Map String)
      → Indexed ((id, n) ∷ rest) seen
      → Indexed rest seen
  unfolding elem
  passed id n rest seen indexed t first h =
      ((indexed t first h).0, ground (arith, (indexed t first h).1))

  -- A node with a text that the index does not have joins the index.
  Indexed-insert :
      (id text : String) (rest : Map Node) (seen : Map String)
      → ip_text ip_string (lookup id m) ≡ some text
      → elem id (keys rest) ≡ false
      → Indexed rest seen
      → Indexed rest (insert text id seen)
  Indexed-insert id text rest seen own fresh indexed t first h = elim (Bool-cases (text == t)) [
    | inl e ↦ ground (arith, lookup-insert text t id seen, eq_iff text t)
    | inr e ↦ indexed t first (ground (arith, lookup-insert text t id seen))
  ]

  shares_first :
      (id text first : String) (n : Node) (rest : Map Node) (seen : Map String)
      → ip_text ip_string (lookup id m) ≡ some text
      → lookup text seen ≡ some first
      → Indexed ((id, n) ∷ rest) seen
      → SharesIp first id
  unfolding elem
  shares_first id text first n rest seen own found indexed = (
    λ e. ground (arith, (indexed text first found).1, eq_iff id first),
    (text, (indexed text first found).0, own),
  )

  conflicts_share :
      (rest : Map Node) (seen : Map String)
      → KeysOnce rest
      → Within m rest
      → Indexed rest seen
      → AllShare (ip_conflicts ip_string rest seen)
  unfolding ip_conflicts
  conflicts_share [] seen once within indexed = tt
  conflicts_share ((id, node) ∷ rest) seen once within indexed =
      let later = passed id node rest seen indexed in
      elim (Option-cases node.tailscale_ip) [
        | inl e ↦ rw (e, ip_conflicts) (conflicts_share rest seen once.1 within.1 later)
        | inr (ip, e) ↦
            let own : ip_text ip_string (lookup id m) ≡ some (ip_string ip) =
              ground (arith, within.0) in
            elim (Option-cases (lookup (ip_string ip) seen)) [
              | inl none_yet ↦
                  rw (e, none_yet, ip_conflicts)
                    (conflicts_share rest (insert (ip_string ip) id seen) once.1 within.1
                      (Indexed-insert id (ip_string ip) rest seen own once.0 later))
              | inr (first, found) ↦
                  rw (e, found, ip_conflicts)
                    (
                      shares_first id (ip_string ip) first node rest seen own found indexed,
                      conflicts_share rest seen once.1 within.1 later,
                    )
            ]
      ]

-- Every reported pair is of two different nodes of the state whose IPs have one text.
pub find_ip_conflicts_sound :
    (ip_string : Ip → String) (cs : ClusterState)
    → IsWf cs
    → AllShare ip_string cs.nodes (find_ip_conflicts ip_string cs)
unfolding find_ip_conflicts lookup
find_ip_conflicts_sound ip_string cs w =
    conflicts_share ip_string cs.nodes cs.nodes [] w.nodes_once (Within-self cs.nodes w.nodes_once)
      (λ t first h. absurd (ground arith))

-- What a loop that reports nothing says of a node that it passes.
abbrev Alone : (Ip → String) → Map Node → Map String → String → String → Type 0
Alone ip_string rest seen a t =
    (lookup t seen ≡ none) × ((b : String) → ip_text ip_string (lookup b rest) ≡ some t → a ≡ b)

no_conflicts :
    (ip_string : Ip → String) (rest : Map Node) (seen : Map String) (a t : String)
    → ip_conflicts ip_string rest seen ≡ []
    → ip_text ip_string (lookup a rest) ≡ some t
    → Alone ip_string rest seen a t
unfolding ip_conflicts lookup
no_conflicts ip_string [] seen a t h k = ground arith
no_conflicts ip_string ((id, node) ∷ rest) seen a t h k = elim (Option-cases node.tailscale_ip) [
  | inl e ↦
      let later =
        no_conflicts ip_string rest seen a t (ground arith) (ground (arith, eq_iff id a)) in
      (later.0, λ b q. later.1 b (ground (arith, eq_iff id b)))
  | inr (ip, e) ↦
      let text = ip_string ip in
      let later = no_conflicts ip_string rest (insert text id seen) in
      let new = lookup-insert text t id seen in
      elim (Bool-cases (id == a)) [
        | inl same ↦ (
          ground arith,
          λ b q. elim (Bool-cases (id == b)) [
            | inl also ↦ ground (arith, eq_iff id a, eq_iff id b)
            | inr other ↦ ground (arith, later b t, new, eq_iff text t)
          ],
        )
        | inr other ↦
            let rest_alone = later a t (ground arith) (ground arith) in
            (
              ground (arith, rest_alone.0, new),
              λ b q. elim (Bool-cases (id == b)) [
                | inl also ↦ ground (arith, rest_alone.0, new, eq_iff text t)
                | inr apart ↦ rest_alone.1 b (ground arith)
              ],
            )
      ]
]

-- If two different nodes have IPs of the same text, then something is reported.
pub find_ip_conflicts_complete :
    (ip_string : Ip → String) (cs : ClusterState) (a b : String)
    → SharesIp ip_string cs.nodes a b
    → find_ip_conflicts ip_string cs ≢ []
unfolding find_ip_conflicts
find_ip_conflicts_complete ip_string cs a b shares none_reported =
    shares.0
      ((no_conflicts ip_string cs.nodes [] a shares.1.0 none_reported shares.1.1).1 b shares.1.2)
