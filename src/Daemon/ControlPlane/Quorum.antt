-- ===== src/Daemon/ControlPlane/Quorum.antt =====
-- How many control-plane servers selectCPServers (node/internal/daemon/daemon.go) chooses, and which.
use cluster_os.Prelude.{
  leb, ◌-◌, ◌*◌, ◌<◌, String, ◌≡◌, ◌⊎◌, inl, inr, refl, sym, true, false, ◌||◌, List, [], ◌∷◌, ◌==◌,
  if◌then◌else◌, length, elem, sort_strings, elem-sort_strings, sort_strings-IsSorted,
  length-sort_strings, str_ltb, not-str_ltb_of-elem, IsSorted, arith, eq_iff, Bool-cases,
}
use cluster_os.Discovery.Member.{Member, get_alive_members}
use cluster_os.Daemon.Election.{strip_dirty}
use cluster_os.Daemon.ControlPlane.{cp_extras, promoted, select_cp_servers}

-- The servers that a leader chooses.
module _ (my_ip version local_name : String) (members : List Member) where
  abbrev pub extras : List String
  extras = cp_extras (strip_dirty version) local_name (get_alive_members members)

  abbrev pub chosen : List String
  chosen = select_cp_servers my_ip version local_name members

length-promoted : (ss : List String) → length (promoted ss) ≡ (if leb 2 (length ss) then 2 else 0)
unfolding promoted
length-promoted [] = refl
length-promoted (a ∷ []) = refl
length-promoted (a ∷ b ∷ rest) = ground arith

-- There are three control-plane servers if at least two other members may be one, and one otherwise;
-- never two.
pub length-select_cp_servers :
    (my_ip version local_name : String) (members : List Member)
    → length (chosen my_ip version local_name members)
      ≡ (if leb 2 (length (extras my_ip version local_name members)) then 3 else 1)
unfolding select_cp_servers
length-select_cp_servers my_ip version local_name members =
    let xs = extras my_ip version local_name members in
    ground (arith, length-promoted (sort_strings xs), length-sort_strings xs)

-- If there are several chosen servers, a majority of them is left when one is lost.
pub tolerates_one_loss :
    (my_ip version local_name : String) (members : List Member)
    → 1 < length (chosen my_ip version local_name members)
    → length (chosen my_ip version local_name members)
      < 2 * (length (chosen my_ip version local_name members) - 1)
tolerates_one_loss my_ip version local_name members several =
    ground (arith, length-select_cp_servers my_ip version local_name members)

promoted_sub : (ss : List String) (s : String) → elem s (promoted ss) ≡ true → elem s ss ≡ true
unfolding promoted elem
promoted_sub [] s h = absurd (ground arith)
promoted_sub (a ∷ []) s h = absurd (ground arith)
promoted_sub (a ∷ b ∷ rest) s h = ground arith

promoted_least :
    (ss : List String) (s t : String)
    → IsSorted ss
    → elem s (promoted ss) ≡ true
    → elem t ss ≡ true
    → (elem t (promoted ss) ≡ true) ⊎ (str_ltb t s ≡ false)
unfolding promoted elem
promoted_least [] s t sorted hs ht = absurd (ground arith)
promoted_least (a ∷ []) s t sorted hs ht = absurd (ground arith)
promoted_least (a ∷ b ∷ rest) s t sorted hs ht = elim (Bool-cases (a == t || (b == t || false))) [
  | inl e ↦ inl e
  | inr e ↦
      let t_in : elem t rest ≡ true = ground arith in
      elim (Bool-cases (a == s)) [
        | inl f ↦ inr (rw (sym ((eq_iff a s).0 f)) (not-str_ltb_of-elem a t rest sorted.0.1 t_in))
        | inr f ↦ inr (
            rw (sym ((eq_iff b s).0 (ground arith))) (not-str_ltb_of-elem b t rest sorted.1.0 t_in))
      ]
]

-- The chosen servers besides the leader are members that may be one, and each member that may be one
-- and is not chosen has an IP that is not below any of them.
pub select_cp_servers_least :
    (my_ip version local_name : String) (members : List Member) (s t : String)
    → elem s (promoted (sort_strings (extras my_ip version local_name members))) ≡ true
    → elem t (extras my_ip version local_name members) ≡ true
    → (elem s (extras my_ip version local_name members) ≡ true)
      × ((elem t (chosen my_ip version local_name members) ≡ true) ⊎ (str_ltb t s ≡ false))
unfolding select_cp_servers elem
select_cp_servers_least my_ip version local_name members s t hs ht =
    let xs = extras my_ip version local_name members in
    (
      ground (arith, promoted_sub (sort_strings xs) s hs, elem-sort_strings s xs),
      ground (
        arith,
        promoted_least (sort_strings xs) s t (sort_strings-IsSorted xs) hs
            (rw elem-sort_strings ht),
      ),
    )
