-- ===== src/Examples/Election.antt =====
-- Elections among two or three members, and a merge of two clusters.
use cluster_os.Prelude.{
  ℕ, String, ◌≡◌, ◌≢◌, ◌⊎◌, ◌↔◌, inl, inr, refl, sym, Bool, true, false, Option, none, some, List,
  [], ◌∷◌, elem, str_ltb, false≢true, eq_iff, arith,
}
use cluster_os.Prelude.Maps.{Map}
use cluster_os.Discovery.Member.{Member, MemberStatus, alive}
use cluster_os.Daemon.Election.{
  Healthz, compute_leader, compute_reachable_leader, find_competing_leader,
}
use cluster_os.Daemon.Election.Winner.{alive_names}
use cluster_os.Daemon.Election.Agreement.{reachable_leaders_agree, one_leader_yields}

abbrev peer : String → Map String → Member
peer name tags = record { name = name; addr = "10.0.0.1"; port = 7946; status = alive; tags = tags }

abbrev all_healthy : Healthz
all_healthy host = some 200

abbrev a : Member
a = peer "a" (("ver", "v1") ∷ [])

abbrev b : Member
b = peer "b" (("ver", "v1") ∷ [])

same_names : (s : String) → elem s (alive_names (a ∷ b ∷ [])) ≡ elem s (alive_names (b ∷ a ∷ []))
unfolding elem cluster_os.Discovery.Member.get_alive_members cluster_os.Prelude.filter
same_names s = ground arith

reachable_leaders_agree_example :
    (compute_reachable_leader all_healthy "v1" "a" (a ∷ b ∷ [])).0
    ≡ (compute_reachable_leader all_healthy "v1" "b" (b ∷ a ∷ [])).0
unfolding elem cluster_os.Discovery.Member.get_alive_members cluster_os.Prelude.filter
    cluster_os.Daemon.Election.version_mismatch cluster_os.Prelude.Maps.lookup
    cluster_os.Daemon.Election.is_ghost
reachable_leaders_agree_example =
    reachable_leaders_agree all_healthy all_healthy "v1" "v1" "a" "b" (a ∷ b ∷ []) (b ∷ a ∷ [])
      same_names refl refl (refl, (refl, tt)) (refl, (refl, tt))

abbrev leading : String → String → Member
leading name nodes =
    peer name
      (("phase", "ready") ∷ ("k3s-server", "https://10.0.0.1:6443") ∷ ("k3s-nodes", nodes) ∷ [])

abbrev name_a : String
name_a = "a"

abbrev name_b : String
name_b = "b"

a_is_not_b : name_a ≢ name_b
a_is_not_b e = false≢true ((eq_iff name_a name_b).1 e)

one_leader_yields_example :
    ((find_competing_leader "a" 2 (leading "a" "2" ∷ leading "b" "3" ∷ []) ≡ "b")
      × (find_competing_leader "b" 3 (leading "a" "2" ∷ leading "b" "3" ∷ []) ≡ ""))
    ⊎ ((find_competing_leader "a" 2 (leading "a" "2" ∷ leading "b" "3" ∷ []) ≡ "")
        × (find_competing_leader "b" 3 (leading "a" "2" ∷ leading "b" "3" ∷ []) ≡ "a"))
unfolding cluster_os.Prelude.filter cluster_os.Daemon.Election.is_established
    cluster_os.Prelude.Maps.lookup cluster_os.Prelude.Int.atoi
one_leader_yields_example =
    one_leader_yields (leading "a" "2") (leading "b" "3") 2 3
      (leading "a" "2" ∷ leading "b" "3" ∷ []) refl a_is_not_b refl refl
