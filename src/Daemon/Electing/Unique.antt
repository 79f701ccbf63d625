-- ===== src/Daemon/Electing/Unique.antt =====
-- Two nodes that elect at the same time: runElecting of node/internal/daemon/daemon.go on each of them.
use cluster_os.Prelude.{
  ◌≤◌, String, ◌≡◌, refl, sym, ap, ◌∙◌, true, false, ◌&&◌, List, inl, inr, Bool-cases, ◌==◌, eq_iff,
  elem, length, and_true, false≢true,
}
use cluster_os.Discovery.Member.{get_alive_members}
use cluster_os.Daemon.Node.{Daemon, Host, phase_text, get_leader_tag}
use cluster_os.Daemon.Election.{compute_reachable_leader, find_running_leader, strip_dirty}
use cluster_os.Daemon.Election.Winner.{alive_names}
use cluster_os.Daemon.Election.Agreement.{AllEligible, reachable_leaders_agree}
use cluster_os.Daemon.ControlPlane.{is_in_cp_list}
use cluster_os.Daemon.Electing.{Round, Ballot, decide, clear_stale_tags, run_electing}
use cluster_os.Daemon.Electing.Outcome.{Rounds, run_electing_ends, decide_exact}

-- A node provisions exactly if it leads.
provisions-is_leader :
    (host : Host) (ballot : Ballot) (d : Daemon)
    → (phase_text (decide host ballot d).phase == "provisioning") ≡ (decide host ballot d).is_leader
unfolding phase_text
provisions-is_leader host ballot d =
    let running = find_running_leader ballot.healthz ballot.members in
    let wins =
      (compute_reachable_leader ballot.healthz host.version host.node_name ballot.members).1 in
    let listed =
      is_in_cp_list (get_leader_tag "cp-servers" running ballot.members) ballot.local_ip in
    let exact = decide_exact host ballot d in
    ap (λ p. phase_text p == "provisioning") exact.2
    ∙ (elim (Bool-cases (running == "")) [
      | inl e ↦ elim (Bool-cases wins) [ inl f ↦ rw (e, f) refl | inr f ↦ rw (e, f) refl ]
      | inr e ↦ elim (Bool-cases listed) [ inl f ↦ rw (e, f) refl | inr f ↦ rw (e, f) refl ]
    ]
        ∙ sym exact.1)

-- A leader has elected itself.
leads-name :
    (host : Host) (ballot : Ballot) (d : Daemon)
    → (decide host ballot d).is_leader ≡ true
    → (compute_reachable_leader ballot.healthz host.version host.node_name ballot.members).0
      ≡ host.node_name
unfolding compute_reachable_leader
leads-name host ballot d leads =
    let elected =
      compute_reachable_leader ballot.healthz host.version host.node_name ballot.members in
    let wins : elected.1 ≡ true = (and_true _ _ (sym (decide_exact host ballot d).1 ∙ leads)).1 in
    (eq_iff elected.0 host.node_name).0 wins

-- Two nodes of different names go through runElecting, each for long enough and with its own view of the
-- members, probes and version. If their views have the same alive names, both are among them, and each may
-- elect every alive member of its view, then they do not both become leaders, and do not both go on to
-- provision a cluster, whatever running leaders they find.
pub at_most_one_provisions :
    (host_a host_b : Host) (rounds_a rounds_b : List Round) (a b : Ballot) (d_a d_b : Daemon)
    → (host_a.node_name == host_b.node_name) ≡ false
    → Rounds 0 rounds_a
    → 16 ≤ length rounds_a
    → Rounds 0 rounds_b
    → 16 ≤ length rounds_b
    → ((s : String) → elem s (alive_names a.members) ≡ elem s (alive_names b.members))
    → elem host_a.node_name (alive_names a.members) ≡ true
    → elem host_b.node_name (alive_names b.members) ≡ true
    → AllEligible a.healthz (strip_dirty host_a.version) (get_alive_members a.members)
    → AllEligible b.healthz (strip_dirty host_b.version) (get_alive_members b.members)
    → let after_a = (run_electing host_a rounds_a a d_a).0 in
      let after_b = (run_electing host_b rounds_b b d_b).0 in
      ((after_a.is_leader && after_b.is_leader) ≡ false)
      × ((phase_text after_a.phase == "provisioning" && phase_text after_b.phase == "provisioning")
          ≡ false)
at_most_one_provisions host_a host_b rounds_a rounds_b a b d_a d_b differ paced_a long_a paced_b
      long_b same in_a in_b all_a all_b =
    let here = clear_stale_tags host_a d_a in
    let there = clear_stale_tags host_b d_b in
    let agree =
      reachable_leaders_agree a.healthz b.healthz host_a.version host_b.version host_a.node_name
        host_b.node_name a.members b.members same in_a in_b all_a all_b in
    let one : ((decide host_a a here).is_leader && (decide host_b b there).is_leader) ≡ false =
      elim (Bool-cases ((decide host_a a here).is_leader && (decide host_b b there).is_leader)) [
        | inr e ↦ e
        | inl e ↦
            let both = and_true _ _ e in
            let equal =
              sym (leads-name host_a a here both.0) ∙ (agree ∙ leads-name host_b b there both.1) in
            absurd (false≢true (sym differ ∙ (eq_iff host_a.node_name host_b.node_name).1 equal))
      ] in
    rw
      (
        run_electing_ends host_a rounds_a a d_a paced_a long_a,
        run_electing_ends host_b rounds_b b d_b paced_b long_b,
        provisions-is_leader host_a a here,
        provisions-is_leader host_b b there,
      )
      (one, one)
