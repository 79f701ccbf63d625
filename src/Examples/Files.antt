-- ===== src/Examples/Files.antt =====
-- A kubeconfig whose server is a Tailscale address.
use cluster_os.Prelude.{String, ◌≡◌, refl, none, some}
use cluster_os.K3s.Files.{patch_kubeconfig}

abbrev before : String
before = "clusters:\n  server: https://100.64.0.7:6443\n  name: default\n"

abbrev after : String
after = "clusters:\n  server: https://127.0.0.1:6443\n  name: default\n"

patched : patch_kubeconfig (some before) ≡ some after
unfolding patch_kubeconfig cluster_os.K3s.Files.patch_lines cluster_os.Prelude.Fields.split_at
    cluster_os.K3s.Files.patch_line cluster_os.K3s.Files.is_server_line
    cluster_os.Prelude.Words.has_prefix cluster_os.Prelude.Split.trim_space
    cluster_os.Prelude.Words.contains cluster_os.Prelude.Errors.after_text
    cluster_os.K3s.Files.indent_of cluster_os.Prelude.Fields.join_lines
patched = refl
