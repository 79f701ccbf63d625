-- ===== src/Discovery/Creating/Admitted.antt =====
-- A node that node/internal/discovery/serf.go has created is let in by the other nodes of its cluster.
use cluster_os.Prelude.{
  ℕ, String, ◌≡◌, refl, sym, ap, ◌∙◌, Bool, true, false, Option, none, some, [], ◌∷◌, ◌==◌, ◌⊎◌,
  inl, inr, if◌then◌else◌, eq_refl,
}
use cluster_os.Prelude.Int.{ℤ, pos}
use cluster_os.Prelude.Maps.{Map, lookup, insert, lookup-insert}
use cluster_os.Auth.{
  Codec, ClusterAuth, Result, ok, err, create_compact_join_token, verify_compact_join_token,
}
use cluster_os.Auth as Auth
use cluster_os.State.{Node, NodeStatus, get_node}
use cluster_os.Discovery.Member.{Member, or_empty, tag}
use cluster_os.Discovery.Events.{Discovery, Setup, join, handle_member_event}
use cluster_os.Discovery.Events.Effects.{join_admits}
use cluster_os.Discovery.Creating.{
  Machine, Settings, SerfConfig, Created, CreateError, version_tag, own_tags, serf_config, created,
  with_auth, new_discovery,
}

-- A tag that is set later does not change another.
tag_other :
    (key wanted value : String) (tags : Map String)
    → (key == wanted) ≡ false
    → tag wanted (insert key value tags) ≡ tag wanted tags
unfolding tag
tag_other key wanted value tags h =
    let same : lookup wanted (insert key value tags) ≡ lookup wanted tags =
      lookup-insert key wanted value tags
      ∙ ap (λ b. if b then some value else lookup wanted tags) h in
    ap or_empty same

tag_same : (key value : String) (tags : Map String) → tag key (insert key value tags) ≡ value
unfolding tag
tag_same key value tags =
    let same : lookup key (insert key value tags) ≡ some value =
      lookup-insert key key value tags
      ∙ ap (λ b. if b then some value else lookup key tags) (eq_refl key) in
    ap or_empty same

module _ (itoa : ℤ → String) (codec : Codec) (ca : ClusterAuth) (m : Machine) (cfg : Settings) where
  tag-auth :
      tag "auth" (own_tags itoa codec ca m cfg) ≡ create_compact_join_token codec ca cfg.node_id
  unfolding own_tags
  tag-auth = tag_same "auth" (create_compact_join_token codec ca cfg.node_id) _

  machine_tags : Map String
  machine_tags = insert "arch" m.arch (
      insert "gpu" (itoa (pos m.gpus)) (
        insert "ram" (itoa m.mem_mb)
          (insert "cpu" (itoa m.cpu) (insert "node_id" cfg.node_id cfg.tags))))

  machine-node_id : tag "node_id" machine_tags ≡ cfg.node_id
  unfolding machine_tags
  machine-node_id =
      tag_other "arch" "node_id" m.arch _ refl
      ∙ (tag_other "gpu" "node_id" (itoa (pos m.gpus)) _ refl
          ∙ (tag_other "ram" "node_id" (itoa m.mem_mb) _ refl
              ∙ (tag_other "cpu" "node_id" (itoa m.cpu) _ refl
                  ∙ tag_same "node_id" cfg.node_id cfg.tags)))

  with_version :
      (b : Bool)
      → tag "node_id" (
          if b
          then machine_tags
          else insert "ver" (version_tag cfg.version cfg.build_time) machine_tags)
        ≡ cfg.node_id
  with_version true = machine-node_id
  with_version false =
      tag_other "ver" "node_id" (version_tag cfg.version cfg.build_time) machine_tags refl
      ∙ machine-node_id

  tag-node_id : tag "node_id" (own_tags itoa codec ca m cfg) ≡ cfg.node_id
  unfolding own_tags machine_tags
  tag-node_id =
      tag_other "auth" "node_id" (create_compact_join_token codec ca cfg.node_id) _ refl
      ∙ with_version (cfg.version == "")

-- A layer that was created has the configuration that Serf was given.
serf_of : SerfConfig → CreateError ⊎ Created → SerfConfig
serf_of serf (inl e) = serf
serf_of serf (inr c) = c.serf

created-serf :
    (o : Option String) (serf : SerfConfig) (ca : ClusterAuth) (cfg : Settings) (c : Created)
    → created o serf ca cfg ≡ inr c
    → serf ≡ c.serf
unfolding created serf_of
created-serf (some e) serf ca cfg c h = ap (serf_of serf) h
created-serf none serf ca cfg c h = ap (serf_of serf) h

-- The name under which Serf knows the node is the one that New was given.
pub new_discovery-node_name :
    (itoa : ℤ → String) (codec : Codec) (create : SerfConfig → Option String) (m : Machine)
    (cfg : Settings) (c : Created)
    → new_discovery itoa codec create m cfg ≡ inr c
    → c.serf.node_name ≡ cfg.node_name
unfolding new_discovery
new_discovery-node_name itoa codec create m cfg c made =
    named (Auth.new codec cfg.cluster_auth_key) made
  where
    name_of : CreateError ⊎ Created → String
    name_of (inl e) = cfg.node_name
    name_of (inr c) = c.serf.node_name

    named :
        (r : Result ClusterAuth)
        → with_auth itoa codec create m cfg r ≡ inr c
        → c.serf.node_name ≡ cfg.node_name
    named (err e) h = sym (ap name_of h)
    named (ok ca) h =
        ap (λ (serf : SerfConfig). serf.node_name)
          (sym (
            created-serf (create (serf_config itoa codec ca m cfg))
              (serf_config itoa codec ca m cfg) ca cfg c h))

module _ (itoa : ℤ → String) (setup : Setup) (create : SerfConfig → Option String) (m : Machine)
    (cfg : Settings) (c : Created) (member : Member) (seen now : ℕ) (sd : Discovery) where
  -- A node that New has created with the key of the cluster, and whose tags Serf shows unchanged, is let in by
  -- the other nodes that have the key: after its join it is alive there under its id, its name and its tags. Its
  -- id is not empty and not that of the node that sees it, and its token is not empty.
  pub created_admitted :
      new_discovery itoa setup.codec create m cfg ≡ inr c
      → Auth.new setup.codec cfg.cluster_auth_key ≡ ok setup.cluster_auth
      → member.tags ≡ c.serf.tags
      → (cfg.node_id == "") ≡ false
      → (cfg.node_id == setup.local_id) ≡ false
      → (create_compact_join_token setup.codec setup.cluster_auth cfg.node_id == "") ≡ false
      → (n : Node) × (get_node cfg.node_id
            (handle_member_event join setup ((member, seen, now) ∷ []) sd).state
          ≡ some n)
        × (n.status ≡ NodeStatus.alive)
        × (n.name ≡ member.name)
        × (n.tags ≡ c.serf.tags)
  unfolding new_discovery
  created_admitted made key shown named other token =
      let serf = serf_config itoa setup.codec setup.cluster_auth m cfg in
      let same : serf ≡ c.serf =
        created-serf (create serf) serf setup.cluster_auth cfg c
          (ap (with_auth itoa setup.codec create m cfg) (sym key) ∙ made) in
      let tags : member.tags ≡ serf.tags = shown ∙ ap (λ (s : SerfConfig). s.tags) (sym same) in
      let id : tag "node_id" member.tags ≡ cfg.node_id =
        ap (tag "node_id") tags ∙ tag-node_id itoa setup.codec setup.cluster_auth m cfg in
      let auth : tag "auth" member.tags
          ≡ create_compact_join_token setup.codec setup.cluster_auth cfg.node_id =
        ap (tag "auth") tags ∙ tag-auth itoa setup.codec setup.cluster_auth m cfg in
      let (n, held, alive, name, own) =
        join_admits setup seen now member sd (rw id named) (rw id other) (rw auth token)
          (rw (id, auth) refl) in
      let after = (handle_member_event join setup ((member, seen, now) ∷ []) sd).state in
      (n, ap (λ k. get_node k after) (sym id) ∙ held, alive, name, own ∙ shown)
