-- ===== src/Discovery/Tags.antt =====
-- UpdateTags and DeleteTags of node/internal/discovery/serf.go. Serf replaces the whole tag set by what
-- SetTags is given, and may answer with an error; both are its parameter `set_tags`.
use cluster_os.Prelude.{
  String, ◌≡◌, refl, ap, ◌∙◌, Bool, true, Option, none, some, List, [], ◌∷◌, eq_iff, arith,
  if◌then◌else◌, elem,
}
use cluster_os.Prelude.Maps.{Map, KeysOnce, lookup, insert, lookup-insert, elem-keys}

-- for k, v := range tags { merged[k] = v }
unfoldable pub merge : Map String → Map String → Map String
merge existing [] = existing
merge existing ((k, v) ∷ tags) = merge (insert k v existing) tags

-- the tags whose key is not to be removed
unfoldable pub without : List String → Map String → Map String
without ks [] = []
without ks ((k, v) ∷ tags) = let rest = without ks tags in if elem k ks then rest else (k, v) ∷ rest

-- The first value that is there.
abbrev pub or_else : Option String → Option String → Option String
or_else none o = o
or_else (some v) o = some v

-- The merged tags: a new value where there is one, and the existing value elsewhere.
pub lookup-merge :
    (existing tags : Map String) (key : String)
    → KeysOnce tags
    → lookup key (merge existing tags) ≡ or_else (lookup key tags) (lookup key existing)
unfolding merge lookup
lookup-merge existing [] key once = refl
lookup-merge existing ((k, v) ∷ tags) key once = ground (
  arith,
  lookup-merge (insert k v existing) tags key once.1,
  lookup-insert k key v existing,
  elem-keys k tags,
  eq_iff k key,
)

pub lookup-without :
    (ks : List String) (tags : Map String) (key : String)
    → lookup key (without ks tags) ≡ (if elem key ks then none else lookup key tags)
unfolding without lookup
lookup-without ks [] key = ground arith
lookup-without ks ((k, v) ∷ tags) key = ground (arith, lookup-without ks tags key, eq_iff k key)

-- Serf's SetTags: the local member's tags after the call, and whether it returned no error.
abbrev pub SetTags : Type 0
SetTags = Map String → Map String → Map String × Bool

module _ (set_tags : SetTags) where
  -- The local member's tags afterwards, and whether there was no error.
  unfoldable pub update_tags : Map String → Map String → Map String × Bool
  unfolding merge
  update_tags tags existing = set_tags existing (merge existing tags)

  unfoldable pub delete_tags : List String → Map String → Map String × Bool
  unfolding without
  delete_tags ks existing = set_tags existing (without ks existing)

-- Where Serf takes the tags, it has exactly what it was given.
pub record Takes (set_tags : SetTags) : Type 0 where
  pub taken :
      (existing tags : Map String)
      → (set_tags existing tags).1 ≡ true
      → (set_tags existing tags).0 ≡ tags

-- An accepted update leaves every tag that it does not name, and sets those that it names.
pub update_tags_exact :
    (set_tags : SetTags) (tags existing : Map String) (key : String)
    → Takes set_tags
    → KeysOnce tags
    → (update_tags set_tags tags existing).1 ≡ true
    → lookup key (update_tags set_tags tags existing).0
      ≡ or_else (lookup key tags) (lookup key existing)
unfolding update_tags
update_tags_exact set_tags tags existing key takes once h =
    ap (lookup key) (takes.taken existing (merge existing tags) h)
    ∙ lookup-merge existing tags key once

-- An accepted removal leaves exactly the tags that it does not name.
pub delete_tags_exact :
    (set_tags : SetTags) (ks : List String) (existing : Map String) (key : String)
    → Takes set_tags
    → (delete_tags set_tags ks existing).1 ≡ true
    → lookup key (delete_tags set_tags ks existing).0
      ≡ (if elem key ks then none else lookup key existing)
unfolding delete_tags
delete_tags_exact set_tags ks existing key takes h =
    ap (lookup key) (takes.taken existing (without ks existing) h) ∙ lookup-without ks existing key
