-- ===== src/Roles/Registry.antt =====
-- The registry keeps the first factory of a name: Register of node/internal/roles/role.go.
use cluster_os.Prelude.{
  String, ◌≡◌, refl, ap, subst, sym, ◌∙◌, false≢true, Bool, true, false, Option, none, some, List,
  [], ◌∷◌, ◌==◌, is_some, eq_iff, if-both, if◌then◌else◌,
}
use cluster_os.Prelude.Maps.{Map, lookup, lookup-insert}
use cluster_os.Roles.{register}

module _ {ℓ} {Role : Type ℓ} where
  -- Registrations in order, those that fail among them.
  unfoldable pub register_all : List (String × Role) → Map Role → Map Role
  register_all [] factories = factories
  register_all ((name, factory) ∷ rest) factories =
      register_all rest (register name factory factories).0

  -- The first registration of a name.
  unfoldable pub first_of : String → List (String × Role) → Option Role
  first_of name [] = none
  first_of name ((n, factory) ∷ rest) =
      let later = first_of name rest in if n == name then some factory else later

  unfoldable pub or_first : Option Role → Option Role → Option Role
  or_first none next = next
  or_first (some role) next = some role

  or_first_assoc : (a b c : Option Role) → or_first (or_first a b) c ≡ or_first a (or_first b c)
  unfolding or_first
  or_first_assoc none b c = refl
  or_first_assoc (some a) b c = refl

  or_first_there :
      (o : Option Role) (b : Bool) (factory : Role)
      → (b ≡ true → is_some o ≡ true)
      → o ≡ or_first o (if b then some factory else none)
  unfolding or_first
  or_first_there none true factory h = absurd (false≢true (h refl))
  or_first_there none false factory h = refl
  or_first_there (some role) b factory h = refl

  or_first_fresh :
      (o : Option Role) (b : Bool) (factory : Role)
      → (b ≡ true → is_some o ≡ false)
      → (if b then some factory else o) ≡ or_first o (if b then some factory else none)
  unfolding or_first
  or_first_fresh none b factory h = refl
  or_first_fresh (some role) true factory h = absurd (false≢true (sym (h refl)))
  or_first_fresh (some role) false factory h = refl

  -- What is known of a name is known of the same name.
  same_name :
      (name n : String) (factories : Map Role) (b : Bool)
      → is_some (lookup n factories) ≡ b
      → (n == name) ≡ true
      → is_some (lookup name factories) ≡ b
  same_name name n factories b h e =
      subst (λ x. is_some (lookup x factories) ≡ b) ((eq_iff n name).0 e) h

  lookup-register :
      (name n : String) (factory : Role) (factories : Map Role)
      → lookup name (register n factory factories).0
        ≡ or_first (lookup name factories) (if n == name then some factory else none)
  unfolding register
  lookup-register name n factory factories =
      let P = λ (m : Map Role × Option String).
        lookup name m.0
        ≡ or_first (lookup name factories) (if n == name then some factory else none) in
      if-both P (is_some (lookup n factories)) _ _
        (λ e.
          or_first_there (lookup name factories) (n == name) factory
            (same_name name n factories true e))
        (λ e.
          lookup-insert n name factory factories
          ∙ or_first_fresh (lookup name factories) (n == name) factory
              (same_name name n factories false e))

  nothing_after : (o : Option Role) → o ≡ or_first o none
  unfolding or_first
  nothing_after none = refl
  nothing_after (some role) = refl

  first_step :
      (b : Bool) (factory : Role) (later : Option Role)
      → or_first (if b then some factory else none) later ≡ (if b then some factory else later)
  unfolding or_first
  first_step true factory later = refl
  first_step false factory later = refl

  -- However often factories are registered, with or without error, a name has the factory that it had before
  -- them, or else the one that was registered first under it, if any was.
  pub register_all_first :
      (name : String) (regs : List (String × Role)) (factories : Map Role)
      → lookup name (register_all regs factories)
        ≡ or_first (lookup name factories) (first_of name regs)
  unfolding register_all first_of or_first
  register_all_first name [] factories = nothing_after (lookup name factories)
  register_all_first name ((n, factory) ∷ rest) factories =
      register_all_first name rest (register n factory factories).0
      ∙ (ap (λ o. or_first o (first_of name rest)) (lookup-register name n factory factories)
          ∙ (or_first_assoc (lookup name factories) (if n == name then some factory else none)
                (first_of name rest)
              ∙ ap (or_first (lookup name factories))
                  (first_step (n == name) factory (first_of name rest))))
