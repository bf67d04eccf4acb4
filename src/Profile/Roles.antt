-- ===== src/Profile/Roles.antt =====
-- internal/profile/profile.go: the roles of a profile, and the profiles by identifier.
use lan_a2a.Prelude.{
  Distinct-append_one, String, ◌≡◌, refl, ◌||◌, List, [], ◌∷◌, ◌++◌, arith, ◌==◌, nat_eq, string_eq,
  list_eq, contains, Distinct,
}
use lan_a2a.Profile.{Profile, has_role, add_role}

has_role-append :
    (role : String) (xs ys : List String)
    → has_role role (xs ++ ys) ≡ has_role role xs || has_role role ys
unfolding has_role
has_role-append role [] ys = refl
has_role-append role (x ∷ xs) ys = ground (arith, has_role-append role xs ys)

has_role-contains : (role : String) (xs : List String) → has_role role xs ≡ contains role xs
unfolding has_role
has_role-contains role [] = refl
has_role-contains role (x ∷ xs) =
    ground (arith, has_role-contains role xs, string_eq.beq_iff x role, string_eq.beq_iff role x)

-- Adding a role, however often, gives the profile that role and leaves the others as they were; a
-- profile where no role stands twice stays so; and adding it again changes nothing.
pub has_role-add_role :
    (p : Profile) (role r : String)
    → (has_role r (add_role role p).roles ≡ (role == r) || has_role r p.roles)
      × (Distinct p.roles → Distinct (add_role role p).roles)
      × (add_role role (add_role role p) ≡ add_role role p)
unfolding add_role has_role
has_role-add_role p role r = (
  ground (arith, has_role-append r p.roles (role ∷ []), string_eq.beq_iff role r),
  (λ d. ground (arith, Distinct-append_one role p.roles d, has_role-contains role p.roles)),
  ground (arith, has_role-append role p.roles (role ∷ []), string_eq.beq_iff role role),
)
