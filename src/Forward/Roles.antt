-- ===== src/Forward/Roles.antt =====
-- forward.c: the roles of surfaces in `subcompositor_get_subsurface`. The field `subsurface_parent`
-- of every surface is a function.
pub mod Rooted
use swaylock_plugin.Base.{ℕ, zero, suc, Bool, true, false, Option, none, some, ◌==◌, if◌then◌else◌}
use swaylock_plugin.Forward.Content.{put}

pub record Roles : Type 0 where
  pub layer_surface : ℕ → Bool
  pub subsurface_parent : ℕ → Option ℕ

-- `while (ancestor->subsurface_parent)`, on fuel.
unfoldable pub ancestor_of : ℕ → (ℕ → Option ℕ) → ℕ → Option ℕ
ancestor_of zero parents s = none
ancestor_of (suc n) parents s = elim (parents s) [
  | none ↦ some s
  | some p ↦ ancestor_of n parents p
]

-- What the request does: an error, no memory, or the roles with the new subsurface.
pub data GetSubsurface : Type 0 where
  has_layer_role has_parent descends no_memory : GetSubsurface
  linked : Roles → GetSubsurface

unfoldable pub link_subsurface : Bool → ℕ → ℕ → Roles → GetSubsurface
unfolding put
link_subsurface created child parent r =
    if created
    then linked (record r { subsurface_parent = put r.subsurface_parent child (some parent) })
    else no_memory

-- With the root of the parent; `none` is a loop that did not end.
unfoldable pub check_ancestor : Bool → ℕ → ℕ → Option ℕ → Roles → Option GetSubsurface
unfolding link_subsurface
check_ancestor created child parent none r = none
check_ancestor created child parent (some root) r =
    if root == child then some descends else some (link_subsurface created child parent r)

unfoldable pub is_subsurface : Option ℕ → Bool
is_subsurface none = false
is_subsurface (some p) = true

-- `created` is whether the resource is made.
unfoldable pub subcompositor_get_subsurface : ℕ → Bool → ℕ → ℕ → Roles → Option GetSubsurface
unfolding ancestor_of check_ancestor is_subsurface
subcompositor_get_subsurface fuel created child parent r =
    if r.layer_surface child
    then some has_layer_role
    else if is_subsurface (r.subsurface_parent child)
    then some has_parent
    else check_ancestor created child parent (ancestor_of fuel r.subsurface_parent parent) r
