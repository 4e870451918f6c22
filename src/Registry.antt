-- ===== src/Registry.antt =====
-- ApplicationRegistry of include/schedrt/application_registry.hpp. Both methods hold its mutex, so
-- each is one step.
use mathlib.Core.Option.{some-injective}
use ece506scheduler.Base.{
  if_ind, sym, ap, ◌∙◌, text_eq_iff, List, Option, ◌≡◌, some, Text, text_key, text_eq, assign,
  lookup, lookup-assign, if◌then◌else◌,
}
use ece506scheduler.Task.{AppDescriptor}

pub record Registry : Type 0 where
  pub apps : List (Text × AppDescriptor)

unfoldable pub register_app : AppDescriptor → Registry → Registry
unfolding assign
register_app d r = record r { apps = assign d.app d r.apps }

unfoldable pub find_app : Text → Registry → Option AppDescriptor
unfolding lookup
find_app name r = lookup name r.apps

-- The descriptor registered last under a name is found, and every other name is as before.
pub find_app-register_app :
    (d : AppDescriptor) (name : Text) (r : Registry)
    → find_app name (register_app d r) ≡ (if text_eq d.app name then some d else find_app name r)
unfolding find_app register_app
find_app-register_app d name r = lookup-assign d.app name d r.apps

-- Every descriptor is filed under its own name.
abbrev pub IsKeyed : Registry → Type 0
IsKeyed r = (name : Text) (d : AppDescriptor) → find_app name r ≡ some d → d.app ≡ name

pub register_app-IsKeyed :
    (d : AppDescriptor) (r : Registry) → IsKeyed r → IsKeyed (register_app d r)
register_app-IsKeyed d r keyed name d' h =
    if_ind (λ o. o ≡ some d' → d'.app ≡ name) (text_eq d.app name)
      (λ same e.
        ap (λ (x : AppDescriptor). x.app) (sym (some-injective _ _ e))
        ∙ (text_eq_iff d.app name).0 same)
      (λ _ e. keyed name d' e) (sym (find_app-register_app d name r) ∙ h)
