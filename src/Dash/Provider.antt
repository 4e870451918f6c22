-- ===== src/Dash/Provider.antt =====
-- include/dash/provider.hpp and src/dash/provider.cpp. std::sort is an insertion sort: the order
-- compares every field, so each sort of a list gives the same list.
use ece506scheduler.Base.{
  ℕ, ℤ, ◌==◌, ltb, ltb_ℤ, eqb_ℤ, Bool, not, List, [], ◌∷◌, ◌++◌, Text, text_eq, text_lt,
  if◌then◌else◌,
}
use ece506scheduler.Task.{ResourceKind, kind_rank}

pub record Provider : Type 0 where
  pub op : Text
  pub kind : ResourceKind
  pub instance_id : ℕ
  pub priority : ℤ

-- The lambda that std::sort is given.
unfoldable pub provider_lt : Provider → Provider → Bool
provider_lt a b =
    if not (text_eq a.op b.op)
    then text_lt a.op b.op
    else if not (eqb_ℤ a.priority b.priority)
    then ltb_ℤ a.priority b.priority
    else if not (kind_rank a.kind == kind_rank b.kind)
    then ltb (kind_rank a.kind) (kind_rank b.kind)
    else ltb a.instance_id b.instance_id

unfoldable pub insert_sorted : Provider → List Provider → List Provider
insert_sorted p [] = p ∷ []
insert_sorted p (q ∷ qs) =
    let rest = q ∷ insert_sorted p qs in if provider_lt q p then rest else p ∷ q ∷ qs

unfoldable pub sort_providers : List Provider → List Provider
unfolding insert_sorted
sort_providers [] = []
sort_providers (p ∷ ps) = insert_sorted p (sort_providers ps)

unfoldable pub register_provider : Provider → List Provider → List Provider
unfolding sort_providers
register_provider p g_providers = sort_providers (g_providers ++ p ∷ [])

unfoldable pub providers_for : Text → List Provider → List Provider
providers_for op [] = []
providers_for op (p ∷ ps) =
    let rest = providers_for op ps in if text_eq p.op op then p ∷ rest else rest
