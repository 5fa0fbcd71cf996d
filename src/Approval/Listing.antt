-- ===== src/Approval/Listing.antt =====
-- What ListActive of gateway/internal/approval/store.go returns.
use mathlib.Core.List.{Perm}
use sentrymesh.Base.{◌≡◌, refl, subst, arith, Bool, true, not, ◌||◌, List, [], ◌∷◌, All, filter, ok}
use sentrymesh.Sql.{order_desc}
use sentrymesh.Sql.Laws.{All-of-row_at}
use sentrymesh.Sql.Order.{IsDesc, order_desc-perm, order_desc-IsDesc}
use sentrymesh.Approval.{
  Request, rejected, executed, same_status, Store, find, is_active, list_active,
}
use sentrymesh.Approval.Lifecycle.{key, IsStamped, Inv}

-- A request that a statement may still move.
abbrev pub is_open : Request → Bool
is_open r = not (same_status r.status rejected || same_status r.status executed)

filter-active :
    (rows : List Request) → All IsStamped rows → filter is_active rows ≡ filter is_open rows
filter-active [] h = refl
filter-active (r ∷ rows) h = ground (arith, h.0, filter-active rows h.1)

-- ListActive returns exactly the requests that are neither rejected nor executed, newest first.
pub list_active-open :
    (s : Store)
    → Inv s
    → (l : List Request) × (list_active true s ≡ ok l)
      × IsDesc key l
      × Perm l (filter is_open s.rows)
unfolding list_active find
list_active-open s v = (
  order_desc key (filter is_active s.rows),
  refl,
  order_desc-IsDesc key (filter is_active s.rows),
  subst (λ m. Perm (order_desc key (filter is_active s.rows)) m)
      (filter-active s.rows (All-of-row_at key IsStamped s.next_id s.rows v.keyed v.stamped))
      (order_desc-perm key (filter is_active s.rows)),
)
