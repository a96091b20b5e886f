-- ===== src/Broker/Queues.antt =====
-- faststream_outbox/broker.py: the connections and the queues of all subscribers of a broker, as the
-- checks of `start` read them.
pub mod Leases
use Prim.Native.String.{String, compare}
use Prim.Native.Nat.{Ordering}
use faststream_outbox.Base.{
  ℕ, ◌+◌, ◌*◌, ◌≤◌, ◌<◌, ◌≡◌, ◌↔◌, refl, Bool, true, false, not, ◌&&◌, ◌||◌, Option, none, some,
  List, [], ◌∷◌, map, Result, ok, raise, Error, raise_if, last_check, ltb, ◌==◌, string_eq, eq_iff,
  if◌then◌else◌, any, contains, filter, length, min, Bool-cases, inl, inr, arith,
}

-- What is read of a subscriber: `direct` is whether it is one of the broker's own, not a router's.
pub record Sub : Type 0 where
  pub queues : List String
  pub max_workers : ℕ
  pub lease_ttl : ℕ
  pub direct : Bool

-- A `QueuePool` with its size and overflow; a pool of another kind, or with no bound on the overflow,
-- is not checked.
pub data Pool : Type 0 where
  queue_pool : (pool_size max_overflow : ℕ) → Pool
  unchecked : Pool

-- `_pooled_connections` of a subscriber.
abbrev pub pooled_connections : Sub → ℕ
pooled_connections s = 1 + s.max_workers

abbrev pub needed : List Sub → ℕ
needed [] = 0
needed (s ∷ subs) = pooled_connections s + needed subs

-- `_check_pool_capacity`; there may be no engine.
unfoldable pub check_pool_capacity : Option Pool → List Sub → Result (Unit {0})
check_pool_capacity (some (queue_pool pool_size max_overflow)) subs =
    raise_if (ltb (pool_size + max_overflow) (needed subs)) Error.runtime_error
check_pool_capacity (some unchecked) subs = ok tt
check_pool_capacity none subs = ok tt

-- The dict `counts`, in the order of first insertion.
abbrev pub add_count : String → List (String × ℕ) → List (String × ℕ)
add_count q [] = (q, 1) ∷ []
add_count q ((r, n) ∷ counts) =
    let rest = add_count q counts in if r == q then (r, n + 1) ∷ counts else (r, n) ∷ rest

abbrev pub count_queues : List String → List (String × ℕ) → List (String × ℕ)
count_queues [] counts = counts
count_queues (q ∷ queues) counts = count_queues queues (add_count q counts)

unfoldable pub count_subs : List Sub → List (String × ℕ) → List (String × ℕ)
count_subs [] counts = counts
count_subs (s ∷ subs) counts = count_subs subs (count_queues s.queues counts)

-- `router_queues`.
unfoldable pub from_router : String → List Sub → Bool
from_router q subs = any (λ s. not s.direct && contains q s.queues) subs

abbrev pub insert_name : String → List String → List String
insert_name q [] = q ∷ []
insert_name q (r ∷ rs) =
    let rest = insert_name q rs in elim (compare q r) [ Ordering.gt ↦ r ∷ rest | _ ↦ q ∷ r ∷ rs ]

-- `sorted`.
abbrev pub sorted : List String → List String
sorted [] = []
sorted (q ∷ qs) = insert_name q (sorted qs)

unfoldable pub competing : List Sub → List (String × ℕ) → List String
unfolding from_router
competing subs [] = []
competing subs ((q, n) ∷ counts) =
    let rest = competing subs counts in if ltb 1 n && from_router q subs then q ∷ rest else rest

-- `_warn_on_duplicate_queues`: the queues that the warning names; with none there is no warning.
unfoldable pub duplicated : List Sub → List String
unfolding count_subs competing
duplicated subs = sorted (competing subs (count_subs subs []))

-- `lease_ttl_by_queue` of `_start_queue_lag`.
abbrev pub ttl_of : String → List (String × ℕ) → Option ℕ
ttl_of q [] = none
ttl_of q ((r, t) ∷ ttls) = if r == q then some t else ttl_of q ttls

abbrev pub set_ttl : String → ℕ → List (String × ℕ) → List (String × ℕ)
set_ttl q t [] = (q, t) ∷ []
set_ttl q t ((r, u) ∷ ttls) =
    let rest = set_ttl q t ttls in if r == q then (r, t) ∷ ttls else (r, u) ∷ rest

-- `min(ttl, lease_ttl_by_queue.get(queue, ttl))`.
abbrev pub least : ℕ → Option ℕ → ℕ
least t none = t
least t (some u) = min t u

unfoldable pub lower_ttls : ℕ → List String → List (String × ℕ) → List (String × ℕ)
lower_ttls t [] ttls = ttls
lower_ttls t (q ∷ queues) ttls = lower_ttls t queues (set_ttl q (least t (ttl_of q ttls)) ttls)

unfoldable pub lease_ttl_by_queue : List Sub → List (String × ℕ) → List (String × ℕ)
unfolding lower_ttls
lease_ttl_by_queue [] ttls = ttls
lease_ttl_by_queue (s ∷ subs) ttls = lease_ttl_by_queue subs (lower_ttls s.lease_ttl s.queues ttls)
