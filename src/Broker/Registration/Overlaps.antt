-- ===== src/Broker/Registration/Overlaps.antt =====
-- Between the warnings at registration and the one at start, every shared queue is named.
use Prim.Native.String.{String}
use faststream_outbox.Base.{
  ℕ, ◌+◌, ◌≤◌, ◌≡◌, ◌⊎◌, inl, inr, refl, ap, ◌∙◌, Bool, true, false, ◌||◌, List, [], ◌∷◌, ◌++◌,
  Result, ok, raise, Error, ◌>>=◌, filter, any, contains, count, count-append, All, ◌==◌, string_eq,
  eq_iff, if◌then◌else◌, Bool-cases, arith, passes, both, ok-inj, subst,
}
use faststream_outbox.Client.{distinct}
use faststream_outbox.Broker.Queues.{
  Sub, sorted, insert_name, add_count, count_queues, count_subs, from_router, competing, duplicated,
}
use faststream_outbox.Broker.Registration.{
  Registrator, is_served, overlap, no_queues, warn, subscriber, subscriber_each,
}

-- How many subscribers serve a queue.
abbrev pub serving : String → List Sub → ℕ
serving q = count (λ s. contains q s.queues)

contains-insert_name :
    (a q : String) (rs : List String) → contains a (insert_name q rs) ≡ (a == q || contains a rs)
contains-insert_name a q [] = refl
contains-insert_name a q (r ∷ rs) = ground (arith, contains-insert_name a q rs)

contains-sorted : (a : String) (qs : List String) → contains a (sorted qs) ≡ contains a qs
contains-sorted a [] = refl
contains-sorted a (q ∷ qs) =
    contains-insert_name a q (sorted qs) ∙ ap (◌||◌ (a == q)) (contains-sorted a qs)

contains_of_eq : (a q : String) (qs : List String) → a ≡ q → contains q qs ≡ contains a qs
contains_of_eq a q qs e = rw e refl

test_of_eq : (a q : String) (p : String → Bool) → a ≡ q → p q ≡ p a
test_of_eq a q p e = rw e refl

contains-filter :
    (a : String) (p : String → Bool) (qs : List String)
    → contains a qs ≡ true
    → p a ≡ true
    → contains a (filter p qs) ≡ true
contains-filter a p [] h k = absurd (ground (arith, h))
contains-filter a p (q ∷ qs) h k =
    ground (arith, contains-filter a p qs, eq_iff a q, test_of_eq a q p)

contains-distinct : (a : String) (qs : List String) → contains a (distinct qs) ≡ contains a qs
unfolding distinct
contains-distinct a [] = refl
contains-distinct a (q ∷ qs) =
    ground (arith, contains-distinct a qs, eq_iff a q, contains_of_eq a q qs)

-- The count that the start keeps of a queue.
abbrev count_of : String → List (String × ℕ) → ℕ
count_of q [] = 0
count_of q ((r, n) ∷ counts) = if r == q then n else count_of q counts

count_of-add :
    (a q : String) (counts : List (String × ℕ))
    → count_of a (add_count q counts) ≡ count_of a counts + (if a == q then 1 else 0)
count_of-add a q [] = ground (arith, eq_iff a q, eq_iff q a)
count_of-add a q ((r, n) ∷ counts) =
    ground (arith, count_of-add a q counts, eq_iff a q, eq_iff q a, eq_iff r q, eq_iff r a)

count_of-queues :
    (a : String) (qs : List String) (counts : List (String × ℕ))
    → count_of a counts + (if contains a qs then 1 else 0) ≤ count_of a (count_queues qs counts)
count_of-queues a [] counts = omega arith
count_of-queues a (q ∷ qs) counts =
    ground (arith, count_of-queues a qs (add_count q counts), count_of-add a q counts)

count_of-subs :
    (a : String) (subs : List Sub) (counts : List (String × ℕ))
    → count_of a counts + serving a subs ≤ count_of a (count_subs subs counts)
unfolding count_subs
count_of-subs a [] counts = omega arith
count_of-subs a (s ∷ subs) counts =
    ground (
      arith,
      count_of-subs a subs (count_queues s.queues counts),
      count_of-queues a s.queues counts,
    )

contains-competing :
    (a : String) (subs : List Sub) (counts : List (String × ℕ))
    → 2 ≤ count_of a counts
    → from_router a subs ≡ true
    → contains a (competing subs counts) ≡ true
unfolding competing
contains-competing a subs [] h k = absurd (omega arith)
contains-competing a subs ((q, n) ∷ counts) h k = ground (
  arith,
  contains-competing a subs counts,
  eq_iff a q,
  eq_iff q a,
  test_of_eq a q (λ x. from_router x subs),
)

duplicated-names :
    (q : String) (subs : List Sub)
    → 2 ≤ serving q subs
    → from_router q subs ≡ true
    → contains q (duplicated subs) ≡ true
unfolding duplicated
duplicated-names q subs h k =
    contains-sorted q (competing subs (count_subs subs []))
    ∙ contains-competing q subs (count_subs subs []) (omega (arith, count_of-subs q subs [])) k

-- Served by an earlier subscriber.
is_served_of : (q : String) (subs : List Sub) → 1 ≤ serving q subs → is_served subs q ≡ true
is_served_of q [] h = absurd (omega arith)
is_served_of q (s ∷ subs) h = ground (arith, is_served_of q subs)

any-append :
    (p : List String → Bool) (xs ys : List (List String))
    → any p (xs ++ ys) ≡ (any p xs || any p ys)
any-append p [] ys = refl
any-append p (x ∷ xs) ys = ground (arith, any-append p xs ys)

warn-keeps :
    (q : String) (o : List String) (warned : List (List String))
    → any (contains q) (warn o warned) ≡ (any (contains q) warned || contains q o)
warn-keeps q [] warned = ground arith
warn-keeps q (x ∷ o) warned = any-append (contains q) warned ((x ∷ o) ∷ []) ∙ ground arith

overlap-names :
    (q : String) (queues : List String) (subs : List Sub)
    → contains q queues ≡ true
    → 1 ≤ serving q subs
    → contains q (overlap queues subs) ≡ true
unfolding overlap
overlap-names q queues subs h k =
    contains-sorted q (filter (is_served subs) (distinct queues))
    ∙ contains-filter q (is_served subs) (distinct queues) (contains-distinct q queues ∙ h)
        (is_served_of q subs k)

-- A queue with two subscribers of the registrator was named by a warning.
abbrev Named : String → Registrator → Type 0
Named q r = 2 ≤ serving q r.subscribers → any (contains q) r.warned ≡ true

registered-Named :
    (q : String) (s : Sub) (r : Registrator)
    → Named q r
    → Named q (record {
      subscribers = r.subscribers ++ s ∷ [];
      warned = warn (overlap s.queues r.subscribers) r.warned;
    })
registered-Named q s r ih two =
    warn-keeps q (overlap s.queues r.subscribers) r.warned
    ∙ ground (
      arith,
      count-append (λ x. contains q x.queues) r.subscribers (s ∷ []),
      overlap-names q s.queues r.subscribers,
      ih,
    )

subscriber-Named :
    (q : String) (created : Result (Unit {0})) (s : Sub) (r : Registrator) {r' : Registrator}
    → subscriber created s r ≡ ok r'
    → Named q r
    → Named q r'
unfolding subscriber
subscriber-Named q created s r h ih =
    let (full, k) = (passes (no_queues s.queues) Error.value_error _).0 h in
    let (made, done) = (both created _).0 k in
    subst (Named q) (ok-inj done) (registered-Named q s r ih)

subscriber_each-Named :
    (q : String) (more : List (Result (Unit {0}) × Sub)) (r : Registrator) {r' : Registrator}
    → subscriber_each more r ≡ ok r'
    → Named q r
    → Named q r'
subscriber_each-Named q [] r h ih = subst (Named q) (ok-inj h) ih
subscriber_each-Named q ((created, s) ∷ more) r {r'} h ih =
    step (subscriber created s r) refl (λ t. subscriber_each-Named q more t) h
  where
    step :
        (a : Result Registrator)
        → subscriber created s r ≡ a
        → ((t : Registrator) → subscriber_each more t ≡ ok r' → Named q t → Named q r')
        → (a >>= subscriber_each more) ≡ ok r'
        → Named q r'
    step (ok t) e later k = later t k (subscriber-Named q created s r e ih)
    step (raise x) e later k = absurd (ground (arith, k))

-- With no router's subscriber on a queue, none serves it.
none_routed :
    (q : String) (router : List Sub)
    → All (λ s. s.direct ≡ false) router
    → from_router q router ≡ false
    → serving q router ≡ 0
unfolding from_router
none_routed q [] d h = refl
none_routed q (s ∷ router) d h = ground (arith, none_routed q router d.1)

from_router-append :
    (q : String) (xs ys : List Sub)
    → from_router q (xs ++ ys) ≡ (from_router q xs || from_router q ys)
unfolding from_router
from_router-append q [] ys = refl
from_router-append q (x ∷ xs) ys = ground (arith, from_router-append q xs ys)

-- Every queue that two subscribers of a broker compete for is named by a warning: by the one of a
-- registration, or by the one of the start. The broker's own subscribers are registered one by one, each
-- registration may fail, and those of its routers come with include_router.
pub subscriber_each-duplicated :
    (more : List (Result (Unit {0}) × Sub)) (router : List Sub) (q : String) (r : Registrator)
    → subscriber_each more (record { subscribers = []; warned = [] }) ≡ ok r
    → All (λ s. s.direct ≡ false) router
    → 2 ≤ serving q (r.subscribers ++ router)
    → (any (contains q) r.warned ≡ true)
      ⊎ (contains q (duplicated (r.subscribers ++ router)) ≡ true)
subscriber_each-duplicated more router q r registered routed two =
    elim (Bool-cases (from_router q (r.subscribers ++ router))) [
      | inl y ↦ inr (duplicated-names q (r.subscribers ++ router) two y)
      | inr n ↦ inl (
          subscriber_each-Named q more (record { subscribers = []; warned = [] }) registered
            (λ h. absurd (omega (arith, h)))
            (own (
              none_routed q router routed
                (ground (arith, from_router-append q r.subscribers router, n)))))
    ]
  where
    own : serving q router ≡ 0 → 2 ≤ serving q r.subscribers
    own none_ = omega (arith, count-append (λ s. contains q s.queues) r.subscribers router)
