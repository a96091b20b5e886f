-- ===== src/Broker/Queues/Leases.antt =====
-- faststream_outbox/broker.py, `_start_queue_lag`: the lease that the lag of a queue is measured by.
use Prim.Native.String.{String}
use faststream_outbox.Base.{
  ℕ, ◌≡◌, refl, sym, ap, ◌∙◌, Bool, true, false, ◌||◌, Option, none, some, List, [], ◌∷◌, ◌==◌,
  string_eq, eq_iff, if◌then◌else◌, contains, Bool-cases, inl, inr, arith,
}
use faststream_outbox.Broker.Queues.{Sub, ttl_of, set_ttl, least, lower_ttls, lease_ttl_by_queue}

-- The shortest lease among the subscribers that serve the queue, if any does.
unfoldable pub shortest : String → List Sub → Option ℕ
shortest q [] = none
shortest q (s ∷ subs) =
    let rest = shortest q subs in
    if contains q s.queues then some (least s.lease_ttl rest) else rest

-- The lesser of two leases that may be there.
abbrev merge : Option ℕ → Option ℕ → Option ℕ
merge none b = b
merge (some a) b = some (least a b)

-- Two names that equal a third are equal.
same-same : (s r q : String) → (s == q) ≡ true → (r == q) ≡ true → (s == r) ≡ true
same-same s r q h k = (eq_iff s r).1 ((eq_iff s q).0 h ∙ sym ((eq_iff r q).0 k))

same-other : (s r q : String) → (s == r) ≡ false → (s == q) ≡ true → (r == q) ≡ false
same-other s r q h k = elim (Bool-cases (r == q)) [
  | inl e ↦ absurd (ground (arith, h, same-same s r q k e))
  | inr e ↦ e
]

ttl_of-set_ttl :
    (q r : String) (t : ℕ) (m : List (String × ℕ))
    → ttl_of q (set_ttl r t m) ≡ (if r == q then some t else ttl_of q m)
ttl_of-set_ttl q r t [] = refl
ttl_of-set_ttl q r t ((s, u) ∷ m) = elim (Bool-cases (s == r)) [
  | inl e ↦ rw (e, (eq_iff s r).0 e) (taken (r == q))
  | inr e ↦ elim (Bool-cases (s == q)) [
    | inl k ↦ rw (e, k, same-other s r q e k) refl
    | inr k ↦ rw (e, k) (ttl_of-set_ttl q r t m)
  ]
]
  where
    taken :
        (b : Bool)
        → (if b then some t else ttl_of q m)
          ≡ (if b then some t else if b then some u else ttl_of q m)
    taken true = refl
    taken false = refl

least-least : (t : ℕ) (o : Option ℕ) → least t (some (least t o)) ≡ least t o
least-least t none = omega arith
least-least t (some u) = omega arith

abbrev lowered : Bool → ℕ → Option ℕ → Option ℕ
lowered b t o = if b then some (least t o) else o

lowered-lowered :
    (a b : Bool) (t : ℕ) (o : Option ℕ) → lowered a t (lowered b t o) ≡ lowered (b || a) t o
lowered-lowered true true t o = ap some (least-least t o)
lowered-lowered true false t o = refl
lowered-lowered false true t o = refl
lowered-lowered false false t o = refl

flipped : (r q : String) → (q == r) ≡ false → (r == q) ≡ false
flipped r q e = elim (Bool-cases (r == q)) [
  | inl k ↦ absurd (ground (arith, e, (eq_iff q r).1 (sym ((eq_iff r q).0 k))))
  | inr k ↦ k
]

set_least :
    (q r : String) (t : ℕ) (m : List (String × ℕ))
    → ttl_of q (set_ttl r (least t (ttl_of r m)) m) ≡ lowered (q == r) t (ttl_of q m)
set_least q r t m = elim (Bool-cases (q == r)) [
  | inl e ↦
      rw (ttl_of-set_ttl q r (least t (ttl_of r m)) m, sym ((eq_iff q r).0 e), (eq_iff q q).1 refl)
        refl
  | inr e ↦ rw (ttl_of-set_ttl q r (least t (ttl_of r m)) m, e, flipped r q e) refl
]

ttl_of-lower_ttls :
    (q : String) (t : ℕ) (queues : List String) (m : List (String × ℕ))
    → ttl_of q (lower_ttls t queues m) ≡ lowered (contains q queues) t (ttl_of q m)
unfolding lower_ttls
ttl_of-lower_ttls q t [] m = refl
ttl_of-lower_ttls q t (r ∷ queues) m =
    ttl_of-lower_ttls q t queues (set_ttl r (least t (ttl_of r m)) m)
    ∙ ap (lowered (contains q queues) t) (set_least q r t m)
    ∙ lowered-lowered (contains q queues) (q == r) t (ttl_of q m)

least-merge :
    (b : Bool) (t : ℕ) (o rest : Option ℕ)
    → merge (lowered b t o) rest ≡ merge o (if b then some (least t rest) else rest)
least-merge true t none rest = refl
least-merge true t (some u) none = ground arith
least-merge true t (some u) (some v) = ap some (omega arith)
least-merge false t o rest = refl

unmerged : (o : Option ℕ) → o ≡ merge o none
unmerged none = refl
unmerged (some a) = refl

lease_ttl_merge :
    (q : String) (subs : List Sub) (m : List (String × ℕ))
    → ttl_of q (lease_ttl_by_queue subs m) ≡ merge (ttl_of q m) (shortest q subs)
unfolding lease_ttl_by_queue shortest
lease_ttl_merge q [] m = unmerged (ttl_of q m)
lease_ttl_merge q (s ∷ subs) m =
    lease_ttl_merge q subs (lower_ttls s.lease_ttl s.queues m)
    ∙ ap (λ o. merge o (shortest q subs)) (ttl_of-lower_ttls q s.lease_ttl s.queues m)
    ∙ least-merge (contains q s.queues) s.lease_ttl (ttl_of q m) (shortest q subs)

-- The sampler measures a queue by the shortest lease among the subscribers that serve it, and leaves
-- out a queue that none serves.
pub ttl_of-shortest :
    (q : String) (subs : List Sub) → ttl_of q (lease_ttl_by_queue subs []) ≡ shortest q subs
ttl_of-shortest q subs = lease_ttl_merge q subs []
