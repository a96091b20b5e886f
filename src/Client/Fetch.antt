-- ===== src/Client/Fetch.antt =====
-- The claim statement of `_build_fetch_stmt`: its per-queue, per-lease-state scans with a LIMIT
-- each choose the same rows as one scan of everything that is claimable.
use mathlib.Core.Path.{fun_ext}
use faststream_outbox.Base.{
  ℕ, ◌-◌, ◌≡◌, refl, sym, ap, ◌∙◌, Bool, true, false, not, ◌&&◌, ◌||◌, List, [], ◌∷◌, map, String,
  ◌==◌, string_eq, eq_iff, leb, filter, take, contains, Bool-cases, inl, inr, arith,
}
use faststream_outbox.Base.Sort.{sort, sort-filter-append, take-sort-append_cong, take-sort_idem}
use faststream_outbox.Table.{Row, key_of}
use faststream_outbox.Client.{Claim, unleased, lease_expired, distinct, scan, branch, ready}

-- A row that is due and not locked, in one of the queues, and in the given lease state.
abbrev pub due : Claim → (Row → Bool) → List String → Row → Bool
due c lease_state queues r =
    contains r.queue queues
    && (leb r.next_attempt_at c.now && (lease_state r && not (c.locked r.id)))

-- A row is available if it has no lease or its lease has expired.
abbrev pub available : Claim → Row → Bool
available c r = unleased r || lease_expired (c.now - c.lease_ttl) r

key-injective : (k l : ℕ × ℕ) → k ≡ l → k ≡ l
key-injective k l h = h

contains_of_eq :
    (a q : String) (qs : List String) → contains q qs ≡ true → a ≡ q → contains a qs ≡ true
contains_of_eq a q qs h e = rw e h

due_again :
    (c : Claim) (st : Row → Bool) (q : String) (qs : List String)
    → contains q qs ≡ true
    → (r : Row) → due c st (q ∷ qs) r ≡ due c st qs r
due_again c st q qs h r = ground (arith, eq_iff r.queue q, contains_of_eq r.queue q qs h)

due_apart :
    (c : Claim) (st : Row → Bool) (q : String) (qs : List String)
    → contains q qs ≡ false
    → (r : Row) → due c st (q ∷ []) r ≡ true
    → due c st qs r ≡ false
due_apart c st q qs h r e = ground (arith, eq_iff r.queue q, contains_of_eq q r.queue qs)

due_one :
    (c : Claim) (st : Row → Bool) (q : String) (r : Row)
    → (r.queue == q && (leb r.next_attempt_at c.now && (st r && not (c.locked r.id))))
      ≡ due c st (q ∷ []) r
due_one c st q r = ground arith

due_split :
    (c : Claim) (st : Row → Bool) (q : String) (qs : List String) (r : Row)
    → (due c st (q ∷ []) r || due c st qs r) ≡ due c st (q ∷ qs) r
due_split c st q qs r = ground arith

scan-due :
    (c : Claim) (st : Row → Bool) (q : String) (rows : List Row)
    → scan c st rows q ≡ take c.limit (sort (λ k. k) (map key_of (filter (due c st (q ∷ [])) rows)))
unfolding scan
scan-due c st q rows =
    ap (λ p. take c.limit (sort (λ k. k) (map key_of (filter p rows))))
      (fun_ext (λ r. due_one c st q r))

module _ (c : Claim) (rows : List Row) where
  -- The first entries of the claimable rows' keys, in the order of the claim.
  abbrev first_due : (Row → Bool) → List String → List (ℕ × ℕ)
  first_due st queues = take c.limit (sort (λ k. k) (map key_of (filter (due c st queues) rows)))

  first_due_nil : (st : Row → Bool) (rs : List Row) → filter (due c st []) rs ≡ []
  first_due_nil st [] = refl
  first_due_nil st (r ∷ rs) = first_due_nil st rs

  -- `LIMIT` rows of a branch are `LIMIT` rows of all that its lease state and queues select.
  branch-due :
      (st : Row → Bool) (queues : List String)
      → take c.limit (sort (λ k. k) (branch c st rows (distinct queues))) ≡ first_due st queues
  unfolding branch distinct
  branch-due st [] = rw (first_due_nil st rows)
  branch-due st (q ∷ qs) = elim (Bool-cases (contains q qs)) [
    | inl seen ↦
        rw (seen, branch-due st qs)
          (ap (λ p. take c.limit (sort (λ k. k) (map key_of (filter p rows))))
            (sym (fun_ext (due_again c st q qs seen))))
    | inr new ↦ rw new (
        take-sort-append_cong (λ k. k) key-injective c.limit (scan c st rows q)
          (map key_of (filter (due c st (q ∷ [])) rows)) (branch c st rows (distinct qs))
          (map key_of (filter (due c st qs) rows))
          (rw (scan-due c st q rows)
            (take-sort_idem (λ k. k) c.limit (map key_of (filter (due c st (q ∷ [])) rows))))
          (branch-due st qs)
        ∙ ap (take c.limit) (
            sort-filter-append (λ k. k) key-injective key_of (due c st (q ∷ [])) (due c st qs)
              (due_apart c st q qs new) rows
            ∙ ap (λ p. sort (λ k. k) (map key_of (filter p rows))) (fun_ext (due_split c st q qs))))
  ]

  -- The claim statement takes the first `limit` rows, by activation time and then id, of all rows
  -- in one of the queues that are due, not locked, and without a lease or with an expired one.
  pub ready-available :
      (queues : List String)
      → ready c rows queues
        ≡ take c.limit (sort (λ k. k) (map key_of (filter (due c (available c) queues) rows)))
  unfolding ready
  ready-available queues =
      take-sort-append_cong (λ k. k) key-injective c.limit
        (branch c unleased rows (distinct queues))
        (map key_of (filter (due c unleased queues) rows)) (branch c expired rows (distinct queues))
        (map key_of (filter (due c expired queues) rows)) (branch-due unleased queues)
        (branch-due expired queues)
      ∙ ap (take c.limit) (
          sort-filter-append (λ k. k) key-injective key_of (due c unleased queues)
            (due c expired queues) (λ r h. ground arith) rows
          ∙ ap (λ p. sort (λ k. k) (map key_of (filter p rows))) (fun_ext (λ r. joined r)))
    where
      expired : Row → Bool
      expired = lease_expired (c.now - c.lease_ttl)

      joined :
          (r : Row)
          → (due c unleased queues r || due c expired queues r) ≡ due c (available c) queues r
      joined r = ground arith
