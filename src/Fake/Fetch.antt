-- ===== src/Fake/Fetch.antt =====
-- The fake's `fetch` refines the claim statement of OutboxClient.
use mathlib.Core.Path.{fun_ext}
use faststream_outbox.Base.{
  ℕ, ◌≡◌, ◌≢◌, refl, sym, ap, subst, ◌∙◌, true, false, List, [], ◌∷◌, map, String, ok, nat_eq,
  filter, take, contains, Bool-cases, inl, inr, arith,
}
use faststream_outbox.Base.Sort.{sort}
use faststream_outbox.Base.Sort.Commute.{sort-filter, sort-Pairwise, sort-map, take-map}
use faststream_outbox.Table.{Row, claim, key_of, row_to_message}
use faststream_outbox.Table.Rows.{UniqueIds}
use faststream_outbox.Client
use faststream_outbox.Client.{Claim, ids, ready, claim_rows, message_key}
use faststream_outbox.Client.Fetch.{due, available, ready-available}
use faststream_outbox.Fake.{FakeOutboxClient, eligible, fetch}
use faststream_outbox.Fake.Refinement.{
  row_ids, chosen, kept, kept-chosen, chosen-UniqueIds, claim_if, claim_each_rows,
  claim_each_messages,
}

eligible-due :
    (c : Claim) (queues : List String)
    → ((n : ℕ) → c.locked n ≡ false)
    → (r : Row) → due c (available c) queues r ≡ eligible c queues r
unfolding eligible
eligible-due c queues free r = ground (arith, free r.id)

ids-keys : (rows : List Row) → ids (map key_of rows) ≡ row_ids rows
ids-keys [] = refl
ids-keys (r ∷ rs) = ap (◌∷◌ r.id) (ids-keys rs)

-- What `RETURNING` selects of the updated rows is the claim of the chosen rows.
returned-claimed :
    (c : Claim) (xs : List ℕ) (rows : List Row)
    → filter (λ r. contains r.id xs) (map (claim_if c xs) rows)
      ≡ map (claim c.now c.token) (filter (λ r. contains r.id xs) rows)
unfolding claim
returned-claimed c xs [] = refl
returned-claimed c xs (r ∷ rs) = elim (Bool-cases (contains r.id xs)) [
  | inl e ↦ rw (e, e) (ap (◌∷◌ (claim c.now c.token r)) (returned-claimed c xs rs))
  | inr e ↦ rw (e, e) (returned-claimed c xs rs)
]

different_symm : (r s : Row) → r.id ≢ s.id → s.id ≢ r.id
different_symm r s h e = h (sym e)

module _ (monotonic : ℕ) (c : Claim) (free : (n : ℕ) → c.locked n ≡ false) where
  module _ (queues : List String) (rows : List Row) where
    -- The rows that the fake claims, in the order of the claim.
    abbrev claimed : List Row
    claimed = take c.limit (sort key_of (filter (eligible c queues) rows))

    ready-claimed : ids (ready c rows queues) ≡ row_ids claimed
    ready-claimed =
        ap ids (
          ready-available c rows queues
          ∙ (ap (λ p. take c.limit (sort (λ k. k) (map key_of (filter p rows))))
                (fun_ext (eligible-due c queues free))
              ∙ (ap (take c.limit)
                    (sort-map key_of key_of (λ k. k) (λ r. refl) (filter (eligible c queues) rows))
                  ∙ take-map key_of c.limit (sort key_of (filter (eligible c queues) rows)))))
        ∙ ids-keys claimed

    claimed-chosen : claimed ≡ chosen (eligible c queues) c.limit (sort key_of rows)
    claimed-chosen = ap (take c.limit) (sort-filter key_of (eligible c queues) rows)

    sorted-UniqueIds : UniqueIds rows → UniqueIds (sort key_of rows)
    sorted-UniqueIds = sort-Pairwise key_of (λ r s. r.id ≢ s.id) different_symm rows

    claimed-UniqueIds : UniqueIds rows → UniqueIds claimed
    claimed-UniqueIds u =
        subst UniqueIds (sym claimed-chosen)
          (chosen-UniqueIds (eligible c queues) c.limit (sort key_of rows) (sorted-UniqueIds u))

    -- Selected by their ids and sorted, the claimed rows are themselves.
    sort-claimed :
        UniqueIds rows → sort key_of (filter (λ r. contains r.id (row_ids claimed)) rows) ≡ claimed
    sort-claimed u =
        sort-filter key_of (λ r. contains r.id (row_ids claimed)) rows
        ∙ subst (λ ts. kept (eligible c queues) ts (sort key_of rows) ≡ ts) (sym claimed-chosen)
            (kept-chosen (eligible c queues) c.limit (sort key_of rows) (sorted-UniqueIds u))

    abbrev returned : List Row → List Row
    returned ts = filter (λ r. contains r.id (row_ids ts)) (map (claim_if c (row_ids ts)) rows)

    sort-returned :
        UniqueIds rows
        → sort message_key (map (row_to_message monotonic) (returned claimed))
          ≡ map (row_to_message monotonic) (map (claim c.now c.token) claimed)
    unfolding row_to_message claim
    sort-returned u =
        sort-map (row_to_message monotonic) key_of message_key (λ r. refl) (returned claimed)
        ∙ ap (map (row_to_message monotonic)) (
            ap (sort key_of) (returned-claimed c (row_ids claimed) rows)
            ∙ (sort-map (claim c.now c.token) key_of key_of (λ r. refl)
                  (filter (λ r. contains r.id (row_ids claimed)) rows)
                ∙ ap (map (claim c.now c.token)) (sort-claimed u)))

  -- On any rows with unique ids, none of them locked, the fake's fetch leaves the rows and returns
  -- the messages, in order, that the claim statement of OutboxClient.fetch leaves and returns.
  pub fetch_refines :
      (queues : List String) (k : FakeOutboxClient)
      → UniqueIds k.rows
      → Client.fetch true monotonic c queues k.tables
        ≡ ok ((fetch monotonic c queues k).0.tables, (fetch monotonic c queues k).1)
  unfolding Client.fetch fetch Client.claim_rows
  fetch_refines [] k u = refl
  fetch_refines (q ∷ qs) k u = rw (
    ready-claimed (q ∷ qs) k.rows,
    claim_each_rows monotonic c (claimed (q ∷ qs) k.rows) k.rows
        (claimed-UniqueIds (q ∷ qs) k.rows u),
    claim_each_messages monotonic c (claimed (q ∷ qs) k.rows) k.rows,
    sort-returned (q ∷ qs) k.rows u,
  )
