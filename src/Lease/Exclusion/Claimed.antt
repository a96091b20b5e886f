-- ===== src/Lease/Exclusion/Claimed.antt =====
-- A fetch starts the lease that excludes the others.
use faststream_outbox.Base.{
  ℕ, ◌+◌, ◌≤◌, ◌<◌, ◌≡◌, refl, sym, ap, ◌∙◌, true, false, List, [], ◌∷◌, String, contains, All,
  nat_eq, Bool-cases, inl, inr,
}
use faststream_outbox.Table.{Row, Database, claim}
use faststream_outbox.Client
use faststream_outbox.Client.{Claim, ids, ready, claim_rows}
use faststream_outbox.Lease.{Call, step, run}
use faststream_outbox.Lease.Exclusion.{HeldRow, Respects, lease_excludes}

claim_rows-HeldRow :
    (n : ℕ) (c : Claim) (xs : List ℕ) (rows : List Row)
    → contains n xs ≡ true
    → All (HeldRow n c.token c.now) (claim_rows c xs rows)
unfolding claim_rows claim
claim_rows-HeldRow n c xs [] h = tt
claim_rows-HeldRow n c xs (r ∷ rs) h = elim (Bool-cases (contains r.id xs)) [
  | inl e ↦ rw e ((λ same. (refl, refl)), claim_rows-HeldRow n c xs rs h)
  | inr e ↦ rw e (
    (λ same. absurd (cc (sym e ∙ (ap (λ k. contains k xs) same ∙ h)))),
    claim_rows-HeldRow n c xs rs h,
  )
]

-- A row that a fetch chooses is handed out to nobody else while its lease runs: after the fetch and
-- any statements that respect the lease, a fetch that runs before the lease ends does not choose the
-- row again.
pub chosen_once :
    (n : ℕ) (c later : Claim) (q : String) (qs queues : List String) (cs : List Call)
    (db : Database)
    → n < db.next_id
    → contains n (ids (ready c db.rows (q ∷ qs))) ≡ true
    → All (Respects n c.token c.now) cs
    → later.now ≤ c.now + later.lease_ttl
    → contains n (ids (ready later (run cs (step (Call.fetches c (q ∷ qs)) db)).rows queues))
      ≡ false
unfolding step Client.fetch
chosen_once n c later q qs queues cs db issued h g t =
    lease_excludes n c.token c.now cs later queues
      (record db { rows = claim_rows c (ids (ready c db.rows (q ∷ qs))) db.rows })
      (record {
        leased = claim_rows-HeldRow n c (ids (ready c db.rows (q ∷ qs))) db.rows h;
        issued = issued;
      })
      g t
