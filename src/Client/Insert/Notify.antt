-- ===== src/Client/Insert/Notify.antt =====
-- The NOTIFY of faststream_outbox/client.py, `_OutboxInserter.insert`: once for each queue of a
-- transaction.
use faststream_outbox.Base.{
  ℕ, ◌+◌, ◌≡◌, subst, Bool, true, not, ◌&&◌, Option, some, [], ◌∷◌, ◌++◌, String, Result, ok, raise,
  ◌>>=◌, ◌==◌, nat_eq, string_eq, eq_iff, is_some, contains, length, if◌then◌else◌, Bool-cases, inl,
  inr, arith,
}
use faststream_outbox.Message.Scheduling.{is_future_dated}
use faststream_outbox.Client.Insert.{
  Notified, notified_in, note, Session, already, remember, Publishing, Schedule, NewRow,
  next_attempt, run_insert, insert,
}

note-noted :
    (t : ℕ) (q : String) (memo : Notified) → contains q (notified_in t (note t q memo)) ≡ true
note-noted t q [] = ground (arith, eq_iff q q)
note-noted t q ((s, qs) ∷ rest) = elim (Bool-cases (s == t)) [
  | inl e ↦ rw e (ground (arith, eq_iff q q))
  | inr e ↦ rw e (ground (arith, note-noted t q rest))
]

-- Whether an insert notifies, and what it leaves behind then.
abbrev fires : ℕ → ℕ → Session → Schedule → NewRow → Publishing → Option ℕ → Bool
fires now utc session s n p next =
    not (is_future_dated s.activate_in s.activate_at utc)
    && not (already session.before n.queue p.notified)
    && is_some (run_insert s.timer_conflict now next n p.db).1

abbrev published :
    ℕ → ℕ → Session → Schedule → NewRow → Publishing → Option ℕ → Publishing × Option ℕ
published now utc session s n p next =
    let fired = fires now utc session s n p next in
    (
      record {
        db = (run_insert s.timer_conflict now next n p.db).0;
        notified = if fired then remember session.after n.queue p.notified else p.notified;
        sent = if fired then p.sent ++ n.queue ∷ [] else p.sent;
      },
      (run_insert s.timer_conflict now next n p.db).1,
    )

ok-publishing : {a b : Publishing × Option ℕ} → ok a ≡ ok b → a ≡ b
ok-publishing h = ground (arith, h)

-- What holds of every completed insert holds of the one that was run.
completed :
    (P : Publishing → Type 0) (r : Result (Option ℕ)) (f : Option ℕ → Publishing × Option ℕ)
    {p' : Publishing} {id : Option ℕ}
    → ((next : Option ℕ) → P (f next).0)
    → (r >>= λ next. ok (f next)) ≡ ok (p', id)
    → P p'
completed P (raise e) f g h = absurd (ground arith)
completed P (ok next) f g h = subst (λ a. P a.0) (ok-publishing h) (g next)

fired-noted :
    (now utc : ℕ) (session : Session) (s : Schedule) (n : NewRow) (p p' : Publishing)
    (id : Option ℕ) (t : ℕ)
    → session.after ≡ some t
    → insert now utc session s n p ≡ ok (p', id)
    → length p'.sent ≡ length p.sent + 1
    → already (some t) n.queue p'.notified ≡ true
unfolding insert
fired-noted now utc session s n p p' id t a h =
    completed (λ o. length o.sent ≡ length p.sent + 1 → already (some t) n.queue o.notified ≡ true)
      (next_attempt now s.activate_in s.activate_at) (published now utc session s n p)
      (λ next. elim (Bool-cases (fires now utc session s n p next)) [
        | inl e ↦ rw (e, a) (λ k. note-noted t n.queue p.notified)
        | inr e ↦ rw e (λ k. absurd (omega (arith, k)))
      ])
      h

quiet-sent :
    (now utc : ℕ) (session : Session) (s : Schedule) (n : NewRow) (p p' : Publishing)
    (id : Option ℕ)
    → already session.before n.queue p.notified ≡ true
    → insert now utc session s n p ≡ ok (p', id)
    → p'.sent ≡ p.sent
unfolding insert
quiet-sent now utc session s n p p' id a h =
    completed (λ o. o.sent ≡ p.sent) (next_attempt now s.activate_in s.activate_at)
      (published now utc session s n p) (λ next. ground arith) h

-- After an insert that sent a NOTIFY, in a session that is then in some transaction, a next insert for
-- the same queue on a session that is still in that transaction sends none, whatever its schedule and
-- timer policy.
pub notify_once :
    (now utc later later_utc t : ℕ) (first next : Session) (s s' : Schedule) (n n' : NewRow)
    (p p' p'' : Publishing) (id id' : Option ℕ)
    → first.after ≡ some t
    → next.before ≡ some t
    → n'.queue ≡ n.queue
    → insert now utc first s n p ≡ ok (p', id)
    → length p'.sent ≡ length p.sent + 1
    → insert later later_utc next s' n' p' ≡ ok (p'', id')
    → p''.sent ≡ p'.sent
notify_once now utc later later_utc t first next s s' n n' p p' p'' id id' a b same h sent k =
    quiet-sent later later_utc next s' n' p' p'' id'
      (rw (b, same) (fired-noted now utc first s n p p' id t a h sent)) k
