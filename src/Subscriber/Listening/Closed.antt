-- ===== src/Subscriber/Listening/Closed.antt =====
-- No connection of the fetch loop is left open.
use faststream_outbox.Base.{
  ℕ, ◌+◌, ◌≡◌, refl, Bool, true, false, not, ◌&&◌, List, [], ◌∷◌, ◌++◌, Result, ok, raise, Error,
  is_exception, arith, Bool-cases, inl, inr, subst, sym, count, count-append,
}
use faststream_outbox.Subscriber.Listening.{
  Mark, Answers, is_timeout, suppressed, after_close, close_listen_connection, finally_, caught,
  listen_failed, add_listener_to, detach_from_pool, check_out, open_listen_connection, with_options,
  connected, with_listener, open_fetch_resources,
}

abbrev pub is_checked_out : Mark → Bool
is_checked_out Mark.checked_out = true
is_checked_out _ = false

abbrev pub is_closing : Mark → Bool
is_closing Mark.closing = true
is_closing _ = false

abbrev pub is_opened : Mark → Bool
is_opened Mark.opened = true
is_opened _ = false

abbrev pub is_returned : Mark → Bool
is_returned Mark.returned = true
is_returned _ = false

-- From `t` to `t'`, `n` LISTEN connections were taken and not closed, or `d` closed that had been held.
abbrev pub Net : (Mark → Bool) → (Mark → Bool) → ℕ → ℕ → List Mark → List Mark → Type 0
Net p q n d t t' = count p t' + count q t + d ≡ count q t' + count p t + n

Net-trans :
    (p q : Mark → Bool) (n d m e : ℕ) (a b c : List Mark)
    → Net p q n d a b
    → Net p q m e b c
    → Net p q (n + m) (d + e) a c
Net-trans p q n d m e a b c h k = omega arith

Net-of :
    (p q : Mark → Bool) (n d m e : ℕ) (a b : List Mark)
    → n + e ≡ m + d
    → Net p q n d a b
    → Net p q m e a b
Net-of p q n d m e a b same h = omega arith

Net-mark :
    (p q : Mark → Bool) (t : List Mark) (m : Mark)
    → Net p q (count p (m ∷ [])) (count q (m ∷ [])) t (t ++ m ∷ [])
Net-mark p q t m = omega (arith, count-append p t (m ∷ []), count-append q t (m ∷ []))

-- Both kinds of connection: `n` and `d` for LISTEN, and for fetching none.
abbrev pub Holds : ℕ → ℕ → List Mark → List Mark → Type 0
Holds n d t t' = Net is_checked_out is_closing n d t t' × Net is_opened is_returned 0 0 t t'

Holds-trans :
    (n d m e : ℕ) (a b c : List Mark) → Holds n d a b → Holds m e b c → Holds (n + m) (d + e) a c
Holds-trans n d m e a b c h k = (
  Net-trans is_checked_out is_closing n d m e a b c h.0 k.0,
  Net-trans is_opened is_returned 0 0 0 0 a b c h.1 k.1,
)

Holds-of : (n d m e : ℕ) (a b : List Mark) → n + e ≡ m + d → Holds n d a b → Holds m e a b
Holds-of n d m e a b same h = (Net-of is_checked_out is_closing n d m e a b same h.0, h.1)

marked :
    (t : List Mark) (m : Mark)
    → count is_opened (m ∷ []) ≡ count is_returned (m ∷ [])
    → Holds (count is_checked_out (m ∷ [])) (count is_closing (m ∷ [])) t (t ++ m ∷ [])
marked t m h = (
  Net-mark is_checked_out is_closing t m,
  Net-of is_opened is_returned _ _ 0 0 t (t ++ m ∷ []) (omega (arith, h))
      (Net-mark is_opened is_returned t m),
)

Holds-refl : (t : List Mark) → Holds 0 0 t t
Holds-refl t = (omega arith, omega arith)

close-Holds : (a : Answers) (t : List Mark) → Holds 0 1 t (close_listen_connection a t).0
unfolding close_listen_connection
close-Holds a t = ended a.close
  where
    began : Holds 0 1 t (t ++ Mark.closing ∷ [])
    began = marked t Mark.closing refl

    ended : (r : Result (Unit {0})) → Holds 0 1 t (after_close a r (t ++ Mark.closing ∷ [])).0
    ended (ok u) = began
    ended (raise e) = elim (Bool-cases (is_exception e)) [
      | inr n ↦ rw n began
      | inl y ↦ rw y (
          Holds-trans 0 1 0 0 t (t ++ Mark.closing ∷ [])
            ((t ++ Mark.closing ∷ []) ++ Mark.terminating ∷ []) began
            (marked (t ++ Mark.closing ∷ []) Mark.terminating refl))
    ]

finally-same :
    {A : Type 0} (r : Result A) (p : List Mark × Result (Unit {0})) → (finally_ r p).0 ≡ p.0
finally-same r (t, ok u) = refl
finally-same r (t, raise e) = refl

-- One LISTEN connection more is held exactly if the answer is that it listens.
abbrev pub listens : Result Bool → ℕ
listens (ok true) = 1
listens _ = 0

abbrev pub Opens : List Mark → List Mark × Result Bool → Type 0
Opens t (t', r) = Holds (listens r) 0 t t'

failed-answer :
    (e : Error) (p : List Mark × Result (Unit {0})) → listens (finally_ (caught true e) p).1 ≡ 0
failed-answer e (t, raise x) = refl
failed-answer e (t, ok u) = elim (Bool-cases (is_exception e && not (is_timeout e))) [
  | inl y ↦ rw y refl
  | inr n ↦ rw n refl
]

unheard : (e : Error) → listens (caught false e) ≡ 0
unheard e = elim (Bool-cases (is_exception e)) [ inl y ↦ rw y refl | inr n ↦ rw n refl ]

module _ (a : Answers) (t : List Mark) where
  failed-Opens : (e : Error) (t' : List Mark) → Holds 1 0 t t' → Opens t (listen_failed a true e t')
  unfolding listen_failed
  failed-Opens e t' h =
      let p = close_listen_connection a t' in
      subst (λ n. Holds n 0 t (finally_ (caught true e) p).0) (sym (failed-answer e p))
        (subst (Holds 0 0 t) (sym (finally-same (caught true e) p))
          (Holds-of 1 1 0 0 t p.0 refl (Holds-trans 1 0 0 1 t t' p.0 h (close-Holds a t'))))

  marked_after :
      (t' : List Mark) (m : Mark)
      → Holds 1 0 t t'
      → count is_checked_out (m ∷ []) ≡ 0
      → count is_closing (m ∷ []) ≡ 0
      → count is_opened (m ∷ []) ≡ count is_returned (m ∷ [])
      → Holds 1 0 t (t' ++ m ∷ [])
  marked_after t' m h i j k =
      Holds-trans 1 0 0 0 t t' (t' ++ m ∷ []) h
        (Holds-of _ _ 0 0 t' (t' ++ m ∷ []) (omega (arith, i, j)) (marked t' m k))

  add_listener-Opens :
      (r : Result (Unit {0})) (t' : List Mark) → Holds 1 0 t t' → Opens t (add_listener_to a r t')
  unfolding add_listener_to
  add_listener-Opens (ok u) t' h = marked_after t' Mark.listening h refl refl refl
  add_listener-Opens (raise e) t' h = failed-Opens e t' h

  detach-Opens :
      (r : Result (Unit {0})) (t' : List Mark) → Holds 1 0 t t' → Opens t (detach_from_pool a r t')
  unfolding detach_from_pool
  detach-Opens (ok u) t' h =
      add_listener-Opens a.add_listener (t' ++ Mark.detached ∷ [])
        (marked_after t' Mark.detached h refl refl refl)
  detach-Opens (raise e) t' h = failed-Opens e t' h

  check_out-Opens : (r : Result (Unit {0})) → Opens t (check_out a r t)
  unfolding listen_failed
  check_out-Opens (ok u) =
      detach-Opens a.detach (t ++ Mark.checked_out ∷ []) (marked t Mark.checked_out refl)
  check_out-Opens (raise e) = subst (λ n. Holds n 0 t t) (sym (unheard e)) (Holds-refl t)

-- `_open_listen_connection` holds a connection exactly if it answers one that listens: on every other
-- path, errors and timeouts included, a connection that it checked out gets its close.
pub open_listen_connection-Opens :
    (asyncpg : Bool) (a : Answers) (t : List Mark) → Opens t (open_listen_connection asyncpg a t)
unfolding open_listen_connection
open_listen_connection-Opens false a t = Holds-refl t
open_listen_connection-Opens true a t = check_out-Opens a t a.raw_connection

-- The connection for fetching, from its opening to its return.
connected-Holds :
    (a : Answers) (r body : Result (Unit {0})) (t : List Mark)
    → Holds 0 0 t (connected a r body t).0
connected-Holds a (raise e) body t = Holds-refl t
connected-Holds a (ok u) body t = optioned a.execution_options
  where
    both_marks : Holds 0 0 t ((t ++ Mark.opened ∷ []) ++ Mark.returned ∷ [])
    both_marks =
        let t' = t ++ Mark.opened ∷ [] in
        let t'' = t' ++ Mark.returned ∷ [] in
        (
          Net-trans is_checked_out is_closing 0 0 0 0 t t' t''
              (Net-mark is_checked_out is_closing t Mark.opened)
              (Net-mark is_checked_out is_closing t' Mark.returned),
          Net-of is_opened is_returned 1 1 0 0 t t'' refl (
              Net-trans is_opened is_returned 1 0 0 1 t t' t''
                (Net-mark is_opened is_returned t Mark.opened)
                (Net-mark is_opened is_returned t' Mark.returned)),
        )

    optioned : (r : Result (Unit {0})) → Holds 0 0 t (with_options r body (t ++ Mark.opened ∷ [])).0
    optioned (ok u) = both_marks
    optioned (raise e) = both_marks

with_listener-Holds :
    (a : Answers) (body : Result (Unit {0})) (t : List Mark) (p : List Mark × Result Bool)
    → Opens t p
    → Holds 0 0 t (with_listener a body p).0
with_listener-Holds a body t (t', raise e) h = h
with_listener-Holds a body t (t', ok false) h =
    Holds-trans 0 0 0 0 t t' (connected a a.connect body t').0 h
      (connected-Holds a a.connect body t')
with_listener-Holds a body t (t', ok true) h =
    let (u, r) = connected a a.connect body t' in
    let before = Holds-trans 1 0 0 0 t t' u h (connected-Holds a a.connect body t') in
    let p = close_listen_connection a u in
    subst (Holds 0 0 t) (sym (finally-same r p))
      (Holds-of 1 1 0 0 t p.0 refl (Holds-trans 1 0 0 1 t u p.0 before (close-Holds a u)))

-- However the context of the fetch loop is left, by the end of the loop, an error of it, or an error of
-- any call on the way, as many LISTEN connections get a close as were checked out, and as many
-- connections for fetching go back to the pool as were opened.
pub open_fetch_resources-Holds :
    (engine asyncpg : Bool) (a : Answers) (body : Result (Unit {0})) (t : List Mark)
    → Holds 0 0 t (open_fetch_resources engine asyncpg a body t).0
unfolding open_fetch_resources
open_fetch_resources-Holds false asyncpg a body t = Holds-refl t
open_fetch_resources-Holds true asyncpg a body t =
    with_listener-Holds a body t (open_listen_connection asyncpg a t)
      (open_listen_connection-Opens asyncpg a t)

-- A close is best effort: whatever it meets, the only errors that leave it are no Exceptions.
pub close_listen_connection-quiet :
    (a : Answers) (t : List Mark) (e : Error)
    → (close_listen_connection a t).1 ≡ raise e
    → is_exception e ≡ false
unfolding close_listen_connection
close_listen_connection-quiet a t e h = after a.close h
  where
    hard : (r : Result (Unit {0})) → suppressed r ≡ raise e → is_exception e ≡ false
    hard (ok u) h = absurd (ground (arith, h))
    hard (raise x) h = elim (Bool-cases (is_exception x)) [
      | inl y ↦ let k : ok tt ≡ raise e = rw y at h in absurd (ground (arith, k))
      | inr n ↦ ground (arith, h)
    ]

    after :
        (r : Result (Unit {0}))
        → (after_close a r (t ++ Mark.closing ∷ [])).1 ≡ raise e
        → is_exception e ≡ false
    after (ok u) h = absurd (ground (arith, h))
    after (raise x) h = elim (Bool-cases (is_exception x)) [
      | inl y ↦ hard a.terminate (rw y at h)
      | inr n ↦ ground (arith, h)
    ]
