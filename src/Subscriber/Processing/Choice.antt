-- ===== src/Subscriber/Processing/Choice.antt =====
-- The search for a handler.
use faststream_outbox.Base.{
  ◌≡◌, refl, true, false, Option, none, some, List, [], ◌∷◌, ◌++◌, Result, ok, raise, is_exception,
  All, ap, Bool-cases, inl, inr,
}
use faststream_outbox.Message.Types.{OutboxInnerMessage}
use faststream_outbox.Message.Parser.{OutboxMessage}
use faststream_outbox.Subscriber.Processing.{
  Handler, Found, suitable, unparsable, unsuitable, weigh, choose,
}

-- The handlers before the one that answers, none of which takes the message.
pub record Chosen {ℓ} {S : Type ℓ} (calls : List (Handler S)) (msg : OutboxInnerMessage)
    (h : Handler S) (answer : Result (Option OutboxMessage)) : Type ℓ where
  pub before : List (Handler S)
  pub after : List (Handler S)
  pub listed : calls ≡ before ++ h ∷ after
  pub passed : All (λ b. b.is_suitable msg ≡ ok none) before
  pub answered : h.is_suitable msg ≡ answer

-- No handler takes the message.
pub record Unsuited {ℓ} {S : Type ℓ} (calls : List (Handler S)) (msg : OutboxInnerMessage)
    : Type ℓ where
  pub none_takes : All (λ h. h.is_suitable msg ≡ ok none) calls

-- What the search comes to, described by where the list is split.
abbrev pub Explains {ℓ} :
    {S : Type ℓ} → List (Handler S) → OutboxInnerMessage → Result (Found S) → Type ℓ
Explains {S = S} calls msg (ok (suitable h message)) = Chosen calls msg h (ok (some message))
Explains {S = S} calls msg (ok (unparsable e)) =
    (h : Handler S) × Chosen calls msg h (raise e) × (is_exception e ≡ true)
Explains {S = S} calls msg (ok unsuitable) = Unsuited calls msg
Explains {S = S} calls msg (raise e) =
    (h : Handler S) × Chosen calls msg h (raise e) × (is_exception e ≡ false)

module _ {ℓ} {S : Type ℓ} (msg : OutboxInnerMessage) where
  Chosen-cons :
      {calls : List (Handler S)} {h : Handler S} {answer : Result (Option OutboxMessage)}
      (b : Handler S)
      → b.is_suitable msg ≡ ok none
      → Chosen calls msg h answer
      → Chosen (b ∷ calls) msg h answer
  Chosen-cons b no_ c = record {
    before = b ∷ c.before;
    after = c.after;
    listed = ap (◌∷◌ b) c.listed;
    passed = (no_, c.passed);
    answered = c.answered;
  }

  Explains-cons :
      (calls : List (Handler S)) (b : Handler S) (found : Result (Found S))
      → b.is_suitable msg ≡ ok none
      → Explains calls msg found
      → Explains (b ∷ calls) msg found
  Explains-cons calls b (ok (suitable h m)) no_ c = Chosen-cons b no_ c
  Explains-cons calls b (ok (unparsable e)) no_ (h, c, x) = (h, Chosen-cons b no_ c, x)
  Explains-cons calls b (ok unsuitable) no_ c = record { none_takes = (no_, c.none_takes) }
  Explains-cons calls b (raise e) no_ (h, c, x) = (h, Chosen-cons b no_ c, x)

  here :
      (h : Handler S) (hs : List (Handler S)) (answer : Result (Option OutboxMessage))
      → h.is_suitable msg ≡ answer
      → Chosen (h ∷ hs) msg h answer
  here h hs answer e = record { before = []; after = hs; listed = refl; passed = tt; answered = e }

  weigh-Explains :
      (h : Handler S) (hs : List (Handler S)) (answer : Result (Option OutboxMessage))
      → h.is_suitable msg ≡ answer
      → Explains hs msg (choose hs msg)
      → Explains (h ∷ hs) msg (weigh h answer (choose hs msg))
  weigh-Explains h hs (ok none) e later = Explains-cons hs h (choose hs msg) e later
  weigh-Explains h hs (ok (some m)) e later = here h hs (ok (some m)) e
  weigh-Explains h hs (raise x) e later = elim (Bool-cases (is_exception x)) [
    | inl y ↦ rw y (h, here h hs (raise x) e, y)
    | inr n ↦ rw n (h, here h hs (raise x) e, n)
  ]

  -- The search takes the first handler that does not decline the message: it is called if it takes the
  -- message, and its error is kept if it is an Exception and raised at once if not; the search finds no
  -- handler exactly where every one declines.
  pub choose-Explains : (calls : List (Handler S)) → Explains calls msg (choose calls msg)
  unfolding choose
  choose-Explains [] = record { none_takes = tt }
  choose-Explains (h ∷ hs) = weigh-Explains h hs (h.is_suitable msg) refl (choose-Explains hs)
