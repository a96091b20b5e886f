-- ===== src/Subscriber/Processing/Firing.antt =====
-- A reply goes to the outbox or to foreign brokers, and never to both.
use mathlib.Core.List.{reverse}
use faststream_outbox.Base.{
  ℕ, ◌+◌, ◌≡◌, refl, sym, subst, ◌∙◌, ◌⊎◌, inl, inr, Bool, true, false, not, Option, List, [], ◌∷◌,
  ◌++◌, Result, ok, raise, Error, map, any, Bool-cases, arith,
}
use faststream_outbox.Message.Types.{OutboxInnerMessage}
use faststream_outbox.Message.Parser.{OutboxMessage}
use faststream_outbox.Publish.Relay.{Response, reject_outbox_response_with_foreign_publisher}
use faststream_outbox.Subscriber.Processing.{
  Reply, Mark, Run, Middleware, Publisher, outbox, foreign, is_fake, Handler, Found, suitable,
  unparsable, unsuitable, carry, mark, complete, choose, answer, publish_reply, fake_publish,
  publish_to, publish_each, respond, settle, enter_each, after_exit, exit_each, error_of,
  process_chosen, process_message,
}

-- The rows handed to the producer, and the bodies published to foreign brokers.
abbrev pub stores : List Mark → ℕ
stores [] = 0
stores (Mark.stored ∷ ms) = 1 + stores ms
stores (Mark.relayed ∷ ms) = stores ms
stores (Mark.called i ∷ ms) = stores ms
stores (Mark.entered i ∷ ms) = stores ms
stores (Mark.exited i ∷ ms) = stores ms

abbrev pub relays : List Mark → ℕ
relays [] = 0
relays (Mark.relayed ∷ ms) = 1 + relays ms
relays (Mark.stored ∷ ms) = relays ms
relays (Mark.called i ∷ ms) = relays ms
relays (Mark.entered i ∷ ms) = relays ms
relays (Mark.exited i ∷ ms) = relays ms

marked :
    (xs : List Mark) (m : Mark)
    → (stores (xs ++ m ∷ []) ≡ stores xs + stores (m ∷ []))
      × (relays (xs ++ m ∷ []) ≡ relays xs + relays (m ∷ []))
marked [] m = (omega arith, omega arith)
marked (Mark.stored ∷ xs) m = (omega (arith, (marked xs m).0), (marked xs m).1)
marked (Mark.relayed ∷ xs) m = ((marked xs m).0, omega (arith, (marked xs m).1))
marked (Mark.called i ∷ xs) m = marked xs m
marked (Mark.entered i ∷ xs) m = marked xs m
marked (Mark.exited i ∷ xs) m = marked xs m

-- Neither, only rows, only bodies: what a step did, by the kind of its reply.
abbrev Fires {ℓ} : {S : Type ℓ} → Bool → Run S → Run S → Type 0
Fires true r r' = relays r'.marks ≡ relays r.marks
Fires false r r' = stores r'.marks ≡ stores r.marks

Fires-refl {ℓ} : {S : Type ℓ} (b : Bool) (r : Run S) → Fires b r r
Fires-refl true r = refl
Fires-refl false r = refl

Fires-trans {ℓ} : {S : Type ℓ} (b : Bool) (x y z : Run S) → Fires b x y → Fires b y z → Fires b x z
Fires-trans true x y z h k = k ∙ h
Fires-trans false x y z h k = k ∙ h

carry-Fires {ℓ κ μ} :
    {S : Type ℓ} {A : Type κ} {B : Type μ} (b : Bool) (f : A → Run S → Run S × Result B) (r : Run S)
    (p : Run S × Result A)
    → Fires b r p.0
    → ((x : A) (q : Run S) → Fires b q (f x q).0)
    → Fires b r (carry f p).0
carry-Fires b f r (q, ok x) h k = Fires-trans b r q (f x q).0 h (k x q)
carry-Fires b f r (q, raise e) h k = h

-- Where what follows fires in one way or the other.
carry-either {ℓ κ μ} :
    {S : Type ℓ} {A : Type κ} {B : Type μ} (f : A → Run S → Run S × Result B) (r : Run S)
    (p : Run S × Result A)
    → ((b : Bool) → Fires b r p.0)
    → ((x : A) (q : Run S) → (b : Bool) × Fires b q (f x q).0)
    → (b : Bool) × Fires b r (carry f p).0
carry-either f r (q, raise e) h k = (true, h true)
carry-either f r (q, ok x) h k =
    let (b, fired) = k x q in (b, Fires-trans b r q (f x q).0 (h b) fired)

either_way {ℓ} :
    {S : Type ℓ} (r r' : Run S) (b : Bool)
    → Fires b r r'
    → (stores r'.marks ≡ stores r.marks) ⊎ (relays r'.marks ≡ relays r.marks)
either_way r r' true h = inr h
either_way r r' false h = inl h

-- A mark that is no publish.
abbrev IsQuiet : Mark → Type 0
IsQuiet m = (stores (m ∷ []) ≡ 0) × (relays (m ∷ []) ≡ 0)

quiet-Fires {ℓ κ} :
    {S : Type ℓ} {A : Type κ} (b : Bool) (m : Mark) (act : S → S × Result A) (r : Run S)
    → IsQuiet m
    → Fires b r (mark m act r).0
quiet-Fires true m act r h = omega (arith, marked r.marks m)
quiet-Fires false m act r h = omega (arith, marked r.marks m)

rejected :
    (r : Response) (fake : List Bool)
    → r.is_outbox ≡ true
    → any not fake ≡ true
    → reject_outbox_response_with_foreign_publisher r fake ≡ raise Error.config_error
unfolding reject_outbox_response_with_foreign_publisher
rejected r fake out both_ = rw (out, both_) refl

module _ {ℓ} {S : Type ℓ} (producer : Reply → S → S × Result (Unit {0})) where
  quiet_of_stored :
      (reply : Reply) (r : Run S) → Fires true r (mark Mark.stored (producer reply) r).0
  quiet_of_stored reply r = omega (arith, marked r.marks Mark.stored)

  fake_publish-Fires :
      (reply : Reply) (r : Run S)
      → Fires reply.response.is_outbox r (fake_publish producer reply r).0
  unfolding fake_publish
  fake_publish-Fires reply r = elim (Bool-cases reply.response.is_outbox) [
    | inr plain ↦ rw plain refl
    | inl out ↦ elim (Bool-cases reply.in_transaction) [
      | inr done ↦ rw (out, done) refl
      | inl open_ ↦ rw (out, open_) (quiet_of_stored reply r)
    ]
  ]

  published :
      (b : Bool) (reply : Reply) (ps : List (Publisher S)) (guard : Result (Unit {0})) (r : Run S)
      → ((q : Run S) → Fires b q (publish_each producer reply (outbox ∷ ps) q).0)
      → Fires b r (carry (publish_reply producer ps reply) (r, guard)).0
  published b reply ps guard r h =
      carry-Fires b (publish_reply producer ps reply) r (r, guard) (Fires-refl b r)
        (λ _ q.
          carry-Fires b (answer producer reply) q (publish_each producer reply (outbox ∷ ps) q)
            (h q) (λ _ q'. Fires-refl b q'))

  -- A foreign publisher stores no row.
  publish_each-stores :
      (reply : Reply) (ps : List (Publisher S)) (r : Run S)
      → reply.response.is_outbox ≡ false
      → Fires false r (publish_each producer reply ps r).0
  unfolding publish_each publish_to
  publish_each-stores reply [] r plain = refl
  publish_each-stores reply (outbox ∷ ps) r plain =
      carry-Fires false (λ _. publish_each producer reply ps) r (fake_publish producer reply r)
        (subst (λ b. Fires b r (fake_publish producer reply r).0) plain
          (fake_publish-Fires reply r))
        (λ _ q. publish_each-stores reply ps q plain)
  publish_each-stores reply (foreign publish ∷ ps) r plain =
      carry-Fires false (λ _. publish_each producer reply ps) r
        (mark Mark.relayed (publish reply) r) (omega (arith, marked r.marks Mark.relayed))
        (λ _ q. publish_each-stores reply ps q plain)

  -- With no foreign publisher nothing is relayed.
  publish_each-relays :
      (reply : Reply) (ps : List (Publisher S)) (r : Run S)
      → reply.response.is_outbox ≡ true
      → any not (map is_fake ps) ≡ false
      → Fires true r (publish_each producer reply ps r).0
  unfolding publish_each publish_to
  publish_each-relays reply [] r out only = refl
  publish_each-relays reply (outbox ∷ ps) r out only =
      carry-Fires true (λ _. publish_each producer reply ps) r (fake_publish producer reply r)
        (subst (λ b. Fires b r (fake_publish producer reply r).0) out (fake_publish-Fires reply r))
        (λ _ q. publish_each-relays reply ps q out (ground (arith, only)))
  publish_each-relays reply (foreign publish ∷ ps) r out only = absurd (ground (arith, only))

  respond-Fires :
      (propagate : Bool) (h : Handler S) (message : OutboxMessage) (answered : Reply) (r : Run S)
      → (b : Bool) × Fires b r (respond producer propagate h message answered r).0
  unfolding respond
  respond-Fires propagate h message answered r =
      let reply = complete propagate message answered in
      let guard =
        reject_outbox_response_with_foreign_publisher reply.response (map is_fake h.publishers) in
      elim (Bool-cases reply.response.is_outbox) [
        | inr plain ↦ (
          false,
          published false reply h.publishers guard r
              (λ q. publish_each-stores reply (outbox ∷ h.publishers) q plain),
        )
        | inl out ↦ elim (Bool-cases (any not (map is_fake h.publishers))) [
          | inr only ↦ (
            true,
            published true reply h.publishers guard r
                (λ q. publish_each-relays reply (outbox ∷ h.publishers) q out only),
          )
          | inl both_ ↦ (
            true,
            subst (λ g. Fires true r (carry (publish_reply producer h.publishers reply) (r, g)).0)
                (sym (rejected reply.response (map is_fake h.publishers) out both_)) refl,
          )
        ]
      ]

  settle-Fires :
      (propagate : Bool) (found : Found S) (r : Run S)
      → (b : Bool) × Fires b r (settle producer propagate found r).0
  unfolding settle
  settle-Fires propagate (unparsable e) r = (true, refl)
  settle-Fires propagate unsuitable r = (true, refl)
  settle-Fires propagate (suitable h message) r =
      carry-either (respond producer propagate h message) r
        (mark (Mark.called h.id) (h.call message) r)
        (λ b. quiet-Fires b (Mark.called h.id) (h.call message) r (refl, refl))
        (λ answered q. respond-Fires propagate h message answered q)

  enter_each-Fires :
      (b : Bool) (ms : List (Middleware S)) (r : Run S) → Fires b r (enter_each producer ms r).0
  unfolding enter_each
  enter_each-Fires b [] r = Fires-refl b r
  enter_each-Fires b (m ∷ ms) r =
      carry-Fires b (λ _. enter_each producer ms) r (mark (Mark.entered m.id) m.enter r)
        (quiet-Fires b (Mark.entered m.id) m.enter r (refl, refl)) (λ _ q. enter_each-Fires b ms q)

  exit_each-Fires :
      (b : Bool) (ms : List (Middleware S)) (pending : Option Error) (r : Run S)
      → Fires b r (exit_each producer ms pending r).0
  unfolding exit_each
  exit_each-Fires b [] pending r = Fires-refl b r
  exit_each-Fires b (m ∷ ms) pending r =
      let p = mark (Mark.exited m.id) (m.exit pending) r in
      Fires-trans b r p.0 (exit_each producer ms (after_exit producer pending p.1) p.0).0
        (quiet-Fires b (Mark.exited m.id) (m.exit pending) r (refl, refl))
        (exit_each-Fires b ms (after_exit producer pending p.1) p.0)

  chosen-Fires :
      (propagate : Bool) (ms : List (Middleware S)) (found : Result (Found S)) (r : Run S)
      → (b : Bool) × Fires b r (process_chosen producer propagate ms found r).0
  chosen-Fires propagate ms (raise e) r = (true, refl)
  chosen-Fires propagate ms (ok found) r =
      let (b, fired) = settle-Fires propagate found r in
      let (q, body) = settle producer propagate found r in
      (
        b,
        Fires-trans b r (settle producer propagate found r).0 _ fired
            (exit_each-Fires b (reverse ms) (error_of producer body) q),
      )

  -- Whatever the handlers, the middlewares and the publishers do, one message never both stores a row in the
  -- outbox by its reply and publishes to a foreign broker.
  pub process_message-fires :
      (propagate : Bool) (ms : List (Middleware S)) (calls : List (Handler S))
      (msg : OutboxInnerMessage) (r : Run S)
      → let r' = (process_message producer propagate ms calls msg r).0 in
        (stores r'.marks ≡ stores r.marks) ⊎ (relays r'.marks ≡ relays r.marks)
  unfolding process_message
  process_message-fires propagate ms calls msg r =
      let (b, fired) =
        carry-either (λ _. process_chosen producer propagate ms (choose calls msg)) r
          (enter_each producer ms r) (λ b. enter_each-Fires b ms r)
          (λ _ q. chosen-Fires propagate ms (choose calls msg) q) in
      either_way r (process_message producer propagate ms calls msg r).0 b fired
