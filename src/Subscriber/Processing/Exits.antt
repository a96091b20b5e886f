-- ===== src/Subscriber/Processing/Exits.antt =====
-- Every middleware that was entered is exited.
use mathlib.Core.List.{reverse}
use faststream_outbox.Base.{
  ℕ, ◌≡◌, refl, sym, ap, subst, ◌∙◌, Bool, Option, List, [], ◌∷◌, ◌++◌, Result, ok, raise, Error,
  map, Bool-cases, inl, inr, arith,
}
use mathlib.Core.List.{append_assoc, append-nil}
use faststream_outbox.Message.Types.{OutboxInnerMessage}
use faststream_outbox.Message.Parser.{OutboxMessage}
use faststream_outbox.Publish.Relay.{reject_outbox_response_with_foreign_publisher}
use faststream_outbox.Subscriber.Processing.{
  Reply, Mark, Run, carry, Middleware, Publisher, outbox, foreign, Handler, Found, suitable,
  unparsable, unsuitable, mark, is_fake, answer, publish_reply, complete, choose, fake_publish,
  publish_to, publish_each, respond, settle, enter_each, after_exit, exit_each, error_of, close,
  process_chosen, process_message,
}

-- The middlewares of the entries, and of the exits, in order.
abbrev pub entries : List Mark → List ℕ
entries [] = []
entries (Mark.entered i ∷ ms) = i ∷ entries ms
entries (Mark.called i ∷ ms) = entries ms
entries (Mark.exited i ∷ ms) = entries ms
entries (Mark.stored ∷ ms) = entries ms
entries (Mark.relayed ∷ ms) = entries ms

abbrev pub exits : List Mark → List ℕ
exits [] = []
exits (Mark.exited i ∷ ms) = i ∷ exits ms
exits (Mark.called i ∷ ms) = exits ms
exits (Mark.entered i ∷ ms) = exits ms
exits (Mark.stored ∷ ms) = exits ms
exits (Mark.relayed ∷ ms) = exits ms

entries-append : (xs ys : List Mark) → entries (xs ++ ys) ≡ entries xs ++ entries ys
entries-append [] ys = refl
entries-append (Mark.entered i ∷ xs) ys = ap (◌∷◌ i) (entries-append xs ys)
entries-append (Mark.called i ∷ xs) ys = entries-append xs ys
entries-append (Mark.exited i ∷ xs) ys = entries-append xs ys
entries-append (Mark.stored ∷ xs) ys = entries-append xs ys
entries-append (Mark.relayed ∷ xs) ys = entries-append xs ys

exits-append : (xs ys : List Mark) → exits (xs ++ ys) ≡ exits xs ++ exits ys
exits-append [] ys = refl
exits-append (Mark.exited i ∷ xs) ys = ap (◌∷◌ i) (exits-append xs ys)
exits-append (Mark.called i ∷ xs) ys = exits-append xs ys
exits-append (Mark.entered i ∷ xs) ys = exits-append xs ys
exits-append (Mark.stored ∷ xs) ys = exits-append xs ys
exits-append (Mark.relayed ∷ xs) ys = exits-append xs ys

-- From `r` to `r'` these middlewares were entered, and those exited.
abbrev pub Moves {ℓ} : {S : Type ℓ} → List ℕ → List ℕ → Run S → Run S → Type 0
Moves ins outs r r' =
    (entries r'.marks ≡ entries r.marks ++ ins) × (exits r'.marks ≡ exits r.marks ++ outs)

abbrev Stays {ℓ} : {S : Type ℓ} → Run S → Run S → Type 0
Stays = Moves [] []

Stays-refl {ℓ} : {S : Type ℓ} (r : Run S) → Stays r r
Stays-refl r = (sym (append-nil _), sym (append-nil _))

Moves-trans {ℓ} :
    {S : Type ℓ} (i i' o o' : List ℕ) (a b c : Run S)
    → Moves i o a b
    → Moves i' o' b c
    → Moves (i ++ i') (o ++ o') a c
Moves-trans i i' o o' a b c h k = (
  k.0 ∙ ap (λ xs. xs ++ i') h.0 ∙ append_assoc _ i i',
  k.1 ∙ ap (λ xs. xs ++ o') h.1 ∙ append_assoc _ o o',
)

carry-Stays {ℓ κ μ} :
    {S : Type ℓ} {A : Type κ} {B : Type μ} (f : A → Run S → Run S × Result B) (r : Run S)
    (p : Run S × Result A)
    → Stays r p.0
    → ((x : A) (q : Run S) → Stays q (f x q).0)
    → Stays r (carry f p).0
carry-Stays f r (q, ok x) h k = Moves-trans [] [] [] [] r q (f x q).0 h (k x q)
carry-Stays f r (q, raise e) h k = h

mark-Moves {ℓ κ} :
    {S : Type ℓ} {A : Type κ} (m : Mark) (act : S → S × Result A) (r : Run S)
    → Moves (entries (m ∷ [])) (exits (m ∷ [])) r (mark m act r).0
mark-Moves m act r = (entries-append r.marks (m ∷ []), exits-append r.marks (m ∷ []))

module _ {ℓ} {S : Type ℓ} (producer : Reply → S → S × Result (Unit {0})) where
  fake_publish-Stays : (reply : Reply) (r : Run S) → Stays r (fake_publish producer reply r).0
  unfolding fake_publish
  fake_publish-Stays reply r = elim (Bool-cases reply.response.is_outbox) [
    | inr plain ↦ rw plain (Stays-refl r)
    | inl out ↦ elim (Bool-cases reply.in_transaction) [
      | inr done ↦ rw (out, done) (Stays-refl r)
      | inl open_ ↦ rw (out, open_) (mark-Moves Mark.stored (producer reply) r)
    ]
  ]

  publish_to-Stays :
      (reply : Reply) (p : Publisher S) (r : Run S) → Stays r (publish_to producer reply p r).0
  unfolding publish_to
  publish_to-Stays reply outbox r = fake_publish-Stays reply r
  publish_to-Stays reply (foreign publish) r = mark-Moves Mark.relayed (publish reply) r

  publish_each-Stays :
      (reply : Reply) (ps : List (Publisher S)) (r : Run S)
      → Stays r (publish_each producer reply ps r).0
  unfolding publish_each
  publish_each-Stays reply [] r = Stays-refl r
  publish_each-Stays reply (p ∷ ps) r =
      carry-Stays (λ _. publish_each producer reply ps) r (publish_to producer reply p r)
        (publish_to-Stays reply p r) (λ _ q. publish_each-Stays reply ps q)

  respond-Stays :
      (propagate : Bool) (h : Handler S) (message : OutboxMessage) (answered : Reply) (r : Run S)
      → Stays r (respond producer propagate h message answered r).0
  unfolding respond
  respond-Stays propagate h message answered r =
      let reply = complete propagate message answered in
      carry-Stays (publish_reply producer h.publishers reply) r
        (r, reject_outbox_response_with_foreign_publisher reply.response (map is_fake h.publishers))
        (Stays-refl r)
        (λ _ q.
          carry-Stays (answer producer reply) q
            (publish_each producer reply (outbox ∷ h.publishers) q)
            (publish_each-Stays reply (outbox ∷ h.publishers) q) (λ _ q'. Stays-refl q'))

  settle-Stays :
      (propagate : Bool) (found : Found S) (r : Run S)
      → Stays r (settle producer propagate found r).0
  unfolding settle
  settle-Stays propagate (suitable h message) r =
      carry-Stays (respond producer propagate h message) r
        (mark (Mark.called h.id) (h.call message) r)
        (mark-Moves (Mark.called h.id) (h.call message) r)
        (λ answered q. respond-Stays propagate h message answered q)
  settle-Stays propagate (unparsable e) r = Stays-refl r
  settle-Stays propagate unsuitable r = Stays-refl r

  abbrev ids : List (Middleware S) → List ℕ
  ids = map (λ m. m.id)

  enter_each-Moves :
      (ms : List (Middleware S)) (r : Run S)
      → (enter_each producer ms r).1 ≡ ok tt
      → Moves (ids ms) [] r (enter_each producer ms r).0
  unfolding enter_each
  enter_each-Moves [] r h = Stays-refl r
  enter_each-Moves (m ∷ ms) r h =
      entered (mark (Mark.entered m.id) m.enter r) (mark-Moves (Mark.entered m.id) m.enter r)
        (λ q. enter_each-Moves ms q) h
    where
      entered :
          (p : Run S × Result (Unit {0}))
          → Moves (m.id ∷ []) [] r p.0
          → ((q : Run S)
              → (enter_each producer ms q).1 ≡ ok tt
              → Moves (ids ms) [] q (enter_each producer ms q).0)
          → (carry (λ _. enter_each producer ms) p).1 ≡ ok tt
          → Moves (m.id ∷ ids ms) [] r (carry (λ _. enter_each producer ms) p).0
      entered (q, raise e) k later h = absurd (ground (arith, h))
      entered (q, ok u) k later h =
          Moves-trans (m.id ∷ []) (ids ms) [] [] r q (enter_each producer ms q).0 k (later q h)

  exit_each-Moves :
      (ms : List (Middleware S)) (pending : Option Error) (r : Run S)
      → Moves [] (ids ms) r (exit_each producer ms pending r).0
  unfolding exit_each
  exit_each-Moves [] pending r = Stays-refl r
  exit_each-Moves (m ∷ ms) pending r =
      let p = mark (Mark.exited m.id) (m.exit pending) r in
      Moves-trans [] [] (m.id ∷ []) (ids ms) r p.0
        (exit_each producer ms (after_exit producer pending p.1) p.0).0
        (mark-Moves (Mark.exited m.id) (m.exit pending) r)
        (exit_each-Moves ms (after_exit producer pending p.1) p.0)

  close-Moves :
      (ms : List (Middleware S)) (p : Run S × Result Reply)
      → Moves [] (ids (reverse ms)) p.0 (close producer ms p).0
  close-Moves ms (r, body) = exit_each-Moves (reverse ms) (error_of producer body) r

  -- Where every middleware was entered and the search for a handler ends, every middleware is exited,
  -- once and in the reverse order, whatever the handler, the publishers and the other exits do.
  pub process_message-exits :
      (propagate : Bool) (ms : List (Middleware S)) (calls : List (Handler S))
      (msg : OutboxInnerMessage) (r : Run S) (found : Found S)
      → (enter_each producer ms r).1 ≡ ok tt
      → choose calls msg ≡ ok found
      → Moves (ids ms) (ids (reverse ms)) r (process_message producer propagate ms calls msg r).0
  unfolding process_message
  process_message-exits propagate ms calls msg r found began ended =
      rw ended (entered (enter_each producer ms r) began (enter_each-Moves ms r began))
    where
      entered :
          (p : Run S × Result (Unit {0}))
          → p.1 ≡ ok tt
          → Moves (ids ms) [] r p.0
          → Moves
              (ids ms)
              (ids (reverse ms))
              r
              (carry (λ _. process_chosen producer propagate ms (ok found)) p).0
      entered (q, raise e) h k = absurd (ground (arith, h))
      entered (q, ok u) h k =
          let last = (process_chosen producer propagate ms (ok found) q).0 in
          subst (λ xs. Moves xs (ids (reverse ms)) r last) (append-nil (ids ms))
            (Moves-trans (ids ms) [] [] (ids (reverse ms)) r q last k (
              Moves-trans [] [] [] (ids (reverse ms)) q (settle producer propagate found q).0 last
                (settle-Stays propagate found q)
                (close-Moves ms (settle producer propagate found q))))
