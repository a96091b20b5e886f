-- ===== src/Broker/Registration.antt =====
-- faststream_outbox/registrator.py, class OutboxRegistrator: the registration of a subscriber, with its
-- warning about queues that another one serves, and the check of `include_router`. `create_subscriber`
-- may raise; the handlers, and what FastStream keeps of a registration, are left out.
pub mod Overlaps
use faststream_outbox.Base.{
  Bool, true, false, not, ◌||◌, List, [], ◌∷◌, ◌++◌, String, Result, ok, raise, Error, raise_if,
  ◌>>=◌, ◌>>◌, filter, any, contains, ◌==◌, string_eq, if◌then◌else◌,
}
use faststream_outbox.Client.{distinct}
use faststream_outbox.Broker.Queues.{Sub, sorted}

-- The subscribers of a registrator, and the queues that its warnings name, one list for each.
pub record Registrator : Type 0 where
  pub subscribers : List Sub
  pub warned : List (List String)

-- `q in existing`.
abbrev pub is_served : List Sub → String → Bool
is_served subs q = any (λ s. contains q s.queues) subs

unfoldable pub overlap : List String → List Sub → List String
unfolding distinct
overlap queue_list subs = sorted (filter (is_served subs) (distinct queue_list))

abbrev pub no_queues : List String → Bool
no_queues [] = true
no_queues (q ∷ qs) = false

-- A warning is given if there is an overlap.
abbrev pub warn : List String → List (List String) → List (List String)
warn [] warned = warned
warn (q ∷ qs) warned = warned ++ (q ∷ qs) ∷ []

-- `subscriber`; `created` is how `create_subscriber` ends.
unfoldable pub subscriber : Result (Unit {0}) → Sub → Registrator → Result Registrator
unfolding overlap
subscriber created s r = do
  raise_if (no_queues s.queues) Error.value_error
  created
  ok (record {
    subscribers = r.subscribers ++ s ∷ [];
    warned = warn (overlap s.queues r.subscribers) r.warned;
  })

-- Registrations one after the other.
abbrev pub subscriber_each : List (Result (Unit {0}) × Sub) → Registrator → Result Registrator
subscriber_each [] r = ok r
subscriber_each ((created, s) ∷ more) r = subscriber created s r >>= subscriber_each more

-- `include_router`: the subscribers that it adds are the router's.
unfoldable pub include_router : String → List Sub → List Sub → Result (List Sub)
include_router prefix router included = do
  raise_if (not (prefix == "")) Error.value_error
  ok (included ++ router)
