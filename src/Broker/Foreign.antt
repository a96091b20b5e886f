-- ===== src/Broker/Foreign.antt =====
-- faststream_outbox/broker.py, `_warn_on_unstarted_foreign_publishers`.
pub mod Once
use Prim.Native.String.{String}
use faststream_outbox.Base.{
  ℕ, ◌≡◌, refl, Bool, true, false, not, ◌&&◌, ◌||◌, List, [], ◌∷◌, ◌++◌, ◌==◌, nat_eq,
  if◌then◌else◌, contains, any, arith,
}
use faststream_outbox.Broker.Queues.{sorted}

-- A publisher that decorates a handler: its broker's config, by identity, and whether that has a
-- producer.
pub record Publisher : Type 0 where
  pub config : ℕ
  pub wired : Bool

-- A subscriber, with the publishers of each of its calls.
pub record Relaying : Type 0 where
  pub queues : List String
  pub calls : List (List Publisher)

-- A line of the log: the config, and the queues of the subscriber that it decorates.
pub record ForeignWarning : Type 0 where
  pub config : ℕ
  pub queues : List String

-- `_warned_foreign_config_ids`, and the warnings logged.
pub record Warned : Type 0 where
  pub ids : List ℕ
  pub log : List ForeignWarning

unfoldable pub warn_one : List String → Publisher → Warned → Warned
warn_one queues p w = if p.wired || contains p.config w.ids then w else record {
  ids = p.config ∷ w.ids;
  log = w.log ++ record { config = p.config; queues = sorted queues } ∷ [];
}

unfoldable pub warn_call : List String → List Publisher → Warned → Warned
unfolding warn_one
warn_call queues [] w = w
warn_call queues (p ∷ ps) w = warn_call queues ps (warn_one queues p w)

unfoldable pub warn_sub : List String → List (List Publisher) → Warned → Warned
unfolding warn_call
warn_sub queues [] w = w
warn_sub queues (c ∷ cs) w = warn_sub queues cs (warn_call queues c w)

unfoldable pub warn_on_unstarted_foreign_publishers : List Relaying → Warned → Warned
unfolding warn_sub
warn_on_unstarted_foreign_publishers [] w = w
warn_on_unstarted_foreign_publishers (s ∷ subs) w =
    warn_on_unstarted_foreign_publishers subs (warn_sub s.queues s.calls w)
