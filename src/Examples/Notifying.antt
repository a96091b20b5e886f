-- ===== src/Examples/Notifying.antt =====
-- The NOTIFY of a transaction, at two inserts.
use faststream_outbox.Base.{◌≡◌, refl, some, none, [], ◌∷◌}
use faststream_outbox.Client.Insert.{
  NewRow, Session, Schedule, TimerConflict, Publishing, append_row,
}
use faststream_outbox.Client.Insert.Notify.{notify_once}
use faststream_outbox.Examples.{orders}

abbrev plain : NewRow
plain = record { queue = "orders"; payload = 3 ∷ []; headers = none; timer_id = none }

abbrev at_once : Schedule
at_once = record { activate_in = none; activate_at = none; timer_conflict = TimerConflict.ignore }

abbrev nothing_sent : Publishing
nothing_sent = record { db = orders; notified = []; sent = [] }

abbrev one_sent : Publishing
one_sent = record {
  db = (append_row 50 none plain orders).0;
  notified = (1, "orders" ∷ []) ∷ [];
  sent = "orders" ∷ [];
}

abbrev two_published : Publishing
two_published = record one_sent { db = (append_row 51 none plain one_sent.db).0 }

notify_once_example : two_published.sent ≡ one_sent.sent
unfolding faststream_outbox.Client.Insert.insert
    faststream_outbox.Message.Scheduling.is_future_dated
notify_once_example =
    notify_once 50 50 51 51 1 (record { before = none; after = some 1 })
      (record { before = some 1; after = some 1 }) at_once at_once plain plain nothing_sent one_sent
      two_published (some 3) (some 4) refl refl refl refl refl refl
