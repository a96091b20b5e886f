-- ===== src/Subscriber/Listening.antt =====
-- faststream_outbox/subscriber/usecase.py: the connections of the fetch loop, from
-- `_open_fetch_resources`, `_open_listen_connection` and `_close_listen_connection`, the NOTIFY callback
-- and `_bounded`. What each call of SQLAlchemy and asyncpg answers is given; a call that exceeds its
-- timeout answers a TimeoutError.
pub mod Closed
use faststream_outbox.Base.{
  Bool, true, false, not, ◌&&◌, ◌||◌, Option, none, some, List, [], ◌∷◌, ◌++◌, String, Result, ok,
  raise, Error, is_exception, is_none, contains, string_eq, if◌then◌else◌,
}

-- What happens to the connections: the LISTEN one is checked out, detached, listens, and gets a close
-- and perhaps a terminate; the one for fetching is opened, given back to the pool, and invalidated.
pub data Mark : Type 0 where
  checked_out detached listening closing terminating opened returned invalidated : Mark

pub record Answers : Type 0 where
  pub raw_connection : Result (Unit {0})
  pub detach : Result (Unit {0})
  pub add_listener : Result (Unit {0})
  pub close : Result (Unit {0})
  pub terminate : Result (Unit {0})
  pub connect : Result (Unit {0})
  pub execution_options : Result (Unit {0})

abbrev pub is_timeout : Error → Bool
is_timeout Error.timeout_error = true
is_timeout _ = false

-- `suppress(Exception)`.
abbrev pub suppressed : Result (Unit {0}) → Result (Unit {0})
suppressed (ok u) = ok u
suppressed (raise e) = if is_exception e then ok tt else raise e

abbrev pub after_close : Answers → Result (Unit {0}) → List Mark → List Mark × Result (Unit {0})
after_close a (ok u) t = (t, ok u)
after_close a (raise e) t =
    if is_exception e then (t ++ Mark.terminating ∷ [], suppressed a.terminate) else (t, raise e)

unfoldable pub close_listen_connection : Answers → List Mark → List Mark × Result (Unit {0})
close_listen_connection a t = after_close a a.close (t ++ Mark.closing ∷ [])

-- A `finally`: an exception of its own takes the place of what came before.
abbrev pub finally_ : {A : Type 0} → Result A → List Mark × Result (Unit {0}) → List Mark × Result A
finally_ before (t, ok u) = (t, before)
finally_ before (t, raise e) = (t, raise e)

-- The `except` and the `finally` of `_open_listen_connection`; without a connection nothing is closed.
abbrev pub caught : Bool → Error → Result Bool
caught has_conn e = if is_exception e && not (has_conn && is_timeout e) then ok false else raise e

unfoldable pub listen_failed : Answers → Bool → Error → List Mark → List Mark × Result Bool
unfolding close_listen_connection
listen_failed a false e t = (t, caught false e)
listen_failed a true e t = finally_ (caught true e) (close_listen_connection a t)

unfoldable pub add_listener_to : Answers → Result (Unit {0}) → List Mark → List Mark × Result Bool
unfolding listen_failed
add_listener_to a (ok u) t = (t ++ Mark.listening ∷ [], ok true)
add_listener_to a (raise e) t = listen_failed a true e t

unfoldable pub detach_from_pool : Answers → Result (Unit {0}) → List Mark → List Mark × Result Bool
unfolding add_listener_to
detach_from_pool a (ok u) t = add_listener_to a a.add_listener (t ++ Mark.detached ∷ [])
detach_from_pool a (raise e) t = listen_failed a true e t

abbrev pub check_out : Answers → Result (Unit {0}) → List Mark → List Mark × Result Bool
check_out a (ok u) t = detach_from_pool a a.detach (t ++ Mark.checked_out ∷ [])
check_out a (raise e) t = listen_failed a false e t

-- The answer is whether a connection listens. `asyncpg` is whether it is installed and the driver.
unfoldable pub open_listen_connection : Bool → Answers → List Mark → List Mark × Result Bool
unfolding detach_from_pool
open_listen_connection false a t = (t, ok false)
open_listen_connection true a t = check_out a a.raw_connection t

-- `async with engine.connect()` around the options and the body of the context.
abbrev pub with_options :
    Result (Unit {0}) → Result (Unit {0}) → List Mark → List Mark × Result (Unit {0})
with_options (ok u) body t = (t ++ Mark.returned ∷ [], body)
with_options (raise e) body t = (t ++ Mark.returned ∷ [], raise e)

abbrev pub connected :
    Answers → Result (Unit {0}) → Result (Unit {0}) → List Mark → List Mark × Result (Unit {0})
connected a (ok u) body t = with_options a.execution_options body (t ++ Mark.opened ∷ [])
connected a (raise e) body t = (t, raise e)

abbrev pub close_after :
    Answers → Bool → List Mark × Result (Unit {0}) → List Mark × Result (Unit {0})
close_after a false (t, r) = (t, r)
close_after a true (t, r) = finally_ r (close_listen_connection a t)

abbrev pub with_listener :
    Answers → Result (Unit {0}) → List Mark × Result Bool → List Mark × Result (Unit {0})
with_listener a body (t, raise e) = (t, raise e)
with_listener a body (t, ok listens) = close_after a listens (connected a a.connect body t)

-- The whole context: `body` is how the loop inside ends. There is no engine under the test broker.
unfoldable pub open_fetch_resources :
    (engine asyncpg : Bool)
    → Answers
    → Result (Unit {0})
    → List Mark
    → List Mark × Result (Unit {0})
unfolding open_listen_connection
open_fetch_resources false asyncpg a body t = (t, body)
open_fetch_resources true asyncpg a body t =
    with_listener a body (open_listen_connection asyncpg a t)

abbrev pub fourth : List (Option String) → Option String
fourth (a ∷ b ∷ c ∷ payload ∷ rest) = payload
fourth _ = none

abbrev pub serves : List String → Option String → Bool
serves served none = true
serves served (some queue) = contains queue served

-- `_on_notify` on the state of the event.
unfoldable pub on_notify : List String → List (Option String) → Bool → Bool
on_notify served args event = event || serves served (fourth args)

-- `_bounded`, with what the statement answers.
unfoldable pub bounded {ℓ} : {A : Type ℓ} → Bool → Result A → List Mark → List Mark × Result A
bounded has_conn (ok x) t = (t, ok x)
bounded has_conn (raise e) t =
    (if is_timeout e && has_conn then t ++ Mark.invalidated ∷ [] else t, raise e)
