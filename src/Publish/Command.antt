-- ===== src/Publish/Command.antt =====
-- faststream_outbox/response.py: the checks on what a caller publishes, and `OutboxPublishCommand`.
-- A value of a wrong type is a case of its own; lengths count characters.
use faststream_outbox.Base.{
  ℕ, ◌≤◌, ◌<◌, ◌≡◌, ◌↔◌, refl, sym, ap, Bool, true, false, not, ◌&&◌, ◌||◌, Option, none, some,
  List, [], ◌∷◌, String, ℤ, Result, ok, raise, Error, raise_if, ◌>>◌, passes, both, ltb, leb,
  is_some, arith,
}
use Prim.Native.String.{count}
use faststream_outbox.Message.Types.{Headers}
use faststream_outbox.Client.Insert.{TimerConflict}

abbrev pub max_queue_length : ℕ
max_queue_length = 255

pub data Queue : Type 0 where
  text : String → Queue
  not_a_str : Queue

pub data Conflict : Type 0 where
  policy : TimerConflict → Conflict
  unknown : Conflict

-- `activate_at` with whether it is timezone-aware; `session` is whether it is a session.
pub record PublishArgs : Type 0 where
  pub queue : Queue
  pub session : Bool
  pub activate_in : Option ℤ
  pub activate_at : Option (ℕ × Bool)
  pub timer_id : Option String
  pub timer_conflict : Conflict

abbrev pub is_naive : Option (ℕ × Bool) → Bool
is_naive none = false
is_naive (some a) = not a.1

abbrev pub too_long : Option String → Bool
too_long none = false
too_long (some s) = ltb max_queue_length (count s)

abbrev pub check_queue : Queue → Result (Unit {0})
check_queue not_a_str = raise Error.type_error
check_queue (text q) =
    raise_if (leb (count q) 0) Error.value_error
    >> raise_if (ltb max_queue_length (count q)) Error.value_error

abbrev pub check_conflict : Conflict → Bool → Result (Unit {0})
check_conflict unknown has_timer = raise Error.value_error
check_conflict (policy TimerConflict.ignore) has_timer = ok tt
check_conflict (policy TimerConflict.extend) has_timer = raise_if (not has_timer) Error.value_error

unfoldable pub validate_publish_args : PublishArgs → Result (Unit {0})
validate_publish_args a = do
  raise_if (is_some a.activate_in && is_some a.activate_at) Error.value_error
  raise_if (is_naive a.activate_at) Error.value_error
  raise_if (not a.session) Error.type_error
  check_queue a.queue
  raise_if (too_long a.timer_id) Error.value_error
  check_conflict a.timer_conflict (is_some a.timer_id)

pub record OutboxPublishCommand {ℓ} (B : Type ℓ) : Type ℓ where
  pub body : B
  pub extra_bodies : List B
  pub args : PublishArgs
  pub headers : Option Headers
  pub correlation_id : Option String

abbrev pub is_cons {ℓ} : {A : Type ℓ} → List A → Bool
is_cons [] = false
is_cons (x ∷ xs) = true

-- `OutboxPublishCommand.__init__`.
unfoldable pub publish_command {ℓ} :
    {B : Type ℓ}
    → B
    → List B
    → PublishArgs
    → Option Headers
    → Option String
    → Result (OutboxPublishCommand B)
unfolding validate_publish_args
publish_command body bodies a headers correlation_id = do
  validate_publish_args a
  raise_if (is_cons bodies && (is_some a.timer_id || is_some correlation_id)) Error.value_error
  ok (record {
    body = body;
    extra_bodies = bodies;
    args = a;
    headers = headers;
    correlation_id = correlation_id;
  })

abbrev pub batch_bodies {ℓ} : {B : Type ℓ} → OutboxPublishCommand B → List B
batch_bodies c = c.body ∷ c.extra_bodies

-- What a command may ask for.
pub record IsPublishable (a : PublishArgs) : Type 0 where
  pub one_time : (is_some a.activate_in && is_some a.activate_at) ≡ false
  pub aware : is_naive a.activate_at ≡ false
  pub on_session : a.session ≡ true
  pub named :
      (q : String) × ((a.queue ≡ Queue.text q) × ((0 < count q) × (count q ≤ max_queue_length)))
  pub short_timer : too_long a.timer_id ≡ false
  pub known :
      (k : TimerConflict) × ((a.timer_conflict ≡ Conflict.policy k)
        × (k ≡ TimerConflict.extend → is_some a.timer_id ≡ true))

text-inj : {q s : String} → Queue.text q ≡ Queue.text s → q ≡ s
text-inj h = ground (arith, h)

policy-inj : {k l : TimerConflict} → Conflict.policy k ≡ Conflict.policy l → k ≡ l
policy-inj h = ground (arith, h)

pub check_queue_iff :
    (q : Queue)
    → (check_queue q ≡ ok tt)
      ↔ ((s : String) × ((q ≡ Queue.text s) × ((0 < count s) × (count s ≤ max_queue_length))))
check_queue_iff Queue.not_a_str =
    (λ h. absurd (ground arith), λ (s, h). absurd (ground (arith, h.0)))
check_queue_iff (Queue.text q) = (λ h. (q, (refl, ground arith)), λ (s, h). named s h)
  where
    named :
        (s : String)
        → (Queue.text q ≡ Queue.text s) × ((0 < count s) × (count s ≤ max_queue_length))
        → check_queue (Queue.text q) ≡ ok tt
    named s h = rw (text-inj h.0) (ground (arith, h.1))

check_conflict_iff :
    (c : Conflict) (has_timer : Bool)
    → (check_conflict c has_timer ≡ ok tt) ↔ (
        (k : TimerConflict) × ((c ≡ Conflict.policy k)
          × (k ≡ TimerConflict.extend → has_timer ≡ true)))
check_conflict_iff Conflict.unknown t =
    (λ h. absurd (ground arith), λ (k, h). absurd (ground (arith, h.0)))
check_conflict_iff (Conflict.policy TimerConflict.ignore) t =
    (λ h. (TimerConflict.ignore, (refl, λ e. absurd (ground arith))), λ h. refl)
check_conflict_iff (Conflict.policy TimerConflict.extend) t = (
  λ h. (TimerConflict.extend, (refl, λ e. ground arith)),
  λ (k, h). ground (arith, h.0, h.1 (sym (policy-inj h.0))),
)

-- A publish passes the checks exactly if it names at most one activation time, an aware one, runs
-- on a session or connection, names a queue of 1 to 255 characters and a timer of at most 255, and
-- has a known timer policy, which asks for a timer if it is not the default one.
pub validate_publish_args_iff :
    (a : PublishArgs) → (validate_publish_args a ≡ ok tt) ↔ IsPublishable a
unfolding validate_publish_args
validate_publish_args_iff a = (
  λ h.
      let p1 = (passes (is_some a.activate_in && is_some a.activate_at) Error.value_error _).0 h in
      let p2 = (passes (is_naive a.activate_at) Error.value_error _).0 p1.1 in
      let p3 = (passes (not a.session) Error.type_error _).0 p2.1 in
      let p4 = (both (check_queue a.queue) _).0 p3.1 in
      let p5 = (passes (too_long a.timer_id) Error.value_error _).0 p4.1 in
      record {
        one_time = p1.0;
        aware = p2.0;
        on_session = ground (arith, p3.0);
        named = (check_queue_iff a.queue).0 p4.0;
        short_timer = p5.0;
        known = (check_conflict_iff a.timer_conflict (is_some a.timer_id)).0 p5.1;
      },
  λ v. (passes (is_some a.activate_in && is_some a.activate_at) Error.value_error _).1 (
    v.one_time,
    (passes (is_naive a.activate_at) Error.value_error _).1 (
      v.aware,
      (passes (not a.session) Error.type_error _).1 (
        ap not v.on_session,
        (both (check_queue a.queue) _).1 (
          (check_queue_iff a.queue).1 v.named,
          (passes (too_long a.timer_id) Error.value_error _).1
              (v.short_timer, (check_conflict_iff a.timer_conflict (is_some a.timer_id)).1 v.known),
        ),
      ),
    ),
  ),
)
