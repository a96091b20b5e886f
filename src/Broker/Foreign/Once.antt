-- ===== src/Broker/Foreign/Once.antt =====
-- faststream_outbox/broker.py, `_warn_on_unstarted_foreign_publishers`: a start repeats no warning.
use Prim.Native.String.{String}
use faststream_outbox.Base.{
  ℕ, ◌≡◌, refl, ap, ◌∙◌, Bool, true, ◌||◌, List, [], ◌∷◌, nat_eq, nat_eqb, All-map_of, contains,
  All, Bool-cases, inl, inr, arith,
}
use faststream_outbox.Broker.Foreign.{
  Publisher, Relaying, Warned, warn_one, warn_call, warn_sub, warn_on_unstarted_foreign_publishers,
}

-- Nothing is left to say of the publisher.
abbrev settled : List ℕ → Publisher → Bool
settled ids p = p.wired || contains p.config ids

Grows : List ℕ → List ℕ → Type 0
Grows ids more = (p : Publisher) → settled ids p ≡ true → settled more p ≡ true

warn_one_fixed :
    (queues : List String) (p : Publisher) (w : Warned)
    → settled w.ids p ≡ true
    → warn_one queues p w ≡ w
unfolding warn_one
warn_one_fixed queues p w h = rw h refl

warn_one-Grows :
    (queues : List String) (p : Publisher) (w : Warned) → Grows w.ids (warn_one queues p w).ids
unfolding warn_one Grows
warn_one-Grows queues p w r h = elim (Bool-cases (settled w.ids p)) [
  | inl e ↦ rw (e, warn_one) h
  | inr e ↦ rw (e, warn_one) (ground (arith, h))
]

warn_one_settles :
    (queues : List String) (p : Publisher) (w : Warned) → settled (warn_one queues p w).ids p ≡ true
unfolding warn_one
warn_one_settles queues p w = elim (Bool-cases (settled w.ids p)) [
  | inl e ↦ rw (e, warn_one) e
  | inr e ↦ rw (e, warn_one) (listed p.wired (nat_eqb p.config p.config) _ (same p.config))
]
  where
    listed : (a b c : Bool) → b ≡ true → (a || (b || c)) ≡ true
    listed a b c h = ground (arith, h)

    same : (n : ℕ) → nat_eqb n n ≡ true
    same n = ground arith

-- What every publisher of a call, or of a subscriber, has.
abbrev SettledCall : List ℕ → List Publisher → Type 0
SettledCall ids ps = All (λ p. settled ids p ≡ true) ps

abbrev SettledSub : List ℕ → List (List Publisher) → Type 0
SettledSub ids cs = All (SettledCall ids) cs

warn_call-Grows :
    (queues : List String) (ps : List Publisher) (w : Warned)
    → Grows w.ids (warn_call queues ps w).ids
unfolding warn_call Grows
warn_call-Grows queues [] w r h = h
warn_call-Grows queues (p ∷ ps) w r h =
    warn_call-Grows queues ps (warn_one queues p w) r (warn_one-Grows queues p w r h)

warn_sub-Grows :
    (queues : List String) (cs : List (List Publisher)) (w : Warned)
    → Grows w.ids (warn_sub queues cs w).ids
unfolding warn_sub Grows
warn_sub-Grows queues [] w r h = h
warn_sub-Grows queues (c ∷ cs) w r h =
    warn_sub-Grows queues cs (warn_call queues c w) r (warn_call-Grows queues c w r h)

warn-Grows :
    (subs : List Relaying) (w : Warned)
    → Grows w.ids (warn_on_unstarted_foreign_publishers subs w).ids
unfolding warn_on_unstarted_foreign_publishers Grows
warn-Grows [] w r h = h
warn-Grows (s ∷ subs) w r h =
    warn-Grows subs (warn_sub s.queues s.calls w) r (warn_sub-Grows s.queues s.calls w r h)

grown_call :
    (a b : List ℕ) → Grows a b → (ps : List Publisher) → SettledCall a ps → SettledCall b ps
unfolding Grows
grown_call a b g ps h = All-map_of (λ p. settled a p ≡ true) (λ p. settled b p ≡ true) g ps h

grown_sub :
    (a b : List ℕ) → Grows a b → (cs : List (List Publisher)) → SettledSub a cs → SettledSub b cs
grown_sub a b g cs h = All-map_of (SettledCall a) (SettledCall b) (grown_call a b g) cs h

warn_call_settles :
    (queues : List String) (ps : List Publisher) (w : Warned)
    → SettledCall (warn_call queues ps w).ids ps
unfolding warn_call Grows
warn_call_settles queues [] w = tt
warn_call_settles queues (p ∷ ps) w = (
  warn_call-Grows queues ps (warn_one queues p w) p (warn_one_settles queues p w),
  warn_call_settles queues ps (warn_one queues p w),
)

warn_sub_settles :
    (queues : List String) (cs : List (List Publisher)) (w : Warned)
    → SettledSub (warn_sub queues cs w).ids cs
unfolding warn_sub
warn_sub_settles queues [] w = tt
warn_sub_settles queues (c ∷ cs) w = (
  grown_call (warn_call queues c w).ids (warn_sub queues cs (warn_call queues c w)).ids
      (warn_sub-Grows queues cs (warn_call queues c w)) c (warn_call_settles queues c w),
  warn_sub_settles queues cs (warn_call queues c w),
)

warn_settles :
    (subs : List Relaying) (w : Warned)
    → All (λ s. SettledSub (warn_on_unstarted_foreign_publishers subs w).ids s.calls) subs
unfolding warn_on_unstarted_foreign_publishers
warn_settles [] w = tt
warn_settles (s ∷ subs) w = (
  grown_sub (warn_sub s.queues s.calls w).ids
      (warn_on_unstarted_foreign_publishers subs (warn_sub s.queues s.calls w)).ids
      (warn-Grows subs (warn_sub s.queues s.calls w)) s.calls (warn_sub_settles s.queues s.calls w),
  warn_settles subs (warn_sub s.queues s.calls w),
)

warn_call_fixed :
    (queues : List String) (ps : List Publisher) (w : Warned)
    → SettledCall w.ids ps
    → warn_call queues ps w ≡ w
unfolding warn_call
warn_call_fixed queues [] w h = refl
warn_call_fixed queues (p ∷ ps) w h =
    ap (warn_call queues ps) (warn_one_fixed queues p w h.0) ∙ warn_call_fixed queues ps w h.1

warn_sub_fixed :
    (queues : List String) (cs : List (List Publisher)) (w : Warned)
    → SettledSub w.ids cs
    → warn_sub queues cs w ≡ w
unfolding warn_sub
warn_sub_fixed queues [] w h = refl
warn_sub_fixed queues (c ∷ cs) w h =
    ap (warn_sub queues cs) (warn_call_fixed queues c w h.0) ∙ warn_sub_fixed queues cs w h.1

warn_fixed :
    (subs : List Relaying) (w : Warned)
    → All (λ s. SettledSub w.ids s.calls) subs
    → warn_on_unstarted_foreign_publishers subs w ≡ w
unfolding warn_on_unstarted_foreign_publishers
warn_fixed [] w h = refl
warn_fixed (s ∷ subs) w h =
    ap (warn_on_unstarted_foreign_publishers subs) (warn_sub_fixed s.queues s.calls w h.0)
    ∙ warn_fixed subs w h.1

-- A start after another logs no warning again, whatever was logged before, while the publishers stay
-- as they are.
pub warned_once :
    (subs : List Relaying) (w : Warned)
    → warn_on_unstarted_foreign_publishers subs (warn_on_unstarted_foreign_publishers subs w)
      ≡ warn_on_unstarted_foreign_publishers subs w
warned_once subs w =
    warn_fixed subs (warn_on_unstarted_foreign_publishers subs w) (warn_settles subs w)
