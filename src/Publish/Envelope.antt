-- ===== src/Publish/Envelope.antt =====
-- faststream_outbox/envelope.py, `_encode_payload`. FastStream's `encode_message` and
-- `gen_cor_id` are parameters.
use faststream_outbox.Base.{
  ℕ, ◌≡◌, refl, subst, ap, ◌∙◌, Bool, true, false, not, ◌&&◌, Option, none, some, List, [], ◌∷◌,
  String, Result, ok, Error, raise_if, ◌>>=◌, ◌>>◌, ◌==◌, string_eq, eq_iff, or_else, if◌then◌else◌,
  Bool-cases, inl, inr, arith,
}
use faststream_outbox.Message.Types.{Headers}

abbrev pub content_type_header : String
content_type_header = "content-type"

abbrev pub correlation_id_header : String
correlation_id_header = "correlation_id"

-- `d.get(k)` and `d[k] = v` on a dict of strings.
unfoldable pub get : String → Headers → Option String
get k [] = none
get k ((l, v) ∷ h) = if l == k then some v else get k h

unfoldable pub set : String → String → Headers → Headers
set k v [] = (k, v) ∷ []
set k v ((l, u) ∷ h) = if l == k then (l, v) ∷ h else (l, u) ∷ set k v h

-- An empty string counts as unset.
abbrev pub truthy : Option String → Bool
truthy none = false
truthy (some s) = not (s == "")

abbrev pub first_truthy : Option String → Option String → String → String
first_truthy a b c = if truthy a then or_else a c else if truthy b then or_else b c else c

-- Both are given, and they differ.
abbrev pub differ : Option String → Option String → Bool
differ none b = false
differ (some x) none = false
differ (some x) (some y) = not (x == y)

abbrev pub with_content_type : Option String → Headers → Headers
with_content_type none h = h
with_content_type (some t) h = if t == "" then h else set content_type_header t h

unfoldable pub encode_headers : Option String → Headers → Option String → String → Result Headers
unfolding get set
encode_headers content_type headers correlation_id generated = do
  raise_if (truthy content_type && differ (get content_type_header headers) content_type)
      Error.value_error
  let out = with_content_type content_type headers
  let header_cid = get correlation_id_header out
  raise_if (differ correlation_id header_cid) Error.value_error
  ok (set correlation_id_header (first_truthy correlation_id header_cid generated) out)

-- `encode_message` may fail; `generated` is a fresh correlation id.
unfoldable pub encode_payload {ℓ} :
    {B : Type ℓ}
    → (B → Result (List ℕ × Option String))
    → B
    → Headers
    → Option String
    → String
    → Result (List ℕ × Headers)
unfolding encode_headers
encode_payload encode_message body headers correlation_id generated = do
  (payload, content_type) ← encode_message body
  out ← encode_headers content_type headers correlation_id generated
  ok (payload, out)

get-set : (k v : String) (h : Headers) → get k (set k v h) ≡ some v
unfolding get set
get-set k v [] = ground (arith, eq_iff k k)
get-set k v ((l, u) ∷ h) = elim (Bool-cases (l == k)) [
  | inl e ↦ rw (e, get, set) (ground (arith, eq_iff l k))
  | inr e ↦ rw (e, get, set) (ground (arith, get-set k v h))
]

get-set_other : (j k v : String) (h : Headers) → (k == j) ≡ false → get j (set k v h) ≡ get j h
unfolding get set
get-set_other j k v [] n = ground arith
get-set_other j k v ((l, u) ∷ h) n = elim (Bool-cases (l == k)) [
  | inl e ↦ rw (e, get, set) (ground (arith, eq_iff l k, eq_iff k j, eq_iff l j))
  | inr e ↦ rw (e, get, set) (ground (arith, get-set_other j k v h n))
]

-- The content type leaves every other header alone.
with_content_type-other :
    (k : String) (ct : Option String) (h : Headers)
    → (content_type_header == k) ≡ false
    → get k (with_content_type ct h) ≡ get k h
with_content_type-other k none h n = refl
with_content_type-other k (some t) h n = elim (Bool-cases (t == "")) [
  | inl e ↦ rw e refl
  | inr e ↦ rw e (get-set_other k content_type_header t h n)
]

with_content_type-set :
    (t : String) (h : Headers)
    → (t == "") ≡ false
    → get content_type_header (with_content_type (some t) h) ≡ some t
with_content_type-set t h e = rw e (get-set content_type_header t h)

-- What the headers of an encoded body are, where the encoding succeeds.
abbrev pub Encoded : Option String → Headers → Option String → String → Headers → Type 0
Encoded ct h cid generated out =
    (get correlation_id_header out
      ≡ some (first_truthy cid (get correlation_id_header h) generated))
    × ((truthy ct ≡ true → get content_type_header out ≡ ct)
        × ((k : String)
            → (correlation_id_header == k) ≡ false
            → (content_type_header == k) ≡ false
            → get k out ≡ get k h))

accepted :
    (b c : Bool) (e : Error) {out out' : Headers}
    → (raise_if b e >> (raise_if c e >> ok out)) ≡ ok out'
    → out ≡ out'
accepted true c e h = absurd (ground arith)
accepted false true e h = absurd (ground arith)
accepted false false e h = ground (arith, h)

-- Where encode_headers succeeds, the correlation id is the first that is set and not empty of the
-- argument, the header and a fresh one; the content type is the encoder's, if it gives one; and
-- every other header is the caller's.
pub encode_headers-content :
    (ct : Option String) (h : Headers) (cid : Option String) (generated : String) {out : Headers}
    → encode_headers ct h cid generated ≡ ok out
    → Encoded ct h cid generated out
unfolding encode_headers
encode_headers-content ct h cid generated {out} e =
    subst (Encoded ct h cid generated) (accepted _ _ Error.value_error e) (
      get-set correlation_id_header _ (with_content_type ct h)
          ∙ ap (λ c. some (first_truthy cid c generated)) same_cid,
      (
        λ t.
            get-set_other content_type_header correlation_id_header _ (with_content_type ct h) refl
            ∙ typed ct t,
        λ k m n.
            get-set_other k correlation_id_header _ (with_content_type ct h) m
            ∙ with_content_type-other k ct h n,
      ),
    )
  where
    same_cid : get correlation_id_header (with_content_type ct h) ≡ get correlation_id_header h
    same_cid = with_content_type-other correlation_id_header ct h refl

    typed :
        (c : Option String) → truthy c ≡ true → get content_type_header (with_content_type c h) ≡ c
    typed none t = absurd (ground arith)
    typed (some c) t = with_content_type-set c h (ground arith)

differ-none : (c : Option String) → differ c none ≡ false
differ-none none = refl
differ-none (some x) = refl

-- Headers without either of the managed ones never conflict.
pub encode_headers-accepts :
    (ct : Option String) (h : Headers) (cid : Option String) (generated : String)
    → get content_type_header h ≡ none
    → get correlation_id_header h ≡ none
    → (out : Headers) × (encode_headers ct h cid generated ≡ ok out)
unfolding encode_headers
encode_headers-accepts ct h cid generated e f = (
  set correlation_id_header (first_truthy cid none generated) (with_content_type ct h),
  rw (e, with_content_type-other correlation_id_header ct h refl, f, differ-none cid)
      (typed (truthy ct)),
)
  where
    typed :
        (b : Bool)
        → (raise_if (b && false) Error.value_error
            >> ok (
                set correlation_id_header
                  (first_truthy cid none generated)
                  (with_content_type ct h)))
          ≡ ok
              (set correlation_id_header (first_truthy cid none generated) (with_content_type ct h))
    typed true = refl
    typed false = refl
