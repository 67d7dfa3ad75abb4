-- ===== src/Epistemic/Canonical.antt =====
-- eyle/contracts/memory.py: what is normalised is not changed by normalising it again.
use eyle.Epistemic.{
  confidence_of, normalize_fields, short_text, text_or, described, default_nature, member, accepted,
  epistemic_fields, normalize_epistemic, dict_of, one_float,
}
use mathlib.Core.Path.{refl}
use eyle.Base.Text.{strip, size, strip_idem, lstrip, rstrip, is_space}
use eyle.Value.{Value, Fields, text, truthy, null, num, float, obj, end, lookup, keys_within}
use eyle.Base.Dict.{member}
use eyle.Base.{
  Option, Bool, String, some, ◌≡◌, Bool-cases, arith, true, false, inl, leb, str_eq, inr, ◌*◌, ◌||◌,
  ltb, none, Option-cases, ℕ, suc, zero,
}

-- A text that is accepted is accepted again, as it is.
short_text_again : (v : Value) (s : String) → short_text v ≡ some s → short_text (text s) ≡ some s
unfolding short_text
short_text_again (text t) s h = elim (Bool-cases (str_eq (strip t) "" || ltb 96 (size (strip t)))) [
  | inl bad ↦ let e = rw bad at h in ground arith
  | inr good ↦
      let e : some (strip t) ≡ some s = rw good at h in
      let is : s ≡ strip t = ground (arith, e) in rw (is, strip_idem t, good) refl
]
short_text_again _ s h = ground arith

short_text-truthy : (v : Value) (s : String) → short_text v ≡ some s → truthy (text s) ≡ true
unfolding short_text truthy
short_text-truthy (text t) s h = ground (arith, h)
short_text-truthy _ s h = ground arith

abbrev Stays : Option String → Type 0
Stays default =
    (s : String) → default ≡ some s → (short_text (text s) ≡ some s) × (truthy (text s) ≡ true)

-- What is read is read again as it is, whatever the default is then.
text_or_again :
    (default later : Option String) (o : Option Value) (s : String)
    → Stays default
    → text_or default o ≡ some s
    → text_or later (some (text s)) ≡ some s
unfolding text_or
text_or_again default later none s stays h = let (a, b) = stays s h in rw (b, a) refl
text_or_again default later (some v) s stays h = elim (Bool-cases (truthy v)) [
  | inl given ↦ let e = rw given at h in rw (short_text-truthy v s e, short_text_again v s e) refl
  | inr blank ↦ let (a, b) = stays s (rw blank at h) in rw (b, a) refl
]

unknown-Stays : Stays (some "unknown")
unfolding short_text truthy strip lstrip rstrip is_space size
unknown-Stays s h = let is : s ≡ "unknown" = ground (arith, h) in rw is (refl, refl)

default_nature-Stays : (b : Bool) → Stays (default_nature b)
unfolding short_text truthy strip lstrip rstrip is_space size
default_nature-Stays true s h =
    let is : s ≡ "unclassified" = ground (arith, h) in rw is (refl, refl)
default_nature-Stays false s h = ground (arith, h)

small_times : (n m : ℕ) → leb n 1 ≡ true → leb (n * m) m ≡ true
small_times zero m small = ground arith
small_times (suc zero) m small = ground arith
small_times (suc (suc n)) m small = ground (arith, small)

confidence_again :
    (o : Option Value) (c : Value) → confidence_of o ≡ some c → confidence_of (some c) ≡ some c
unfolding confidence_of
confidence_again none c h = let is : c ≡ null = ground (arith, h) in rw is refl
confidence_again (some null) c h = let is : c ≡ null = ground (arith, h) in rw is refl
confidence_again (some (num n)) c h = elim (Bool-cases (leb n 1)) [
  | inl small ↦
      let e = rw small at h in
      let is : c ≡ float (n * one_float) = ground (arith, e) in
      let fits : leb (n * one_float) one_float ≡ true = small_times n one_float small in
      rw (is, fits) refl
  | inr large ↦ let e = rw large at h in ground (arith, e)
]
confidence_again (some (float n)) c h = elim (Bool-cases (leb n one_float)) [
  | inl small ↦
      let e = rw small at h in let is : c ≡ float n = ground (arith, e) in rw (is, small) refl
  | inr large ↦ let e = rw large at h in ground (arith, e)
]
confidence_again (some _) c h = ground arith

-- What is accepted was read from the five fields.
fields_read :
    (b : Bool) (d c : Fields)
    → normalize_fields b d ≡ accepted c
    → (n : String) × (q : Value) × (v : String) × (t : Fields) × (x : Fields) × (text_or
          (default_nature b)
          (lookup "nature" d)
        ≡ some n)
      × (confidence_of (lookup "confidence" d) ≡ some q)
      × (text_or (some "unknown") (lookup "volatility" d) ≡ some v)
      × (c ≡ described n q v t x)
unfolding normalize_fields
fields_read b d c h = elim (Bool-cases (keys_within epistemic_fields d)) [
  | inr unknown ↦ let e = rw unknown at h in ground arith
  | inl known ↦ elim (Option-cases (text_or (default_nature b) (lookup "nature" d))) [
    | inl bad ↦ let e = rw (known, bad) at h in ground arith
    | inr (n, hn) ↦ elim (Option-cases (confidence_of (lookup "confidence" d))) [
      | inl bad ↦ let e = rw (known, hn, bad) at h in ground arith
      | inr (q, hq) ↦ elim (Option-cases (text_or (some "unknown") (lookup "volatility" d))) [
        | inl bad ↦ let e = rw (known, hn, hq, bad) at h in ground arith
        | inr (v, hv) ↦ elim (Option-cases (dict_of (lookup "temporal" d))) [
          | inl bad ↦ let e = rw (known, hn, hq, hv, bad) at h in ground arith
          | inr (t, ht) ↦ elim (Option-cases (dict_of (lookup "context" d))) [
            | inl bad ↦ let e = rw (known, hn, hq, hv, ht, bad) at h in ground arith
            | inr (x, hx) ↦
                let e = rw (known, hn, hq, hv, ht, hx) at h in
                (n, q, v, t, x, hn, hq, hv, ground (arith, e))
          ]
        ]
      ]
    ]
  ]
]

fields_again :
    (b later : Bool) (d c : Fields)
    → normalize_fields b d ≡ accepted c
    → normalize_fields later c ≡ accepted c
unfolding normalize_fields described lookup keys_within member
fields_again b later d c h =
    let (n, q, v, t, x, hn, hq, hv, is) = fields_read b d c h in
    let n_again =
      text_or_again (default_nature b) (default_nature later) (lookup "nature" d) n
        (default_nature-Stays b) hn in
    let q_again = confidence_again (lookup "confidence" d) q hq in
    let v_again =
      text_or_again (some "unknown") (some "unknown") (lookup "volatility" d) v unknown-Stays hv in
    rw (is, n_again, q_again, v_again) refl

normalize_epistemic-obj :
    (later : Bool) (c : Fields) → normalize_epistemic later (obj c) ≡ normalize_fields later c
unfolding normalize_epistemic
normalize_epistemic-obj true c = refl
normalize_epistemic-obj false c = refl

-- What is accepted is in canonical form: normalising it again, with a default for a missing description or
-- without one, whichever it was at first, accepts it and changes nothing. The parser normalises without the
-- default, and storage then with it.
pub normalize_epistemic_again :
    (default_unclassified later : Bool) (value : Value) (c : Fields)
    → normalize_epistemic default_unclassified value ≡ accepted c
    → normalize_epistemic later (obj c) ≡ accepted c
unfolding normalize_epistemic
normalize_epistemic_again true later null c h =
    rw (normalize_epistemic-obj later c) (fields_again true later end c h)
normalize_epistemic_again false later null c h = ground arith
normalize_epistemic_again b later (obj d) c h =
    rw (normalize_epistemic-obj later c)
      (fields_again b later d c (rw (normalize_epistemic-obj b d) at h))
normalize_epistemic_again true later _ c h = ground arith
normalize_epistemic_again false later _ c h = ground arith
