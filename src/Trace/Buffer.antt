-- ===== src/Trace/Buffer.antt =====
-- The buffer of secnano/trace.py against the list of all events.
use mathlib.Core.List.{append_assoc, append-nil}
use secnano.Prelude.{
  ℕ, zero, suc, ◌+◌, ◌-◌, ◌≤◌, ◌≡◌, refl, sym, ap, ◌∙◌, some, List, [], ◌∷◌, ◌++◌, arith, length,
  length-append, length-drop, drop, last_items, length-last_items, leb, if◌then◌else◌,
}
use secnano.Types.{TraceEvent}
use secnano.Trace.{TraceStore, append_recent, list_recent}

module _ {ℓ} {A : Type ℓ} where
  drop-append : (k : ℕ) (xs ys : List A) → k ≤ length xs → drop k (xs ++ ys) ≡ drop k xs ++ ys
  drop-append zero xs ys h = refl
  drop-append (suc k) [] ys h = absurd (omega arith)
  drop-append (suc k) (x ∷ xs) ys h = drop-append k xs ys (omega arith)

  drop-nil : (k : ℕ) → drop {A = A} k [] ≡ []
  drop-nil zero = refl
  drop-nil (suc k) = refl

  pub drop-drop : (a b c : ℕ) (xs : List A) → c ≡ b + a → drop a (drop b xs) ≡ drop c xs
  drop-drop a zero c xs e = ap (λ k. drop k xs) (omega arith)
  drop-drop a (suc b) zero xs e = absurd (omega arith)
  drop-drop a (suc b) (suc c) [] e = drop-nil a
  drop-drop a (suc b) (suc c) (x ∷ xs) e = drop-drop a b c xs (omega arith)

  -- To bound a list and then what is appended to it is to bound the whole.
  pub last_items-append :
      (n : ℕ) (xs ys : List A) → last_items n (last_items n xs ++ ys) ≡ last_items n (xs ++ ys)
  last_items-append n xs ys =
      let k = length xs - n in
      let a = length (drop k xs ++ ys) - n in
      ap (drop a) (sym (drop-append k xs ys (omega arith)))
      ∙ drop-drop a k (length (xs ++ ys) - n) (xs ++ ys)
          (omega (arith, length-append xs ys, length-append (drop k xs) ys, length-drop k xs))

-- `record` for each event in turn.
unfoldable pub record_all : List TraceEvent → TraceStore → TraceStore
unfolding append_recent
record_all [] store = store
record_all (e ∷ es) store = record_all es (append_recent e store)

pub last_items_short {ℓ} : {A : Type ℓ} (n : ℕ) (xs : List A) → length xs ≤ n → last_items n xs ≡ xs
last_items_short n xs h = let e : length xs - n ≡ 0 = omega arith in ap (λ k. drop k xs) e

-- After any events, the buffer holds the last `maxlen` of all that it ever got, in order.
pub record_all-last_items :
    (es : List TraceEvent) (store : TraceStore)
    → length store.recent ≤ store.maxlen
    → (record_all es store).recent ≡ last_items store.maxlen (store.recent ++ es)
unfolding record_all append_recent
record_all-last_items [] store h = sym (
    ap (last_items store.maxlen) (append-nil store.recent)
    ∙ last_items_short store.maxlen store.recent h)
record_all-last_items (e ∷ es) store h =
    record_all-last_items es (append_recent e store)
      (length-last_items store.maxlen (store.recent ++ e ∷ []))
    ∙ last_items-append store.maxlen (store.recent ++ e ∷ []) es
    ∙ ap (last_items store.maxlen) (append_assoc store.recent (e ∷ []) es)

-- `list_recent` returns the newest events, as many as the limit; but for the limit 0 it returns all.
pub list_recent_limit :
    (limit : ℕ) (store : TraceStore)
    → list_recent (some limit) store
      ≡ (if leb limit 0 then store.recent else last_items limit store.recent)
unfolding list_recent
list_recent_limit zero store = ground arith
list_recent_limit (suc n) store = ground (arith, last_items_short (suc n) store.recent)
