-- ===== src/WebChannel/Polls/Overlapping.antt =====
-- The messages that a page of secnano/channels/web.py has rendered, however its polls overlap.
use mathlib.Core.Path.{subst}
use secnano.Prelude.{
  ℕ, zero, suc, ◌≤◌, ◌⊎◌, inl, inr, Bool, ◌≡◌, refl, sym, ap, ◌∙◌, List, [], ◌∷◌, ◌++◌, arith, take,
  drop, length, length-append, take-append-drop, All, All-append,
}
use secnano.WebChannel.{WebMessage, WebChannel, messages_since}
use secnano.WebChannel.Log.{IsNumbered, ChannelStep-Grows}
use secnano.WebChannel.Polls.{
  Pending, asked, answered, View, opened, poll, Runs, idle, runs, asks, answers, renders, loses,
  reloads, page-messages, All-picked, All-placed, All-weaken,
}

-- The message is among those that were rendered.
abbrev pub IsShown : List WebMessage → WebMessage → Type 0
IsShown [] m = ⊥
IsShown (x ∷ xs) m = (x ≡ m) ⊎ IsShown xs m

IsShown-left : (xs ys : List WebMessage) (m : WebMessage) → IsShown xs m → IsShown (xs ++ ys) m
IsShown-left [] ys m h = elim h [ ]
IsShown-left (x ∷ xs) ys m (inl e) = inl e
IsShown-left (x ∷ xs) ys m (inr h) = inr (IsShown-left xs ys m h)

IsShown-right : (xs ys : List WebMessage) (m : WebMessage) → IsShown ys m → IsShown (xs ++ ys) m
IsShown-right [] ys m h = h
IsShown-right (x ∷ xs) ys m h = inr (IsShown-right xs ys m h)

IsShown-append :
    (xs xs' ys : List WebMessage) (m : WebMessage)
    → ((n : WebMessage) → IsShown xs n → IsShown xs' n)
    → IsShown (xs ++ ys) m
    → IsShown (xs' ++ ys) m
IsShown-append [] xs' ys m more h = IsShown-right xs' ys m h
IsShown-append (x ∷ xs) xs' ys m more (inl e) = IsShown-left xs' ys m (more m (inl e))
IsShown-append (x ∷ xs) xs' ys m more (inr h) = IsShown-append xs xs' ys m (λ n k. more n (inr k)) h

IsShown-All : (xs : List WebMessage) → All (IsShown xs) xs
IsShown-All [] = tt
IsShown-All (x ∷ xs) = (inl refl, All-weaken xs (λ m h. inr h) (IsShown-All xs))

take-within : (k : ℕ) (xs ys : List WebMessage) → k ≤ length xs → take k (xs ++ ys) ≡ take k xs
take-within zero xs ys h = refl
take-within (suc k) [] ys h = let absurd : ⊥ = omega (arith, h) in elim absurd [ ]
take-within (suc k) (x ∷ xs) ys h = ap (λ r. x ∷ r) (take-within k xs ys (omega (arith, h)))

take-all : (xs : List WebMessage) → take (length xs) xs ≡ xs
take-all [] = refl
take-all (x ∷ xs) = ap (λ r. x ∷ r) (take-all xs)

-- The first `k` messages of the log were rendered.
abbrev Covers : List WebMessage → List WebMessage → ℕ → Type 0
Covers log received k = All (IsShown received) (take k log) × (k ≤ length log)

Covers-grows :
    (log more received : List WebMessage) (k : ℕ)
    → Covers log received k
    → Covers (log ++ more) received k
Covers-grows log more received k (shown, within) = (
  subst (All (IsShown received)) (sym (take-within k log more within)) shown,
  omega (arith, within, length-append log more),
)

Covers-shows :
    (log received more : List WebMessage) (k : ℕ)
    → Covers log received k
    → Covers log (received ++ more) k
Covers-shows log received more k (shown, within) =
    (All-weaken (take k log) (λ m. IsShown-left received more m) shown, within)

-- What a poll on its way brings covers the log to its end.
abbrev OnWay : List WebMessage → List WebMessage → Pending → Type 0
OnWay log received (asked since) = Covers log received since
OnWay log received (answered page) = Covers log (received ++ page.messages) page.next_since

OnWay-grows :
    (log more received : List WebMessage) (x : Pending)
    → OnWay log received x
    → OnWay (log ++ more) received x
OnWay-grows log more received (asked since) h = Covers-grows log more received since h
OnWay-grows log more received (answered page) h =
    Covers-grows log more (received ++ page.messages) page.next_since h

OnWay-shows :
    (log received more : List WebMessage) (x : Pending)
    → OnWay log received x
    → OnWay log (received ++ more) x
OnWay-shows log received more (asked since) h = Covers-shows log received more since h
OnWay-shows log received more (answered page) (shown, within) = (
  All-weaken (take page.next_since log)
      (λ m. IsShown-append received (received ++ more) page.messages m (IsShown-left received more))
      shown,
  within,
)

record IsCovered (v : View) : Type 0 where
  numbered : IsNumbered v.channel
  reached : Covers v.channel.messages v.received v.since
  on_way : All (OnWay v.channel.messages v.received) v.pending

page-Covers :
    (w : WebChannel) (received : List WebMessage) (since : ℕ)
    → IsNumbered w
    → Covers w.messages received since
    → Covers w.messages
        (received ++ (messages_since since w).messages)
        (messages_since since w).next_since
unfolding messages_since
page-Covers w received since h (shown, within) =
    let late = drop since w.messages in
    let all : All (IsShown (received ++ late)) w.messages =
      subst (All (IsShown (received ++ late))) (take-append-drop since w.messages) (
        All-append (IsShown (received ++ late)) (take since w.messages) late
          (All-weaken (take since w.messages) (λ m. IsShown-left received late m) shown)
          (All-weaken late (λ m. IsShown-right received late m) (IsShown-All late))) in
    rw (page-messages since w h, h.next, take-all w.messages) (all, omega arith)

busy-Covered : {alone : Bool} {v v' : View} → Runs alone v v' → IsCovered v → IsCovered v'
busy-Covered (idle v) h = h
busy-Covered (runs {v = v} step rest) h =
    let g = ChannelStep-Grows step in
    busy-Covered rest (record {
      numbered = g.numbered h.numbered;
      reached =
          subst (λ l. Covers l v.received v.since) (sym g.extended)
            (Covers-grows v.channel.messages g.more v.received v.since h.reached);
      on_way =
          subst (λ l. All (OnWay l v.received) v.pending) (sym g.extended)
            (All-weaken v.pending (OnWay-grows v.channel.messages g.more v.received) h.on_way);
    })
busy-Covered (asks {v = v} free rest) h = busy-Covered rest (record {
  numbered = h.numbered;
  reached = h.reached;
  on_way =
      All-append (OnWay v.channel.messages v.received) v.pending (asked v.since ∷ []) h.on_way
        (h.reached, tt);
})
busy-Covered (answers {v = v} before after since there rest) h =
    let P = OnWay v.channel.messages v.received in
    let (own, others) = All-picked P before after (asked since) (subst (All P) there h.on_way) in
    busy-Covered rest (record {
      numbered = h.numbered;
      reached = h.reached;
      on_way =
          All-placed P before after (answered (messages_since since v.channel))
            (page-Covers v.channel v.received since h.numbered own) others;
    })
busy-Covered (renders {v = v} before after page there rest) h =
    let P = OnWay v.channel.messages v.received in
    let (own, others) = All-picked P before after (answered page) (subst (All P) there h.on_way) in
    busy-Covered rest (record {
      numbered = h.numbered;
      reached = own;
      on_way =
          All-weaken (before ++ after) (OnWay-shows v.channel.messages v.received page.messages)
            others;
    })
busy-Covered (loses {v = v} before after lost there rest) h =
    let P = OnWay v.channel.messages v.received in
    busy-Covered rest (record {
      numbered = h.numbered;
      reached = h.reached;
      on_way = (All-picked P before after lost (subst (All P) there h.on_way)).1;
    })
busy-Covered (reloads {v = v} rest) h =
    busy-Covered rest (record { numbered = h.numbered; reached = (tt, omega arith); on_way = tt })

pub covered-Runs :
    {alone : Bool} {w : WebChannel} {v : View}
    → Runs alone (opened w) v
    → IsNumbered w
    → All (IsShown (poll v).received) v.channel.messages × IsNumbered v.channel
unfolding messages_since
covered-Runs {v = v} run start =
    let h =
      busy-Covered run (record { numbered = start; reached = (tt, omega arith); on_way = tt }) in
    let (shown, within) = page-Covers v.channel v.received v.since h.numbered h.reached in
    (
      subst (All (IsShown (poll v).received))
          (ap (λ k. take k v.channel.messages) h.numbered.next ∙ take-all v.channel.messages) shown,
      h.numbered,
    )
