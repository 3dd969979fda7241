-- ===== src/WebChannel/Polls/Alone.antt =====
-- What a page of secnano/channels/web.py renders if its polls do not overlap, and if they do.
use mathlib.Core.Path.{subst}
use mathlib.Core.List.{append_assoc, append-nil}
use secnano.Prelude.{
  ℕ, suc, ◌≤◌, Bool, true, false, String, ◌≡◌, refl, sym, ap, ◌∙◌, List, [], ◌∷◌, ◌++◌, arith, drop,
  length, length-append, All, All-append,
}
use secnano.WebChannel.{WebMessage, new_channel, messages_since}
use secnano.WebChannel.Log.{IsNumberedFrom, IsNumbered, ChannelStep-Grows}
use secnano.WebChannel.Polls.{
  Pending, asked, answered, View, opened, poll, Runs, idle, runs, asks, answers, renders, loses,
  reloads, page-messages, All-picked, All-placed, All-weaken,
}
use secnano.WebChannel.Polls.Overlapping.{IsShown, covered-Runs}

-- What a poll on its way brings continues what the page has.
abbrev Continues : (log received : List WebMessage) → (since : ℕ) → Pending → Type 0
Continues log received since (asked since_) = since_ ≡ since
Continues log received since (answered page) =
    (rest : List WebMessage) × (log ≡ (received ++ page.messages) ++ rest)
    × (page.next_since ≡ length (received ++ page.messages))

record IsInStep (v : View) : Type 0 where
  numbered : IsNumbered v.channel
  rest : List WebMessage
  split : v.channel.messages ≡ v.received ++ rest
  reached : v.since ≡ length v.received
  few : length v.pending ≤ 1
  on_way : All (Continues v.channel.messages v.received v.since) v.pending

drop-length-append : (xs ys : List WebMessage) → drop (length xs) (xs ++ ys) ≡ ys
drop-length-append [] ys = refl
drop-length-append (x ∷ xs) ys = drop-length-append xs ys

page-rest : (v : View) (h : IsInStep v) → (messages_since v.since v.channel).messages ≡ h.rest
page-rest v h =
    page-messages v.since v.channel h.numbered
    ∙ ap (drop v.since) h.split
    ∙ ap (λ k. drop k (v.received ++ h.rest)) h.reached
    ∙ drop-length-append v.received h.rest

poll-received : (v : View) → IsInStep v → (poll v).received ≡ v.channel.messages
unfolding messages_since
poll-received v h = ap (λ l. v.received ++ l) (page-rest v h) ∙ sym h.split

-- The server's answer, at the time of the answer.
page-Continues :
    (v : View) (since : ℕ)
    → IsInStep v
    → since ≡ v.since
    → Continues v.channel.messages v.received v.since (answered (messages_since since v.channel))
unfolding messages_since
page-Continues v since h same =
    let all : v.received ++ (messages_since since v.channel).messages ≡ v.channel.messages =
      ap (λ k. v.received ++ (messages_since k v.channel).messages) same ∙ poll-received v h in
    ([], sym all ∙ sym (append-nil _), h.numbered.next ∙ ap length (sym all))

All-none : {A : Type 0} (P : A → Type 0) (xs : List A) → length xs ≤ 0 → All P xs
All-none P [] h = tt
All-none P (x ∷ xs) h = let absurd : ⊥ = omega (arith, h) in elim absurd [ ]

length-picked :
    (before after : List Pending) (x : Pending)
    → length (before ++ x ∷ after) ≡ suc (length (before ++ after))
length-picked before after x =
    omega (arith, length-append before (x ∷ after), length-append before after)

Continues-grows :
    (log more received : List WebMessage) (since : ℕ) (x : Pending)
    → Continues log received since x
    → Continues (log ++ more) received since x
Continues-grows log more received since (asked since_) h = h
Continues-grows log more received since (answered page) (rest, split, next) = (
  rest ++ more,
  ap (λ l. l ++ more) split ∙ append_assoc (received ++ page.messages) rest more,
  next,
)

busy-InStep : {v v' : View} → Runs true v v' → IsInStep v → IsInStep v'
busy-InStep (idle v) h = h
busy-InStep (runs {v = v} step rest) h =
    let g = ChannelStep-Grows step in
    busy-InStep rest (record {
      numbered = g.numbered h.numbered;
      rest = h.rest ++ g.more;
      split = g.extended ∙ ap (λ l. l ++ g.more) h.split ∙ append_assoc v.received h.rest g.more;
      reached = h.reached;
      few = h.few;
      on_way =
          subst (λ l. All (Continues l v.received v.since) v.pending) (sym g.extended)
            (All-weaken v.pending (Continues-grows v.channel.messages g.more v.received v.since)
              h.on_way);
    })
busy-InStep (asks {v = v} free rest) h = busy-InStep rest (record {
  numbered = h.numbered;
  rest = h.rest;
  split = h.split;
  reached = h.reached;
  few = omega (arith, ap length (free refl), length-append v.pending (asked v.since ∷ []));
  on_way =
      All-append (Continues v.channel.messages v.received v.since) v.pending (asked v.since ∷ [])
        h.on_way (refl, tt);
})
busy-InStep (answers {v = v} before after since there rest) h =
    let P = Continues v.channel.messages v.received v.since in
    let (own, others) = All-picked P before after (asked since) (subst (All P) there h.on_way) in
    let page = answered (messages_since since v.channel) in
    busy-InStep rest (record {
      numbered = h.numbered;
      rest = h.rest;
      split = h.split;
      reached = h.reached;
      few = omega (
        arith,
        h.few,
        ap length there,
        length-picked before after (asked since),
        length-picked before after page,
      );
      on_way = All-placed P before after page (page-Continues v since h own) others;
    })
busy-InStep (renders {v = v} before after page there rest) h =
    let P = Continues v.channel.messages v.received v.since in
    let (own, others) = All-picked P before after (answered page) (subst (All P) there h.on_way) in
    let (left, split, next) = own in
    let none_left : length (before ++ after) ≤ 0 =
      omega (arith, h.few, ap length there, length-picked before after (answered page)) in
    busy-InStep rest (record {
      numbered = h.numbered;
      rest = left;
      split = split;
      reached = next;
      few = omega (arith, none_left);
      on_way = All-none _ (before ++ after) none_left;
    })
busy-InStep (loses {v = v} before after lost there rest) h =
    let P = Continues v.channel.messages v.received v.since in
    busy-InStep rest (record {
      numbered = h.numbered;
      rest = h.rest;
      split = h.split;
      reached = h.reached;
      few = omega (arith, h.few, ap length there, length-picked before after lost);
      on_way = (All-picked P before after lost (subst (All P) there h.on_way)).1;
    })
busy-InStep (reloads {v = v} rest) h = busy-InStep rest (record {
  numbered = h.numbered;
  rest = v.channel.messages;
  split = refl;
  reached = refl;
  few = omega arith;
  on_way = tt;
})

-- What the page has rendered once its next poll is handled: with polls that do not overlap the whole
-- log in its order, and else each of its messages, some perhaps twice.
abbrev pub HasAll : (alone : Bool) → View → Type 0
HasAll true v = (poll v).received ≡ v.channel.messages
HasAll false v = All (IsShown (poll v).received) v.channel.messages

new_channel-IsNumbered : (chat_jid chat_name : String) → IsNumbered (new_channel chat_jid chat_name)
new_channel-IsNumbered chat_jid chat_name = record { ids = tt; next = refl }

-- After any run of the channel's code and of a page that asks from `since`, from a new channel on, the
-- ids of the log are 1, 2 and so on, and a poll of the page, asked and answered now, completes what
-- it has rendered: if no two of its polls were on their way at once, to exactly the channel's
-- whole log, in its order; and however they overlapped, so that every message of the log is there.
pub poll-Runs :
    (alone : Bool) (chat_jid chat_name : String) (v : View)
    → Runs alone (opened (new_channel chat_jid chat_name)) v
    → HasAll alone v × IsNumberedFrom 0 v.channel.messages
poll-Runs false chat_jid chat_name v run =
    let (shown, numbered) = covered-Runs run (new_channel-IsNumbered chat_jid chat_name) in
    (shown, numbered.ids)
poll-Runs true chat_jid chat_name v run =
    let h = busy-InStep run (record {
      numbered = new_channel-IsNumbered chat_jid chat_name;
      rest = [];
      split = refl;
      reached = refl;
      few = omega arith;
      on_way = tt;
    }) in
    (poll-received v h, h.numbered.ids)
