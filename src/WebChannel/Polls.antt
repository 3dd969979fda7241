-- ===== src/WebChannel/Polls.antt =====
-- A page of secnano/channels/web.py that asks again from where the last answer ended. Its polls, one a
-- second and one behind every text that it sends, may overlap.
pub mod Overlapping
pub mod Alone
use mathlib.Core.List.{append_assoc, append-nil}
use mathlib.Core.Path.{subst}
use secnano.Prelude.{
  ℕ, zero, suc, ◌≤◌, ◌⊎◌, inl, inr, Bool, true, false, String, ◌≡◌, refl, sym, ap, ◌∙◌, List, [],
  ◌∷◌, ◌++◌, arith, take, drop, length, length-append, take-append-drop, All, All-append,
}
use secnano.WebChannel.{WebMessage, MessagesPage, WebChannel, new_channel, messages_since}
use secnano.WebChannel.Log.{
  IsNumberedFrom, IsNumbered, select-IsNumberedFrom, ChannelStep, ChannelStep-Grows,
}

-- A poll on its way: the server has not answered it yet, or the page has not handled the answer.
pub data Pending : Type 0 where
  asked : (since : ℕ) → Pending
  answered : MessagesPage → Pending

-- A page that polls: its `since`, the messages that it has rendered, in order, and its polls.
pub record View : Type 0 where
  pub channel : WebChannel
  pub since : ℕ
  pub received : List WebMessage
  pub pending : List Pending

abbrev pub opened : WebChannel → View
opened w = record { channel = w; since = 0; received = []; pending = [] }

abbrev pub ask : View → View
ask v = record v { pending = v.pending ++ asked v.since ∷ [] }

-- What `poll` does with an answer.
abbrev pub render : MessagesPage → View → View
render page v = record v { since = page.next_since; received = v.received ++ page.messages }

-- A whole poll, with nothing else between.
abbrev pub poll : View → View
unfolding messages_since
poll v = render (messages_since v.since v.channel) v

-- A run of the channel's code and of the page. The polls are answered, handled and lost in any order;
-- a page whose polls do not overlap, `alone`, asks only while none is on its way.
pub data Runs (alone : Bool) : View → View → Type 0 where
  idle : (v : View) → Runs alone v v
  runs :
      {w : WebChannel} {v v' : View}
      → ChannelStep v.channel w
      → Runs alone (record v { channel = w }) v'
      → Runs alone v v'
  asks : {v v' : View} → (alone ≡ true → v.pending ≡ []) → Runs alone (ask v) v' → Runs alone v v'
  answers :
      {v v' : View} (before after : List Pending) (since : ℕ)
      → v.pending ≡ before ++ asked since ∷ after
      → Runs alone
          (record v { pending = before ++ answered (messages_since since v.channel) ∷ after })
          v'
      → Runs alone v v'
  renders :
      {v v' : View} (before after : List Pending) (page : MessagesPage)
      → v.pending ≡ before ++ answered page ∷ after
      → Runs alone (render page (record v { pending = before ++ after })) v'
      → Runs alone v v'
  loses :
      {v v' : View} (before after : List Pending) (lost : Pending)
      → v.pending ≡ before ++ lost ∷ after
      → Runs alone (record v { pending = before ++ after }) v'
      → Runs alone v v'
  reloads : {v v' : View} → Runs alone (opened v.channel) v' → Runs alone v v'

page-messages :
    (since : ℕ) (w : WebChannel)
    → IsNumbered w
    → (messages_since since w).messages ≡ drop since w.messages
unfolding messages_since
page-messages since w h = select-IsNumberedFrom since 0 since w.messages (omega arith) h.ids

module _ {A : Type 0} (P : A → Type 0) where
  pub All-picked :
      (before after : List A) (x : A) → All P (before ++ x ∷ after) → P x × All P (before ++ after)
  All-picked [] after x h = h
  All-picked (y ∷ before) after x h =
      let (found, rest) = All-picked before after x h.1 in (found, (h.0, rest))

  pub All-placed :
      (before after : List A) (x : A) → P x → All P (before ++ after) → All P (before ++ x ∷ after)
  All-placed [] after x hx h = (hx, h)
  All-placed (y ∷ before) after x hx h = (h.0, All-placed before after x hx h.1)

pub All-weaken :
    {A : Type 0} {P Q : A → Type 0} (xs : List A) → ((x : A) → P x → Q x) → All P xs → All Q xs
All-weaken [] weaken h = tt
All-weaken (x ∷ xs) weaken h = (weaken x h.0, All-weaken xs weaken h.1)
