-- ===== src/Db/Messages/Window.antt =====
-- The window of messages that `get_messages` of secnano/db.py returns.
use mathlib.Core.List.{Perm, reverse, reverse-cons, reverse_perm}
use mathlib.Core.List.Perm
use secnano.Prelude.{
  ℕ, zero, suc, ◌≤◌, String, ◌≡◌, true, List, [], ◌∷◌, ◌++◌, length, length-append, length-take,
  take, drop, take-append-drop, select, arith, ◌==◌, All, All-append, All-take, All-drop, refl,
  str_le,
}
use secnano.Types.{Message}
use secnano.Db.Sort.{sort, sort-perm, IsSorted, ascending, descending, descending-IsSorted}
use secnano.Db.Database.{Database}
use secnano.Db.Messages.{get_messages}

abbrev pub stamp : Message → String
stamp m = m.timestamp

length-reverse : (xs : List Message) → length (reverse xs) ≡ length xs
length-reverse [] = refl
length-reverse (x ∷ xs) =
    rw reverse-cons (omega (arith, length-append (reverse xs) (x ∷ []), length-reverse xs))

All-reverse {ℓ} : (P : Message → Type ℓ) (xs : List Message) → All P xs → All P (reverse xs)
All-reverse P [] h = tt
All-reverse P (x ∷ xs) h =
    rw reverse-cons (All-append P (reverse xs) (x ∷ []) (All-reverse P xs h.1) (h.0, tt))

IsSorted-snoc :
    (xs : List Message) (y : Message)
    → IsSorted (ascending stamp) xs
    → All (λ x. str_le x.timestamp y.timestamp ≡ true) xs
    → IsSorted (ascending stamp) (xs ++ y ∷ [])
IsSorted-snoc [] y s a = (tt, tt)
IsSorted-snoc (x ∷ xs) y s a = (All-append _ xs (y ∷ []) s.0 (a.0, tt), IsSorted-snoc xs y s.1 a.1)

reverse-IsSorted :
    (xs : List Message) → IsSorted (descending stamp) xs → IsSorted (ascending stamp) (reverse xs)
reverse-IsSorted [] s = tt
reverse-IsSorted (x ∷ xs) s =
    rw reverse-cons (IsSorted-snoc (reverse xs) x (reverse-IsSorted xs s.1) (All-reverse _ xs s.0))

take-IsSorted :
    (n : ℕ) (xs : List Message)
    → IsSorted (descending stamp) xs
    → IsSorted (descending stamp) (take n xs)
take-IsSorted zero xs s = tt
take-IsSorted (suc n) [] s = tt
take-IsSorted (suc n) (x ∷ xs) s = (All-take _ n xs s.0, take-IsSorted n xs s.1)

All-drop_le :
    (n : ℕ) (xs : List Message)
    → IsSorted (descending stamp) xs
    → All (λ new. All (λ old. str_le old.timestamp new.timestamp ≡ true) (drop n xs)) (take n xs)
All-drop_le zero xs s = tt
All-drop_le (suc n) [] s = tt
All-drop_le (suc n) (x ∷ xs) s = (All-drop _ n xs s.0, All-drop_le n xs s.1)

-- The result of `get_messages` and the messages of the chat that it leaves out.
pub record IsWindow (chat_jid : String) (limit : ℕ) (db : Database) (shown older : List Message)
    : Type 0 where
  pub bounded : length shown ≤ limit
  pub ordered : IsSorted (ascending stamp) shown
  pub complete :
      Perm (shown ++ older) (select (λ (m : Message). m.chat_jid == chat_jid) db.messages)
  pub newest : All (λ new. All (λ old. str_le old.timestamp new.timestamp ≡ true) older) shown

-- `get_messages` returns at most `limit` messages of the chat, oldest first; with the messages that
-- it leaves out they are all of the chat's, and none left out is newer than one returned.
pub get_messages-IsWindow :
    (chat_jid : String) (limit : ℕ) (db : Database)
    → (older : List Message) × IsWindow chat_jid limit db (get_messages chat_jid limit db) older
unfolding get_messages
get_messages-IsWindow chat_jid limit db =
    let mine = select (λ (m : Message). m.chat_jid == chat_jid) db.messages in
    let sorted = sort (descending stamp) mine in
    let desc = descending-IsSorted stamp mine in
    (
      drop limit sorted,
      record {
        bounded = omega (arith, length-reverse (take limit sorted), length-take limit sorted);
        ordered = reverse-IsSorted (take limit sorted) (take-IsSorted limit sorted desc);
        complete =
            Perm.trans (Perm.append (reverse_perm (take limit sorted)) Perm.rfl)
              (rw take-append-drop (sort-perm (descending stamp) mine));
        newest = All-reverse _ (take limit sorted) (All-drop_le limit sorted desc);
      },
    )
