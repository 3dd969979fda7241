-- ===== src/Db/Chats/Metadata.antt =====
-- What `store_chat_metadata` of secnano/db.py keeps of the chat that is already stored.
use secnano.Prelude.{
  String, ◌≡◌, refl, Bool, true, Option, none, some, arith, ◌==◌, eq_refl, if◌then◌else◌, str_le,
  str_le_refl, str_le_total, Bool-cases, inl, inr, ap, sym, ◌∙◌,
}
use secnano.Types.{Chat}
use secnano.Db.Table.{find_row-key, find_row-upsert_row}
use secnano.Db.Database.{Database}
use secnano.Db.Chats.{get_chat, merged_chat, store_chat_metadata}

module _ (chat_jid timestamp : String) (name channel : Option String) (is_group : Option Bool)
    (db : Database) where
  abbrev stored : Database
  stored = store_chat_metadata chat_jid timestamp name channel is_group db

  -- The chat is replaced by its merged row, and every other chat stays as it was.
  pub get_chat-store_chat_metadata :
      (j : String)
      → get_chat j stored ≡ (
          if chat_jid == j
          then some (merged_chat chat_jid timestamp name channel is_group (get_chat chat_jid db))
          else get_chat j db)
  unfolding store_chat_metadata
  get_chat-store_chat_metadata j =
      let merged = merged_chat chat_jid timestamp name channel is_group (get_chat chat_jid db) in
      ground (
        arith,
        find_row-upsert_row (λ (c : Chat). c.jid) (λ _. merged) merged j db.chats (λ x e. refl),
      )

  module _ (existing : Chat) (found : get_chat chat_jid db ≡ some existing) where
    time_monotone :
        (c : Chat)
        → c ≡ merged_chat chat_jid timestamp name channel is_group (some existing)
        → (str_le existing.last_message_time c.last_message_time ≡ true)
          × (str_le timestamp c.last_message_time ≡ true)
    time_monotone c e = elim (Bool-cases (str_le existing.last_message_time timestamp)) [
      | inl le ↦
          let t : c.last_message_time ≡ timestamp =
            ap (λ (x : Chat). x.last_message_time) e ∙ rw le in
          rw t (le, str_le_refl timestamp)
      | inr gt ↦
          let t : c.last_message_time ≡ existing.last_message_time =
            ap (λ (x : Chat). x.last_message_time) e ∙ rw gt in
          rw t (
            str_le_refl existing.last_message_time,
            str_le_total existing.last_message_time timestamp gt,
          )
    ]

    -- Metadata for a stored chat never moves its last message time back, and the new time is not
    -- before the given timestamp either.
    pub store_chat_metadata-monotone :
        (c : Chat) × (get_chat chat_jid stored ≡ some c)
        × (str_le existing.last_message_time c.last_message_time ≡ true)
        × (str_le timestamp c.last_message_time ≡ true)
    store_chat_metadata-monotone =
        let c = merged_chat chat_jid timestamp name channel is_group (some existing) in
        let (before, given) = time_monotone c refl in
        (c, simp (get_chat-store_chat_metadata, eq_refl, found), before, given)

-- Omitted fields are preserved: with no name, channel or group flag, only the time may change.
pub store_chat_metadata_omitted :
    (chat_jid timestamp : String) (db : Database) (existing : Chat)
    → get_chat chat_jid db ≡ some existing
    → (time : String) × (get_chat chat_jid
          (store_chat_metadata chat_jid timestamp none none none db)
        ≡ some (record existing { last_message_time = time }))
store_chat_metadata_omitted chat_jid timestamp db existing found =
    let merged = merged_chat chat_jid timestamp none none none (some existing) in
    let same : existing.jid ≡ chat_jid =
      unfold get_chat in find_row-key (λ (c : Chat). c.jid) chat_jid db.chats existing found in
    (
      merged.last_message_time,
      simp (get_chat-store_chat_metadata, eq_refl, found)
          (ap some (λ i. record merged { jid = sym same i })),
    )
