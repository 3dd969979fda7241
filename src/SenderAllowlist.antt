-- ===== src/SenderAllowlist.antt =====
-- secnano/sender_allowlist.py: the senders whose messages are taken. What the file holds
-- is an argument, with the entries of a JSON array as texts, nulls, numbers and Booleans.
pub mod Loading
use Prim.Native.Char.{code}
use secnano.Prelude.{
  String, ◌≡◌, Bool, true, false, ◌||◌, Option, none, some, List, [], ◌∷◌, eqb, ◌==◌, if◌then◌else◌,
  strip,
}
use secnano.Types.{Json}
use secnano.JsonValue.{str_of, is_true}

-- What `_load` finds: no file, a JSONDecodeError or an OSError, another value, an array. A file that
-- is not UTF-8 is left out: its UnicodeDecodeError is not caught, and leaves the first call.
pub data AllowlistFile : Type 0 where
  missing : AllowlistFile
  unreadable : AllowlistFile
  other_value : AllowlistFile
  array : List Json → AllowlistFile

-- `{str(s).strip() for s in data if s}`
unfoldable pub allowed_senders : List Json → List String
unfolding strip
allowed_senders [] = []
allowed_senders (entry ∷ entries) =
    let rest = allowed_senders entries in
    if is_true entry then strip (str_of entry) ∷ rest else rest

-- `_allowlist` after `_load`: `none` allows every sender.
unfoldable pub load_allowlist : AllowlistFile → Option (List String)
unfolding allowed_senders
load_allowlist missing = none
load_allowlist unreadable = none
load_allowlist other_value = none
load_allowlist (array entries) = some (allowed_senders entries)

-- `sender_jid.split("@")[0]`
unfoldable pub bare_sender : String → String
bare_sender String.[] = ""
bare_sender (String.◌∷◌ c s) =
    let rest = bare_sender s in if eqb (code c) 64 then "" else String.◌∷◌ c rest

unfoldable pub is_listed : String → List String → Bool
is_listed sender [] = false
is_listed sender (x ∷ xs) = if x == sender then true else is_listed sender xs

abbrev pub allows : Option (List String) → String → Bool
unfolding is_listed bare_sender
allows none sender = true
allows (some senders) sender = is_listed sender senders || is_listed (bare_sender sender) senders

unfoldable pub is_sender_allowed : AllowlistFile → String → Bool
unfolding load_allowlist is_listed bare_sender
is_sender_allowed file sender = allows (load_allowlist file) sender

-- An entry of the array that is true and stands, stripped, for the name.
pub data IsEntry (name : String) : List Json → Type 0 where
  entry_here :
      (entry : Json) (entries : List Json)
      → is_true entry ≡ true
      → strip (str_of entry) ≡ name
      → IsEntry name (entry ∷ entries)
  entry_later :
      (entry : Json) (entries : List Json) → IsEntry name entries → IsEntry name (entry ∷ entries)
