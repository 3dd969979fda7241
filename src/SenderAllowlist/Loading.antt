-- ===== src/SenderAllowlist/Loading.antt =====
-- The allowlist of secnano/sender_allowlist.py is read at the first question only.
use secnano.Prelude.{
  String, ◌≡◌, refl, ap, Bool, true, false, Option, none, List, [], ◌∷◌, map, if◌then◌else◌,
}
use secnano.SenderAllowlist.{AllowlistFile, load_allowlist, allows, is_sender_allowed}

-- `_loaded` and `_allowlist`
pub record Loaded : Type 0 where
  pub loaded : Bool
  pub allowlist : Option (List String)

abbrev pub not_loaded : Loaded
not_loaded = record { loaded = false; allowlist = none }

-- `_load`, where the file has this content now.
abbrev pub load : AllowlistFile → Loaded → Loaded
load file s = if s.loaded then s else record { loaded = true; allowlist = load_allowlist file }

-- `is_sender_allowed`, with what it leaves in the module.
abbrev pub ask : AllowlistFile → String → Loaded → Bool × Loaded
ask file sender_jid s = (allows (load file s).allowlist sender_jid, load file s)

-- The answers to questions in turn, each with the file as it is then.
unfoldable pub ask_all : List (AllowlistFile × String) → Loaded → List Bool
ask_all [] s = []
ask_all ((file, sender_jid) ∷ questions) s =
    let (answer, s') = ask file sender_jid s in answer ∷ ask_all questions s'

ask_all_loaded :
    (first : AllowlistFile) (questions : List (AllowlistFile × String))
    → ask_all questions (record { loaded = true; allowlist = load_allowlist first })
      ≡ map (λ (q : AllowlistFile × String). is_sender_allowed first q.1) questions
unfolding ask_all is_sender_allowed
ask_all_loaded first [] = refl
ask_all_loaded first ((file, sender_jid) ∷ questions) =
    ap (λ (l : List Bool). allows (load_allowlist first) sender_jid ∷ l)
      (ask_all_loaded first questions)

-- However the file changes afterwards, every question is answered by the file as it was at the first.
pub ask_all-is_sender_allowed :
    (first : AllowlistFile) (sender_jid : String) (questions : List (AllowlistFile × String))
    → ask_all ((first, sender_jid) ∷ questions) not_loaded
      ≡ is_sender_allowed first sender_jid
        ∷ map (λ (q : AllowlistFile × String). is_sender_allowed first q.1) questions
unfolding ask_all is_sender_allowed
ask_all-is_sender_allowed first sender_jid questions =
    ap (λ (l : List Bool). allows (load_allowlist first) sender_jid ∷ l)
      (ask_all_loaded first questions)
