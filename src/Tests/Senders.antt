-- ===== src/Tests/Senders.antt =====
-- An allowlist of one sender.
use secnano.Prelude.{[], ◌∷◌}
use secnano.Types.{null, text}
use secnano.SenderAllowlist.{AllowlistFile, array}

abbrev one_sender : AllowlistFile
one_sender = array (null ∷ text " alice " ∷ [])
