-- ===== src/Orchestration/Closing.antt =====
-- How a message run leaves the queue and the channel.
use secnano.Prelude.{◌≡◌, Bool, true, false, none, some, if◌then◌else◌}
use secnano.Orchestration.Tracking.{Summary}

-- How a finished run leaves things; `answered` says whether there was an output.
pub record IsClosed (has_channel answered : Bool) (s : Summary) : Type 0 where
  pub closes : s.closes ≡ (if answered then 1 else 0)
  pub idles : s.idles ≡ 1
  pub typing : s.typing ≡ (if has_channel then some false else none)
  pub ended : s.ended ≡ true
