-- ===== src/PingData.antt =====
-- pingData.go: a ring of response times. The mean and the deviation are floating-point numbers and
-- stand in `Env.timeout_millis`.
pub mod Ring
use smudge.Prelude.{
  ℕ, ◌+◌, ◌*◌, ◌/◌, ◌%◌, ◌^◌, Bool, true, false, List, [], ◌∷◌, replicate, length, set, ltb,
  if◌then◌else◌,
}
use smudge.Prelude.Outcome.{Outcome, ok, panic}
use smudge.Cluster.{PingData}

unfoldable pub new_ping_data : ℕ → ℕ → PingData
new_ping_data initial_average history_count = record {
  pings = replicate history_count (initial_average % 2 ^ 32);
  pointer = 0;
  updated = true;
}

unfoldable pub add : PingData → ℕ → Outcome PingData
add pd datapoint =
    if ltb pd.pointer (length pd.pings)
    then ok (record {
      pings = set pd.pings pd.pointer datapoint;
      pointer = (pd.pointer + 1) % length pd.pings;
      updated = true;
    })
    else panic

-- data() marks its results as up to date.
unfoldable pub refresh : PingData → PingData
refresh pd = record pd { updated = false }
