-- ===== src/Exec/Frame.antt =====
-- Procedures that do not touch the registry's table: what holds of the table before holds after.
use saas_ntier_lab.Prelude.{ℕ, String, List}
use saas_ntier_lab.Store.{Table}
use saas_ntier_lab.Store.Invariant.{IsRegistry}
use saas_ntier_lab.Exec.{
  Platform, World, AwsCall, spawn, aws_call, sleep_for, tofu_outputs, capture_of, feed_to,
  read_text, write_text, choose, time_now, store_list, is_file, fetch_url, which_of, Exec,
}
use saas_ntier_lab.Exec.Keeps.{Keeps, keeps_rules, Registered}

-- `Q` holds of the table.
pub record Tabled (p : Platform) (Q : Table → Type 0) (w : World p) : Type 0 where
  pub holds : Q w.table

module _ {p : Platform} {Q : Table → Type 0} where
  pub spawn-Tabled : (c : List String) → Keeps (Tabled p Q) (spawn c)
  unfolding spawn
  spawn-Tabled c = record { at = λ w h. record { holds = h.holds } }

  pub aws_call-Tabled : (c : AwsCall) → Keeps (Tabled p Q) (aws_call c)
  unfolding aws_call
  aws_call-Tabled c = record { at = λ w h. record { holds = h.holds } }

  pub sleep_for-Tabled : (n : ℕ) → Keeps (Tabled p Q) (sleep_for n)
  unfolding sleep_for
  sleep_for-Tabled n = record { at = λ w h. record { holds = h.holds } }

  pub tofu_outputs-Tabled : Keeps (Tabled p Q) (tofu_outputs)
  unfolding tofu_outputs
  tofu_outputs-Tabled = record { at = λ w h. record { holds = h.holds } }

  pub capture_of-Tabled : (c : List String) → Keeps (Tabled p Q) (capture_of c)
  unfolding capture_of
  capture_of-Tabled c = record { at = λ w h. record { holds = h.holds } }

  pub feed_to-Tabled : (c : List String) (s : String) → Keeps (Tabled p Q) (feed_to c s)
  unfolding feed_to
  feed_to-Tabled c s = record { at = λ w h. record { holds = h.holds } }

  pub read_text-Tabled : (f : String) → Keeps (Tabled p Q) (read_text f)
  unfolding read_text
  read_text-Tabled f = record { at = λ w h. record { holds = h.holds } }

  pub write_text-Tabled : (f s : String) → Keeps (Tabled p Q) (write_text f s)
  unfolding write_text
  write_text-Tabled f s = record { at = λ w h. record { holds = h.holds } }

  pub choose-Tabled : (s : String) → Keeps (Tabled p Q) (choose s)
  unfolding choose
  choose-Tabled s = record { at = λ w h. record { holds = h.holds } }

  pub time_now-Tabled : Keeps (Tabled p Q) time_now
  unfolding time_now
  time_now-Tabled = record { at = λ w h. record { holds = h.holds } }

  pub store_list-Tabled : Keeps (Tabled p Q) store_list
  unfolding store_list
  store_list-Tabled = record { at = λ w h. record { holds = h.holds } }

  pub is_file-Tabled : (f : String) → Keeps (Tabled p Q) (is_file f)
  unfolding is_file
  is_file-Tabled f = record { at = λ w h. record { holds = h.holds } }

  pub fetch_url-Tabled : (u : String) → Keeps (Tabled p Q) (fetch_url u)
  unfolding fetch_url
  fetch_url-Tabled u = record { at = λ w h. record { holds = h.holds } }

  pub which_of-Tabled : (n : String) → Keeps (Tabled p Q) (which_of n)
  unfolding which_of
  which_of-Tabled n = record { at = λ w h. record { holds = h.holds } }

pub ruleset tabled_rules = (
  keeps_rules, spawn-Tabled, aws_call-Tabled, sleep_for-Tabled, tofu_outputs-Tabled,
  capture_of-Tabled, feed_to-Tabled, read_text-Tabled, write_text-Tabled, choose-Tabled,
  time_now-Tabled, store_list-Tabled, is_file-Tabled, fetch_url-Tabled, which_of-Tabled,
)

-- A procedure that leaves the table alone keeps the registry's invariant.
pub framed-Registered :
    {p : Platform} {A : Type 0} (m : Exec p A)
    → Keeps (Tabled p IsRegistry) m
    → Keeps (Registered p) m
framed-Registered m k = record { at = λ w h. (k.at w (record { holds = h })).holds }
