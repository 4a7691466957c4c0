-- ===== src/Tests/Workers.antt =====
-- A run of the scheduler.
use wacht.Shared.{◌≡◌, refl, List, [], ◌∷◌, String}
use wacht.Shared.Int.{ℤ}
use wacht.Shared.Dict.{lookup, insert, delete}
use wacht.Shared.Dict.Keys.{IsMap}
use wacht.Proto.{ProbeCheck}
use wacht.Probe.Scheduler.{same_probe_check, reconcile_one, Scheduler, desired, reconcile}
use wacht.Probe.Scheduler.Accounted.{IsAccounted}
use wacht.Probe.Scheduler.Updates.{after_updates, after_updates-IsAccounted}
use wacht.Probe.Scheduler.Latest.{RunsLatest, last_with_id, reconcile-RunsLatest}

abbrev page : String → ProbeCheck
page target = record {
  id = "shop";
  name = "Shop";
  check_type = "http";
  target = target;
  interval = ℤ.pos 30;
}

abbrev other_page : ProbeCheck
other_page = record (page "https://blog.test") { id = "blog" }

abbrev busy : Scheduler
busy = record {
  running =
      ("shop", record { check = page "https://shop.test"; worker = 0 })
      ∷ ("old", record { check = page "https://old.test"; worker = 1 })
      ∷ [];
  started = 2;
  cancelled = [];
}

abbrev latest : List ProbeCheck
latest = page "https://new.shop.test" ∷ other_page ∷ []

busy-IsMap : IsMap busy.running
unfolding lookup
busy-IsMap = (refl, (refl, tt))

reconcile-RunsLatest_example :
    RunsLatest 2
      (lookup "shop" busy.running)
      (last_with_id "shop" latest)
      (lookup "shop" (reconcile latest busy).running)
reconcile-RunsLatest_example = reconcile-RunsLatest latest busy "shop" busy-IsMap

-- Two checks, then one of them changed and the other gone.
abbrev updates : List (List ProbeCheck)
updates = (page "https://new.shop.test" ∷ []) ∷ (page "https://shop.test" ∷ other_page ∷ []) ∷ []

after_updates-IsAccounted_example :
    IsMap (after_updates updates).running × IsAccounted (after_updates updates)
after_updates-IsAccounted_example = after_updates-IsAccounted updates

both_stopped : (after_updates updates).cancelled ≡ 1 ∷ 0 ∷ []
unfolding reconcile desired reconcile_one lookup insert delete same_probe_check
both_stopped = refl
