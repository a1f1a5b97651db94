-- ===== src/EngineDb/Examples.antt =====
-- Concrete tables of the scaling engine.
use app_autoscaler.Prelude.{ℕ, ◌≡◌, true, false, not, ◌||◌, ◌↔◌, List, [], ◌∷◌, Holds}
use app_autoscaler.Prelude.Int.{pos, negsuc}
use app_autoscaler.Models.{
  dynamic, ok, AppScalingHistory, ScalingStatus, succeeded, failed, ignored, ActiveSchedule,
}
use app_autoscaler.EngineDb.{
  EngineDb, no_faults, asc, in_range, is_ignored, retrieve_scaling_histories,
}
use app_autoscaler.EngineDb.Retrieve.{IsOrdered, retrieve_lem}

abbrev night : ActiveSchedule
night = record {
  schedule_id = "night";
  instance_min = pos 4;
  instance_max = pos 8;
  instance_min_initial = pos 5;
}

abbrev row : ℕ → ScalingStatus → AppScalingHistory
row n s = record {
  app_id = "a";
  timestamp = pos n;
  scaling_type = dynamic;
  status = s;
  old_instances = pos 1;
  new_instances = pos 2;
  reason = "";
  message = "";
  error = "";
}

abbrev rows : EngineDb
rows = record {
  cooldowns = [];
  schedules = [];
  histories = row 30 succeeded ∷ row 10 failed ∷ row 20 ignored ∷ [];
}

retrieve_lem_example :
    (found : List AppScalingHistory) × (retrieve_scaling_histories no_faults
        (pos 99)
        "a"
        (pos 5)
        (negsuc 0)
        asc
        false
        rows
      ≡ ok found)
    × IsOrdered asc found
    × ((h : AppScalingHistory)
        → Holds h found ↔ (
            Holds h rows.histories
            × (in_range "a" (pos 5) (pos 99) h ≡ true)
            × ((false || not (is_ignored h)) ≡ true)))
retrieve_lem_example = retrieve_lem (pos 99) "a" (pos 5) (negsuc 0) asc false rows
