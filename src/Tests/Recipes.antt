-- ===== src/Tests/Recipes.antt =====
-- A run of three phases, of which the second stops hard.
use paperboy.Base.{ℕ, ◌≡◌, refl, true, Option, none, some, List, [], ◌∷◌, select, map}
use paperboy.Base.Text.{Text, codes}
use paperboy.Recipes.{
  Ended, completes, phase_stops, hard_stops, Context, Collector, Settings, run_one, run_phases,
  open_session, is_run, without_channel, is_reused, collect_channel,
}
use paperboy.Recipes.Phases.{Leaves, collect_channel-Leaves}

abbrev phase : Text → Ended → Collector ℕ
phase name e = record { name = name; applies = true; collect = λ p. (e, p); catch_up = none }

abbrev collectors : List (Collector ℕ)
collectors =
    phase (codes "channel") (completes [] none)
    ∷ phase (codes "history") (phase_stops (("messages", 100) ∷ []))
    ∷ phase (codes "graph") hard_stops
    ∷ phase (codes "media") (completes [] none)
    ∷ []

abbrev settings : Settings
settings = record { media_msgs = none; media_store = some (codes "bucket") }

abbrev reused : Option Context
reused = some (record { channel_id = 7; source_run_id = codes "r1" })

collect_channel_stops :
    map (λ e. e.phase) (collect_channel settings none collectors reused 0).0.results
    ≡ codes "history" ∷ codes "graph" ∷ []
unfolding collect_channel run_phases run_one
collect_channel_stops = refl

collect_channel-Leaves_example :
    Leaves ℕ
      (open_session 0 reused).place
      (select (is_run none) (without_channel (is_reused reused) collectors))
      (collect_channel settings none collectors reused 0).0.results
      (collect_channel settings none collectors reused 0).1
    × ((collect_channel settings none collectors reused 0).0.events
        ≡ (collect_channel settings none collectors reused 0).0.results)
collect_channel-Leaves_example = collect_channel-Leaves settings none collectors reused 0
