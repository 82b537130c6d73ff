-- ===== src/Fetch/Loop.antt =====
-- fetch_from_list.py: what a segment asks of the collectors, `_stop_check`, and the state of the loop.
use paperboy.Base.{ℕ, Bool, true, false, Option, none, some, List, [], ◌∷◌, ◌++◌, if◌then◌else◌}
use paperboy.Base.Text.{Text, codes, text_eq}
use paperboy.Base.Assoc.{Assoc}
use paperboy.Store.Edges.{Edge}
use paperboy.Collectors.Posts.{Outcomes}
use paperboy.Media.Phase.State.{Outcome}
use paperboy.Inputs.Entry.{Address}
use paperboy.Inputs.Classify.{Known, Seen}
use paperboy.Fetch.Rows.{RowResult}

-- `CollectResult.stopped`, and its exception by its type and its text. Any other stop is a refusal.
pub data Stopped : Type 0 where
  hard_stop phase_stop skipped : Stopped

pub record PhaseResult : Type 0 where
  pub name : Text
  pub stopped : Option Stopped
  pub exc_type : Text
  pub exc_text : Text

-- What a run of `collect_channel` comes to: results, a `MediaStoreError`, or another exception.
pub data Ran : Type 0 where
  ran : List PhaseResult → Ran
  store_failed : Text → Ran
  crashed : Ran

-- The runs of the collectors over a world `W` that holds the store, with channel contexts `C`.
pub record Driver (W C : Type 0) : Type 0 where
  pub establish : Address → W → W × Option C × Ran
  pub fetch_posts : C → ℕ → List ℕ → W → W × Outcomes × Ran
  pub fetch_media : C → ℕ → List ℕ → W → W × Assoc Text Outcome × Ran
  pub channel_id : C → ℕ
  pub known : W → Known
  pub edges : W → List Edge

pub data Verdict : Type 0 where
  carries_on : Verdict
  must_end refused : Text → Verdict

abbrev is_hard : Option Stopped → Bool
is_hard (some hard_stop) = true
is_hard (some phase_stop) = false
is_hard (some skipped) = false
is_hard none = false

abbrev any_hard : List PhaseResult → Bool
any_hard [] = false
any_hard (r ∷ rs) = if is_hard r.stopped then true else any_hard rs

-- `by_name`, of which the last result of a name wins.
abbrev named : Text → List PhaseResult → Option PhaseResult → Option PhaseResult
named phase [] found = found
named phase (r ∷ rs) found = named phase rs (if text_eq r.name phase then some r else found)

abbrev of_stopped : Text → PhaseResult → Option Stopped → Verdict
of_stopped phase r none = carries_on
of_stopped phase r (some phase_stop) =
    must_end (phase ++ (codes " phase_stop (" ++ (r.exc_type ++ codes ")")))
of_stopped phase r (some hard_stop) = refused r.exc_text
of_stopped phase r (some skipped) = refused r.exc_text

abbrev of_result : Text → Option PhaseResult → Verdict
of_result phase none = carries_on
of_result phase (some r) = of_stopped phase r r.stopped

-- `_stop_check`, of the one phase that was run.
unfoldable pub stop_check : List PhaseResult → Text → Verdict
stop_check results phase =
    if any_hard results
    then must_end (codes "hard_stop")
    else of_result phase (named phase results none)

abbrev media_reason : PhaseResult → Option Stopped → Option Text
media_reason r none = none
media_reason r (some phase_stop) =
    some (codes "media phase_stop (" ++ (r.exc_type ++ (codes ": " ++ (r.exc_text ++ codes ")"))))
media_reason r (some hard_stop) = none
media_reason r (some skipped) = none

abbrev of_media : Option PhaseResult → Option Text
of_media none = none
of_media (some r) = media_reason r r.stopped

-- Why the media step ends the command, if it does.
unfoldable pub media_verdict : List PhaseResult → Option Text
media_verdict results =
    if any_hard results
    then some (codes "hard_stop")
    else of_media (named (codes "media") results none)

-- The runs that were asked for, in order.
pub data Call : Type 0 where
  establishes : Address → Call
  fetches_posts fetches_media : ℕ → List ℕ → Call

-- The variables of `_run_segments`. `contexts` and `resolved` hold the newest entry first.
pub record State (W C : Type 0) : Type 0 where
  pub world : W
  pub results : List RowResult
  pub contexts : List (ℕ × C)
  pub dead : Assoc Address Text
  pub resolved : Assoc Address ℕ
  pub excluded : List ℕ
  pub claimed : Seen
  pub calls : List Call

pub data Next (W C : Type 0) : Type 0 where
  goes_on : State W C → Next W C
  ends : Text → State W C → Next W C
  crashes : State W C → Next W C
