-- ===== src/Workers/Architect/Examples.antt =====
-- Reviews in a runtime with no key of a vendor, and by a vendor that answers.
use hookclose.Prelude.{◌≡◌, refl, false, none, some, [], ◌∷◌, ok}
use hookclose.Providers.State.{Capability, ProviderStatus, profile_of, new_health}
use hookclose.Providers.Base.{
  Platform, Readings, ProviderKind, BaseProvider, responded, is_available, has_budget, invoke,
  settle, complete,
}
use hookclose.Providers.Registry.{for_capability}
use hookclose.Providers.Manager.{
  asked, after_asking, passes, screen, candidates, give_up, after_loop, attempt_provider, try_each,
  manager_complete,
}
use hookclose.Runtime.Composition.{default_config}
use hookclose.Runtime.Composition.Unserved.{exhausted, manager_after}
use hookclose.Workers.Envelope.{ℤ, JsonValue, JsonFields, JsonReader}
use hookclose.Workers.ArchitectPrompts.{ReviewKind, kind_capability, build_request}
use hookclose.Workers.Architect.{
  ReviewResult, save_review, latest_score, ArchitectWorker, outage_result, run_review,
}
use hookclose.Workers.Architect.Reviewed.{is_served, Reviewed, run_review_exact}
use hookclose.Workers.Architect.Outages.{outage_hides_drift, composed_reviews_unserved}

-- Every answer is the score 40.
abbrev json : JsonReader
json = record {
  loads = λ s. some (
      JsonValue.object
        (JsonFields.field "score" (JsonValue.integer (ℤ.pos 40)) JsonFields.no_fields));
  str_of = λ v. "";
}

abbrev os : Platform
os = record {
  clock = λ n. n;
  adapter = λ n name request. responded (record {
    model = "claude";
    content = "{\"score\": 40}";
    finish_reason = "stop";
    usage = record { prompt_tokens = 1; completion_tokens = 1; total_tokens = 2 };
  });
  repr = λ s. s;
  decimal = λ n. "1";
  isoformat = λ t. "2026-01-01";
  strip = λ s. s;
}

abbrev claude : BaseProvider
claude = record {
  kind = ProviderKind.via_adapter;
  profile = profile_of "claude" (Capability.architecture ∷ []) 15000 200000;
  health = new_health;
}

abbrev start : Readings
start = record { times = 0; calls = 0 }

abbrev worker : ArchitectWorker
worker = record {
  manager = record {
    registry = ("claude", claude) ∷ [];
    bus = some [];
    store = [];
    readings = start;
  };
  store =
      save_review (record (outage_result ReviewKind.architecture_review "api") { score = 90 }) [];
  bus = some [];
}

run_review_exact_example :
    let (answer, w') = run_review os json ReviewKind.architecture_review "api" "text" worker in
    let request = build_request ReviewKind.architecture_review "api" "text" "auto" in
    Reviewed ReviewKind.architecture_review "api"
      (is_served
        (manager_complete os request
          (kind_capability ReviewKind.architecture_review)
          none
          worker.manager).0)
      worker
      w'
      answer
run_review_exact_example =
    run_review_exact os json ReviewKind.architecture_review "api" "text" worker

composed_reviews_unserved_example :
    let m = manager_after os default_config none [] [] in
    run_review os json ReviewKind.spec_generation "api" "text"
      (record { manager = m; store = []; bus = none })
    ≡ (
      ok (outage_result ReviewKind.spec_generation "api"),
      record {
        manager = exhausted (kind_capability ReviewKind.spec_generation) m;
        store = save_review (outage_result ReviewKind.spec_generation "api") [];
        bus = none;
      },
    )
unfolding kind_capability
composed_reviews_unserved_example =
    composed_reviews_unserved os json default_config none [] [] ReviewKind.spec_generation "api"
      "text" [] refl

-- The vendor rests at the first reading of the clock, and serves from the second on.
abbrev resting : ArchitectWorker
resting = record worker {
  manager = record {
    registry =
        (
          "claude",
          record claude {
            health = record new_health { status = ProviderStatus.offline; cooldown_until = some 1 };
          },
        )
        ∷ [];
    bus = some [];
    store = [];
    readings = start;
  };
}

abbrev low : ReviewResult
low = record {
  kind = ReviewKind.architecture_review;
  target = "api";
  provider = "claude";
  score = 40;
  summary = "";
  findings = [];
  sections = [];
  drift_detected = false;
  degraded = false;
}

outage_hides_drift_example :
    let w' = (run_review os json ReviewKind.architecture_review "api" "text" resting).1 in
    (latest_score "api" ReviewKind.architecture_review w'.store ≡ some 0)
    × (low.drift_detected ≡ false)
unfolding run_review manager_complete kind_capability candidates screen for_capability passes
    is_available give_up after_asking asked has_budget after_loop try_each attempt_provider complete
    settle invoke
outage_hides_drift_example =
    outage_hides_drift os json ReviewKind.architecture_review "api" "text" "later" resting low refl
      refl
