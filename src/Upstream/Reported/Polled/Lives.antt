-- ===== src/Upstream/Reported/Polled/Lives.antt =====
-- src/openai.rs and src/anthropic.rs: the statistics of a request whose response is a stream, from
-- the guard that goes into the stream to the drop of the stream.
use inf_splitter.Prelude.{
  Bool, Bool-cases, List, Option, [], ap, arith, false, inl, inr, refl, some, subst, suc, sym, zero,
  ℕ, ◌++◌, ◌||◌, ◌∙◌, ◌≡◌, ◌⊎◌,
}
use inf_splitter.Prelude.Text.{Text_eq, Text}
use inf_splitter.Diagnostics.{Diagnostics, StatsEvent, new_request_id}
use inf_splitter.Upstream.Streamed.{
  ReverseTranslator, Source, Streaming, is_end, poll_anthropic, poll_openai, poll_times,
}
use inf_splitter.Diagnostics.Guard.Steps.{guard_life, guard_steps}
use inf_splitter.Diagnostics.Guard.{State, drop_guard, dropped_without_finish, new_guard}
use inf_splitter.Diagnostics.Masking.{Codec}
use inf_splitter.Diagnostics.Guard.Once.{IsRecorded, Outcome, first_ending, outcome_or_dropped}
use inf_splitter.Upstream.Reported.{Quiet, first_ending-append, guard_steps-append}
use inf_splitter.Upstream.Reported.Polled.{Reached, Reached-weaken, poll_openai-Reached}
use inf_splitter.Config.Route.{or}
use inf_splitter.Diagnostics.Guard.Once.Life.{guard_life-IsRecorded}
use inf_splitter.Upstream.Reported.Polled.Reversed.{StreamReached, poll_anthropic-Reached}
use inf_splitter.Upstream.Events.{StreamingTranslator}

-- what is recorded of a stream that was dropped, by whether the client has seen its end
pub record StreamRecorded (d : Diagnostics) (section model : Text) (seen : Bool)
    (sent : List (Option Text × StatsEvent)) : Type 0 where
  pub outcome : Outcome
  pub recorded : IsRecorded d (new_request_id d).0 section model outcome sent
  pub is_200 : (outcome.0 ≡ 200) ⊎ ((seen ≡ false) × (outcome ≡ (0, some dropped_without_finish)))

ended-200 :
    {seen : Bool} (o : Option Outcome)
    → (e : Option Text) × (o ≡ some (200, e))
    → ((outcome_or_dropped o).0 ≡ 200)
      ⊎ ((seen ≡ false) × (outcome_or_dropped o ≡ (0, some dropped_without_finish)))
ended-200 o (e, ended) = inl (ap (λ x. (outcome_or_dropped x).0) ended)

Reached-StreamRecorded :
    (codec : Codec) (d : Diagnostics) (section model : Text) (seen : Bool) (s0 s : State)
    (duration_ms : ℕ) (ts : Text)
    → Quiet codec (new_guard d section model) s0
    → Reached codec s0 s seen
    → StreamRecorded d section model seen (drop_guard duration_ms ts s).stats_sent
unfolding guard_life
Reached-StreamRecorded codec d section model seen s0 s duration_ms ts q v =
    let steps = q.steps ++ v.steps in
    let same : first_ending steps ≡ first_ending v.steps =
      first_ending-append q.steps v.steps ∙ ap (λ o. or o (first_ending v.steps)) q.unended in
    let runs : guard_steps codec steps (new_guard d section model) ≡ s =
      guard_steps-append codec q.steps v.steps (new_guard d section model)
      ∙ ap (guard_steps codec v.steps) q.runs
      ∙ v.runs in
    record {
      outcome = outcome_or_dropped (first_ending v.steps);
      recorded =
          subst
            (λ x.
              IsRecorded d (new_request_id d).0 section model
                (outcome_or_dropped (first_ending v.steps))
                (drop_guard duration_ms ts x).stats_sent)
            runs
            (subst
              (λ o.
                IsRecorded d (new_request_id d).0 section model (outcome_or_dropped o)
                  (guard_life codec d section model steps duration_ms ts).stats_sent)
              same (guard_life-IsRecorded codec d section model steps duration_ms ts));
      is_200 = elim (Bool-cases seen) [
        | inl saw ↦ ended-200 (first_ending v.steps) (v.ends saw)
        | inr not_seen ↦ elim v.outcome [
          | inl unended ↦ inr (not_seen, ap outcome_or_dropped unended)
          | inr ended ↦ ended-200 (first_ending v.steps) ended
        ]
      ];
    }

module _ (source : Source) (d : Diagnostics) (section model : Text) (s0 : State)
    (opened : Quiet source.codec (new_guard d section model) s0) where
  start-Reached : Reached source.codec s0 s0 false
  unfolding guard_steps
  start-Reached = record { steps = []; runs = refl; outcome = inl refl; ends = λ e. absurd (cc e) }

  module _ {T : Type 0} (lib : StreamingTranslator T) where
    polls_openai :
        (n : ℕ) (st : Streaming T) (b : Bool)
        → Reached source.codec s0 st.guard b
        → let (seen, st') = poll_times (poll_openai source lib) n st in
          Reached source.codec s0 st'.guard (b || seen)
    unfolding poll_times
    polls_openai zero st b v =
        Reached-weaken source.codec s0 st.guard b _ (λ e. ground (arith, e)) v
    polls_openai (suc n) st b v =
        let (item, st1) = poll_openai source lib st in
        let (seen, st2) = poll_times (poll_openai source lib) n st1 in
        Reached-weaken source.codec s0 st2.guard ((b || is_end item) || seen) _
          (λ e. ground (arith, e)) (polls_openai n st1 _ (poll_openai-Reached source s0 lib st b v))

    -- A request to an OpenAI upstream whose response is a translated stream: whatever the upstream sends and however often the client polls before the stream is dropped, exactly one event is handed to record_stats, about this request; its status is 200, unless the stream was dropped before the client saw an end, where it can be the event of a dropped guard.
    pub poll_openai-Recorded :
        (n : ℕ) (st : Streaming T) (duration_ms : ℕ) (ts : Text)
        → st.guard ≡ s0
        → let (seen, st') = poll_times (poll_openai source lib) n st in
          StreamRecorded d section model seen (drop_guard duration_ms ts st'.guard).stats_sent
    poll_openai-Recorded n st duration_ms ts starts =
        Reached-StreamRecorded source.codec d section model _ s0 _ duration_ms ts opened (
          polls_openai n st false
            (subst (λ s. Reached source.codec s0 s false) (sym starts) start-Reached))

  module _ {T E : Type 0} (lib : ReverseTranslator T E) (name : Text) where
    polls_anthropic :
        (n : ℕ) (st : Streaming (Option T)) (b : Bool)
        → StreamReached source s0 st b
        → let (seen, st') = poll_times (poll_anthropic source lib name) n st in
          Reached source.codec s0 st'.guard (b || seen)
    unfolding poll_times
    polls_anthropic zero st b v =
        Reached-weaken source.codec s0 st.guard b _ (λ e. ground (arith, e)) v.reached
    polls_anthropic (suc n) st b v =
        let (item, st1) = poll_anthropic source lib name st in
        let (seen, st2) = poll_times (poll_anthropic source lib name) n st1 in
        Reached-weaken source.codec s0 st2.guard ((b || is_end item) || seen) _
          (λ e. ground (arith, e))
          (polls_anthropic n st1 _ (poll_anthropic-Reached source s0 lib name st b v))

    -- The same of a request to an Anthropic upstream whose response is a translated stream, from a stream that has neither sent its last line nor finalized its guard.
    pub poll_anthropic-Recorded :
        (n : ℕ) (st : Streaming (Option T)) (duration_ms : ℕ) (ts : Text)
        → st.guard ≡ s0
        → st.sent_done ≡ false
        → st.guard_finalized ≡ false
        → let (seen, st') = poll_times (poll_anthropic source lib name) n st in
          StreamRecorded d section model seen (drop_guard duration_ms ts st'.guard).stats_sent
    poll_anthropic-Recorded n st duration_ms ts starts unsent open_guard =
        Reached-StreamRecorded source.codec d section model _ s0 _ duration_ms ts opened (
          polls_anthropic n st false (record {
            reached = subst (λ s. Reached source.codec s0 s false) (sym starts) start-Reached;
            flagged = λ e. absurd (ground (arith, e, unsent, open_guard));
          }))
