-- ===== src/Upstream/Reported/Polled.antt =====
-- src/openai.rs and src/anthropic.rs: the guard of a request whose response is a stream, over the
-- polls of the client.
pub mod Reversed
pub mod Lives
use inf_splitter.Prelude.{
  Bool, Bool-cases, List, Option, Option-cases, [], ap, arith, inl, inr, length, none, refl, some,
  subst, suc, sym, true, zero, ℕ, ◌++◌, ◌||◌, ◌∙◌, ◌∷◌, ◌≡◌, ◌⊎◌,
}
use inf_splitter.Prelude.Text.{Text_eq, Text}
use inf_splitter.Diagnostics.Guard.Once.{Outcome, ending_of, first_ending}
use inf_splitter.Diagnostics.Guard.Steps.{
  GuardStep, dumps_response, fails, finishes, guard_step, guard_steps,
}
use inf_splitter.Upstream.Streamed.{
  Chunk, Item, Source, Streaming, await_chunk, broken, end_stream, fail_stream, finish_stream,
  is_end, payload, poll_openai, receive, received, stream_ending, take_buffer, take_lines, too_long,
}
use inf_splitter.Diagnostics.Masking.{Codec, dump_body_from_bytes}
use inf_splitter.Diagnostics.Guard.{State}
use inf_splitter.Config.Route.{or}
use inf_splitter.Prelude.Bytes.{chars}
use inf_splitter.Upstream.Events.{
  StreamingTranslator, parse_sse_line, split_newline, without_returns,
}
use inf_splitter.Upstream.Reported.{first_ending-append, guard_steps-append}

-- not ended, or ended with the status 200
abbrev pub Is200 : Option Outcome → Type 0
Is200 o = (o ≡ none) ⊎ ((e : Option Text) × (o ≡ some (200, e)))

-- what was done to a guard, and whether that must have ended it
pub record Reached (codec : Codec) (s0 s : State) (ended : Bool) : Type 0 where
  pub steps : List GuardStep
  pub runs : guard_steps codec steps s0 ≡ s
  pub outcome : Is200 (first_ending steps)
  pub ends : ended ≡ true → (e : Option Text) × (first_ending steps ≡ some (200, e))

or-ended :
    (o : Option Outcome) (e : Option Text)
    → Is200 o
    → (e' : Option Text) × (or o (some (200, e)) ≡ some (200, e'))
or-ended o e (inl unended) = (e, ap (λ x. or x (some (200, e))) unended)
or-ended o e (inr (e', ended)) = (e', ap (λ x. or x (some (200, e))) ended)

Reached-end :
    (codec : Codec) (s0 s s' : State) (b c : Bool) (noting ending' : GuardStep) (e : Option Text)
    → ending_of noting ≡ none
    → ending_of ending' ≡ some (200, e)
    → guard_step codec ending' (guard_step codec noting s) ≡ s'
    → Reached codec s0 s b
    → Reached codec s0 s' c
unfolding guard_steps
Reached-end codec s0 s s' b c noting ending' e quiet ends runs v =
    let last = noting ∷ ending' ∷ [] in
    let (e', ended) = or-ended (first_ending v.steps) e v.outcome in
    let all' : first_ending (v.steps ++ last) ≡ some (200, e') =
      first_ending-append v.steps last
      ∙ ap (or (first_ending v.steps))
          (ap (λ o. or o (first_ending (ending' ∷ []))) quiet ∙ ap (λ o. or o none) ends)
      ∙ ended in
    record {
      steps = v.steps ++ last;
      runs =
          guard_steps-append codec v.steps last s0
          ∙ ap (λ x. guard_step codec ending' (guard_step codec noting x)) v.runs
          ∙ runs;
      outcome = inr (e', all');
      ends = λ _. (e', all');
    }

pub Reached-weaken :
    (codec : Codec) (s0 s : State) (b c : Bool)
    → (c ≡ true → b ≡ true)
    → Reached codec s0 s b
    → Reached codec s0 s c
Reached-weaken codec s0 s b c implies v = record {
  steps = v.steps;
  runs = v.runs;
  outcome = v.outcome;
  ends = λ e. v.ends (implies e);
}

module _ (source : Source) (s0 : State) where
  pub finish_stream-Reached :
      (raw : List ℕ) (s : State) (b c : Bool)
      → Reached source.codec s0 s b
      → Reached source.codec s0 (finish_stream source raw s) c
  unfolding finish_stream guard_step
  finish_stream-Reached raw s b c v =
      Reached-end source.codec s0 s _ b c
        (dumps_response (dump_body_from_bytes source.codec raw) 200 source.upstream_headers
          source.clock.at_response)
        (finishes (stream_ending source raw)) none refl refl refl v

  pub fail_stream-Reached :
      (raw : List ℕ) (error : Text) (s : State) (b c : Bool)
      → Reached source.codec s0 s b
      → Reached source.codec s0 (fail_stream source raw error s) c
  unfolding fail_stream guard_step
  fail_stream-Reached raw error s b c v =
      Reached-end source.codec s0 s _ b c
        (dumps_response (dump_body_from_bytes source.codec raw) 200 source.upstream_headers
          source.clock.at_response)
        (fails (stream_ending source raw) (chars "stream error: " ++ error))
        (some (chars "stream error: " ++ error)) refl refl refl v

  module _ {T : Type 0} (lib : StreamingTranslator T) where
    take_lines-guard :
        (fuel : ℕ) (st : Streaming T) → (take_lines source lib fuel st).1.guard ≡ st.guard
    unfolding take_lines
    take_lines-guard zero st = refl
    take_lines-guard (suc fuel) st = elim (Option-cases (split_newline st.buffer)) [
      | inl no_line ↦ rw (no_line, take_lines) refl
      | inr ((line, after), there) ↦
          elim (Option-cases (parse_sse_line lib (without_returns line) st.translator)) [
            | inl no_events ↦
                rw (there, no_events, take_lines)
                  (take_lines-guard fuel (record st { buffer = after }))
            | inr ((events, translator), parsed) ↦ rw (there, parsed, take_lines) refl
          ]
    ]

    take_buffer-Reached :
        (st : Streaming T) (b : Bool)
        → Reached source.codec s0 st.guard b
        → Reached source.codec s0 (take_buffer source lib st).1.guard b
    unfolding take_buffer
    take_buffer-Reached st b v =
        subst (λ s. Reached source.codec s0 s b) (sym (take_lines-guard (length st.buffer) st)) v

    -- a text that was found is given, and else the stream goes on
    found-Reached :
        (found : Option Text) (st : Streaming T) (next : Option Item × Streaming T) (b : Bool)
        → Reached source.codec s0 st.guard b
        → Reached source.codec s0 next.1.guard (b || is_end next.0)
        → let (item, st') : Option Item × Streaming T = elim found [
          | some text ↦ (some (payload text), st)
          | none ↦ next
        ] in
          Reached source.codec s0 st'.guard (b || is_end item)
    found-Reached none st next b v after = after
    found-Reached (some text) st next b v after =
        Reached-weaken source.codec s0 st.guard b _ (λ e. ground (arith, e)) v

    await_chunk-Reached :
        (chunks : List Chunk) (st : Streaming T) (b : Bool)
        → Reached source.codec s0 st.guard b
        → let (item, st') = await_chunk source lib chunks st in
          Reached source.codec s0 st'.guard (b || is_end item)
    unfolding await_chunk end_stream take_buffer receive
    await_chunk-Reached [] st b v = finish_stream-Reached st.raw_capture st.guard b _ v
    await_chunk-Reached (broken error ∷ chunks) st b v =
        fail_stream-Reached st.raw_capture error st.guard b _ v
    await_chunk-Reached (received bytes ∷ chunks) st b v =
        let st1 = receive source bytes (record st { chunks = chunks }) in
        elim (Bool-cases (too_long source st1)) [
          | inl long ↦ rw (long, await_chunk) (finish_stream-Reached st1.raw_capture st.guard b _ v)
          | inr fits ↦
              rw (fits, await_chunk)
                (found-Reached (take_buffer source lib st1).0 (take_buffer source lib st1).1 _ b
                  (take_buffer-Reached st1 b v)
                  (await_chunk-Reached chunks _ b (take_buffer-Reached st1 b v)))
        ]

    pub poll_openai-Reached :
        (st : Streaming T) (b : Bool)
        → Reached source.codec s0 st.guard b
        → let (item, st') = poll_openai source lib st in
          Reached source.codec s0 st'.guard (b || is_end item)
    unfolding poll_openai
    poll_openai-Reached st b v =
        found-Reached (take_buffer source lib st).0 (take_buffer source lib st).1 _ b
          (take_buffer-Reached st b v)
          (await_chunk-Reached st.chunks _ b (take_buffer-Reached st b v))
