-- ===== src/Upstream/Reported/Polled/Reversed.antt =====
-- src/anthropic.rs: the guard of a request whose response is translated from an Anthropic stream.
use inf_splitter.Prelude.{
  Bool, Bool-cases, List, Option, Option-cases, [], arith, false, if◌then◌else◌, inl, inr, length,
  none, refl, some, subst, suc, sym, true, zero, ℕ, ◌||◌, ◌∙◌, ◌∷◌, ◌≡◌,
}
use inf_splitter.Prelude.Text.{Text_eq, Text}
use inf_splitter.Upstream.Streamed.{
  Chunk, Item, ReverseTranslator, Source, Streaming, Turn, active_event, await_event, broken,
  completed, emitted, exhausted, finalize, is_end, poll_anthropic, receive, received, send_done,
  take_event, take_events, too_long,
}
use inf_splitter.Diagnostics.Guard.{State}
use inf_splitter.Upstream.Reported.Polled.{
  Reached, Reached-weaken, fail_stream-Reached, finish_stream-Reached,
}
use inf_splitter.Upstream.Events.{parse_anthropic_sse_event, split_newline, without_returns}

-- a flag of the stream is set only if the guard has ended
pub record StreamReached {T : Type 0} (source : Source) (s0 : State) (st : Streaming T)
    (ended : Bool) : Type 0 where
  pub reached : Reached source.codec s0 st.guard ended
  pub flagged : st.sent_done || st.guard_finalized ≡ true → Reached source.codec s0 st.guard true

-- the rounds over lines change none of these
record SameGuard {T : Type 0} (a b : Streaming T) : Type 0 where
  guard : b.guard ≡ a.guard
  sent_done : b.sent_done ≡ a.sent_done
  guard_finalized : b.guard_finalized ≡ a.guard_finalized

same : {T : Type 0} (st : Streaming T) → SameGuard st st
same st = record { guard = refl; sent_done = refl; guard_finalized = refl }

same-then : {T : Type 0} (a b c : Streaming T) → SameGuard a b → SameGuard b c → SameGuard a c
same-then a b c v w = record {
  guard = w.guard ∙ v.guard;
  sent_done = w.sent_done ∙ v.sent_done;
  guard_finalized = w.guard_finalized ∙ v.guard_finalized;
}

turned-same :
    {T : Type 0} (turn : Turn) (st st1 : Streaming T) (next : Turn × Streaming T)
    → SameGuard st st1
    → SameGuard st1 next.1
    → let (_, st2) : Turn × Streaming T = elim turn [
      | exhausted ↦ next
      | completed ↦ (completed, st1)
      | emitted text ↦ (emitted text, st1)
    ] in
      SameGuard st st2
turned-same exhausted st st1 next v w = same-then st st1 next.1 v w
turned-same completed st st1 next v w = v
turned-same (emitted text) st st1 next v w = v

StreamReached-same :
    {T : Type 0} (source : Source) (s0 : State) (a b : Streaming T) (ended : Bool)
    → SameGuard a b
    → StreamReached source s0 a ended
    → StreamReached source s0 b ended
StreamReached-same source s0 a b ended e v = record {
  reached = subst (λ s. Reached source.codec s0 s ended) (sym e.guard) v.reached;
  flagged = λ f.
      subst (λ s. Reached source.codec s0 s true) (sym e.guard)
        (v.flagged (ground (arith, f, e.sent_done, e.guard_finalized)));
}

module _ (source : Source) (s0 : State) {T E : Type 0} (lib : ReverseTranslator T E)
    (model : Text) where
  active_event-same :
      (event : E) (active : T) (st : Streaming (Option T))
      → SameGuard st (active_event source lib model event active st).1
  unfolding active_event
  active_event-same event active st =
      let (answer, active') = lib.process_event active event in
      let written : SameGuard st (record st { translator = some active' }) = record {
        guard = refl;
        sent_done = refl;
        guard_finalized = refl;
      } in
      elim (Option-cases (lib.process_event active event).0) [
        | inr (json, there) ↦ rw (there, active_event) written
        | inl without ↦ elim (Bool-cases (lib.is_done active')) [
          | inl over ↦ rw (without, over, active_event) written
          | inr goes_on ↦ rw (without, goes_on, active_event) written
        ]
      ]

  take_event-same :
      (line : Text) (st : Streaming (Option T))
      → SameGuard st (take_event source lib model line st).1
  unfolding take_event
  take_event-same line st = elim (Option-cases (parse_anthropic_sse_event lib.from_str line)) [
    | inl no_event ↦ rw (no_event, take_event) (same st)
    | inr (event, parsed) ↦ elim (Option-cases (lib.started event)) [
      | inr (id, starts) ↦
          rw (parsed, starts, take_event)
            (record { guard = refl; sent_done = refl; guard_finalized = refl })
      | inl goes_on ↦ elim (Option-cases st.translator) [
        | inl idle ↦
            rw (parsed, goes_on, idle, take_event)
              (record { guard = refl; sent_done = refl; guard_finalized = refl })
        | inr (active, there) ↦
            let v = active_event-same event active st in
            rw (parsed, goes_on, there, take_event)
              (record {
                guard = v.guard;
                sent_done = v.sent_done;
                guard_finalized = v.guard_finalized;
              })
      ]
    ]
  ]

  take_events-same :
      (fuel : ℕ) (st : Streaming (Option T)) → SameGuard st (take_events source lib model fuel st).1
  unfolding take_events
  take_events-same zero st = same st
  take_events-same (suc fuel) st = elim (Option-cases (split_newline st.buffer)) [
    | inl no_line ↦ rw (no_line, take_events) (same st)
    | inr ((line, after), there) ↦
        let found =
          take_event source lib model (without_returns line) (record st { buffer = after }) in
        let v = take_event-same (without_returns line) (record st { buffer = after }) in
        rw (there, take_events)
          (turned-same found.0 st found.1 _
            (record {
              guard = v.guard;
              sent_done = v.sent_done;
              guard_finalized = v.guard_finalized;
            })
            (take_events-same fuel found.1))
  ]

  any_of : {s : State} (c : Bool) → Reached source.codec s0 s true → Reached source.codec s0 s c
  any_of {s} c v = Reached-weaken source.codec s0 s true c (λ _. refl) v

  finalize-Reached :
      (st : Streaming (Option T)) (b c : Bool)
      → StreamReached source s0 st b
      → Reached source.codec s0 (finalize source lib model st).guard c
  unfolding finalize
  finalize-Reached st b c v = elim (Bool-cases st.guard_finalized) [
    | inl done ↦ rw (done, finalize) (any_of c (v.flagged (ground (arith, done))))
    | inr not_yet ↦
        rw (not_yet, finalize)
          (finish_stream-Reached source s0 st.raw_capture st.guard b c v.reached)
  ]

  send_done-Reached :
      (st : Streaming (Option T)) (b c : Bool)
      → StreamReached source s0 st b
      → StreamReached source s0 (send_done source lib model st).1 c
  send_done-Reached st b c v = record {
    reached = finalize-Reached st b c v;
    flagged = λ _. finalize-Reached st b true v;
  }

  -- the guard is ended where it was not
  ended-Reached :
      (st : Streaming (Option T)) (s : State) (b c : Bool)
      → StreamReached source s0 st b
      → Reached source.codec s0 s c
      → Reached source.codec s0 (if st.guard_finalized then st.guard else s) c
  ended-Reached st s b c v w = elim (Bool-cases st.guard_finalized) [
    | inl done ↦ rw done (any_of c (v.flagged (ground (arith, done))))
    | inr not_yet ↦ rw not_yet w
  ]

  await_event-Reached :
      (chunks : List Chunk) (turn : Turn) (st : Streaming (Option T)) (b : Bool)
      → StreamReached source s0 st b
      → let (item, st') = await_event source lib model chunks (turn, st) in
        StreamReached source s0 st' (b || is_end item)
  unfolding await_event receive
  await_event-Reached chunks (emitted text) st b v = record {
    reached = Reached-weaken source.codec s0 st.guard b _ (λ e. ground (arith, e)) v.reached;
    flagged = v.flagged;
  }
  await_event-Reached chunks completed st b v =
      send_done-Reached (record st { chunks = chunks }) b _
        (record { reached = v.reached; flagged = v.flagged })
  await_event-Reached [] exhausted st b v =
      send_done-Reached (record st { chunks = [] }) b _
        (record { reached = v.reached; flagged = v.flagged })
  await_event-Reached (broken error ∷ chunks) exhausted st b v =
      let ends = λ (c : Bool).
        ended-Reached st _ b c v
          (fail_stream-Reached source s0 st.raw_capture error st.guard b c v.reached) in
      record { reached = ends _; flagged = λ _. ends true }
  await_event-Reached (received bytes ∷ chunks) exhausted st b v =
      let st1 = receive source bytes (record st { chunks = chunks }) in
      let v1 : StreamReached source s0 st1 b = record {
        reached = v.reached;
        flagged = v.flagged;
      } in
      elim (Bool-cases (too_long source st1)) [
        | inl long ↦
            let ends = λ (c : Bool).
              ended-Reached st1 _ b c v1
                (finish_stream-Reached source s0 st1.raw_capture st.guard b c v.reached) in
            rw (long, await_event) (record { reached = ends _; flagged = λ _. ends true })
        | inr fits ↦
            let (turn, st2) = take_events source lib model (length st1.buffer) st1 in
            rw (fits, await_event)
              (await_event-Reached chunks turn st2 b (
                StreamReached-same source s0 st1 st2 b (take_events-same (length st1.buffer) st1)
                  v1))
      ]

  polled-Reached :
      (sent : Bool) (x y : Option Item × Streaming (Option T)) (b : Bool)
      → (sent ≡ true → StreamReached source s0 x.1 (b || is_end x.0))
      → StreamReached source s0 y.1 (b || is_end y.0)
      → let (item, st') = if sent then x else y in StreamReached source s0 st' (b || is_end item)
  polled-Reached true x y b v w = v refl
  polled-Reached false x y b v w = w

  pub poll_anthropic-Reached :
      (st : Streaming (Option T)) (b : Bool)
      → StreamReached source s0 st b
      → let (item, st') = poll_anthropic source lib model st in
        StreamReached source s0 st' (b || is_end item)
  unfolding poll_anthropic
  poll_anthropic-Reached st b v =
      let (turn, st1) = take_events source lib model (length st.buffer) st in
      polled-Reached st.sent_done (none, st) _ b
        (λ done. record {
          reached = any_of _ (v.flagged (ground (arith, done)));
          flagged = v.flagged;
        })
        (await_event-Reached st.chunks turn st1 b
          (StreamReached-same source s0 st st1 b (take_events-same (length st.buffer) st) v))
