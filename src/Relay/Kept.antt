-- ===== src/Relay/Kept.antt =====
-- src/relay.rs: the bytes that are kept of a stream, and how many dumps are made of it.
use inf_splitter.Prelude.{
  Bool, Bool-cases, List, [], ap, append-nil, append_assoc, arith, false, if◌then◌else◌, inl, inr,
  length, ltb, min, not, refl, subst, suc, sym, take, true, zero, ℕ, ◌++◌, ◌-◌, ◌||◌, ◌∙◌, ◌∷◌, ◌≡◌,
}
use inf_splitter.Prelude.Text.{Text_eq, Text}
use inf_splitter.Relay.{
  DiagnosticStream, Poll, chunk, drop_stream, failure, finished, is_nil, keep_bytes,
  max_streaming_dump_bytes, not_ready, poll_all, poll_next, response_event,
}
use inf_splitter.Diagnostics.Masking.{Codec}
use inf_splitter.Diagnostics.{Diagnostics, dump_enabled, record_dump}

min-suc : (a b : ℕ) → min (suc a) (suc b) ≡ suc (min a b)
min-suc a b = omega arith

min-zero : (a : ℕ) → min a 0 ≡ 0
min-zero a = omega arith

take-min : (k : ℕ) (c : List ℕ) → take (min (length c) k) c ≡ take k c
take-min zero c = ap (λ n. take n c) (min-zero (length c))
take-min (suc k) [] = ap (λ n. take n []) (min-nil (suc k)) ∙ refl
  where
    min-nil : (b : ℕ) → min 0 b ≡ 0
    min-nil b = omega arith
take-min (suc k) (x ∷ c) =
    ap (λ n. take n (x ∷ c)) (min-suc (length c) k) ∙ ap (λ r. x ∷ r) (take-min k c)

take-grow :
    (n : ℕ) (bs c : List ℕ)
    → take n (bs ++ c) ≡ (
        if ltb (length (take n bs)) n
        then take n bs ++ take (n - length (take n bs)) c
        else take n bs)
take-grow zero bs c = ground arith
take-grow (suc n) [] c = ground arith
take-grow (suc n) (x ∷ bs) c = ground (arith, take-grow n bs c)

-- all bytes of the chunks up to the end of the stream
abbrev pub streamed : List Poll → List ℕ
streamed [] = []
streamed (chunk bytes ∷ polls) = bytes ++ streamed polls
streamed (failure ∷ polls) = streamed polls
streamed (not_ready ∷ polls) = streamed polls
streamed (finished ∷ polls) = []

-- the stream has ended
abbrev pub ended : List Poll → Bool
ended [] = false
ended (finished ∷ polls) = true
ended (_ ∷ polls) = ended polls

-- what is kept of the bytes seen so far
abbrev pub kept : Bool → List ℕ → List ℕ
kept enabled seen = if enabled then take max_streaming_dump_bytes seen else []

keep_bytes-kept :
    (enabled : Bool) (seen bytes : List ℕ)
    → keep_bytes enabled (kept enabled seen) bytes ≡ kept enabled (seen ++ bytes)
unfolding keep_bytes
keep_bytes-kept false seen bytes = refl
keep_bytes-kept true seen bytes =
    elim (Bool-cases (ltb (length (take max_streaming_dump_bytes seen)) max_streaming_dump_bytes)) [
      | inl room ↦
          rw (room, keep_bytes)
            (ap (λ r. take max_streaming_dump_bytes seen ++ r)
                (take-min (max_streaming_dump_bytes - length (take max_streaming_dump_bytes seen))
                  bytes)
              ∙ sym (take-grow max_streaming_dump_bytes seen bytes ∙ (rw room refl)))
      | inr full ↦
          rw (full, keep_bytes)
            (sym (take-grow max_streaming_dump_bytes seen bytes ∙ (rw full refl)))
    ]

module _ (codec : Codec) (ts : Text) where
  -- nothing more is recorded of a stream that is dumped
  dumped-once :
      (polls : List Poll) (s : DiagnosticStream) (d : Diagnostics)
      → s.dumped ≡ true
      → drop_stream codec ts (poll_all codec ts polls (s, d)) ≡ d
  unfolding poll_all poll_next drop_stream
  dumped-once [] s d done = rw (done, drop_stream) refl
  dumped-once (chunk bytes ∷ polls) s d done =
      dumped-once polls (record s { buffer = keep_bytes (dump_enabled d) s.buffer bytes }) d done
  dumped-once (failure ∷ polls) s d done = dumped-once polls s d done
  dumped-once (not_ready ∷ polls) s d done = dumped-once polls s d done
  dumped-once (finished ∷ polls) s d done =
      subst
        (λ b.
          drop_stream codec ts (
            poll_all codec ts polls (
              if b then (s, d) else (
                record s { dumped = true; response_headers = [] },
                record_dump (response_event codec s s.buffer s.response_headers ts) false d,
              )))
          ≡ d)
        (sym done) (dumped-once polls s d done)

  -- one dump of the bytes, or none
  abbrev pub one_dump : DiagnosticStream → Diagnostics → Bool → List ℕ → Diagnostics
  one_dump s d there buffer =
      if there || not (is_nil buffer)
      then record_dump (response_event codec s buffer s.response_headers ts) false d
      else d

  at_end :
      (s : DiagnosticStream) (d : Diagnostics) (b : List ℕ)
      → s.dumped ≡ false
      → (dump_enabled d ≡ false → b ≡ [])
      → drop_stream codec ts (record s { buffer = b }, d) ≡ one_dump s d false b
  unfolding drop_stream
  at_end s d [] fresh off = elim (Bool-cases (dump_enabled d)) [
    | inl enabled ↦ rw (fresh, enabled, drop_stream) refl
    | inr disabled ↦ rw (fresh, disabled, drop_stream) refl
  ]
  at_end s d (c ∷ b) fresh off = elim (Bool-cases (dump_enabled d)) [
    | inl enabled ↦ rw (fresh, enabled, drop_stream) refl
    | inr disabled ↦ absurd (cc (off disabled))
  ]

  streamed-dump :
      (s : DiagnosticStream) (d : Diagnostics) (polls : List Poll) (seen : List ℕ)
      → s.dumped ≡ false
      → drop_stream codec ts
          (poll_all codec ts polls (record s { buffer = kept (dump_enabled d) seen }, d))
        ≡ one_dump s d (ended polls) (kept (dump_enabled d) (seen ++ streamed polls))
  unfolding poll_all poll_next drop_stream
  streamed-dump s d [] seen fresh =
      at_end s d (kept (dump_enabled d) seen) fresh (λ off. ap (λ b. kept b seen) off)
      ∙ ap (λ r. one_dump s d false (kept (dump_enabled d) r)) (sym (append-nil seen))
  streamed-dump s d (chunk bytes ∷ polls) seen fresh =
      ap (λ b. drop_stream codec ts (poll_all codec ts polls (record s { buffer = b }, d)))
        (keep_bytes-kept (dump_enabled d) seen bytes)
      ∙ streamed-dump s d polls (seen ++ bytes) fresh
      ∙ ap (λ r. one_dump s d (ended polls) (kept (dump_enabled d) r))
          (append_assoc seen bytes (streamed polls))
  streamed-dump s d (failure ∷ polls) seen fresh = streamed-dump s d polls seen fresh
  streamed-dump s d (not_ready ∷ polls) seen fresh = streamed-dump s d polls seen fresh
  streamed-dump s d (finished ∷ polls) seen fresh =
      subst
        (λ b.
          drop_stream codec ts (
            poll_all codec ts polls (
              if b then (record s { buffer = kept (dump_enabled d) seen }, d) else (
                record s {
                  buffer = kept (dump_enabled d) seen;
                  dumped = true;
                  response_headers = [];
                },
                record_dump
                    (response_event codec s (kept (dump_enabled d) seen) s.response_headers ts)
                    false d,
              )))
          ≡ record_dump (response_event codec s (kept (dump_enabled d) seen) s.response_headers ts)
              false d)
        (sym fresh) (dumped-once polls _ _ refl)
      ∙ ap (λ r. one_dump s d true (kept (dump_enabled d) r)) (sym (append-nil seen))

-- Of a stream that is polled in any way and then dropped, record_dump is called exactly once, as for a response without an error, if the stream has ended or some of its bytes were kept, and never else, however often it is polled after its end: the event has the first mebibyte of the bytes streamed before the end, or none of them where dumps are off, and the masked headers of the response.
pub drop_stream-dump :
    (codec : Codec) (ts : Text) (s : DiagnosticStream) (d : Diagnostics) (polls : List Poll)
    → s.dumped ≡ false
    → s.buffer ≡ []
    → drop_stream codec ts (poll_all codec ts polls (s, d))
      ≡ one_dump codec ts s d (ended polls) (kept (dump_enabled d) (streamed polls))
drop_stream-dump codec ts s d polls fresh nothing =
    ap (λ b. drop_stream codec ts (poll_all codec ts polls (record s { buffer = b }, d)))
      (nothing ∙ sym (none_kept (dump_enabled d)))
    ∙ streamed-dump codec ts s d polls [] fresh
  where
    none_kept : (enabled : Bool) → kept enabled [] ≡ []
    none_kept true = refl
    none_kept false = refl
