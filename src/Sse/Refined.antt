-- ===== src/Sse/Refined.antt =====
-- src/sse.rs: the trait `SseBuffer` as a client sees it, against `MemSseBuffer`. What is specified
-- is a history of pushes; the identifiers are not replaced here.
use inf_splitter.Prelude.{
  ℕ_eq, All, Bool-cases, List, Result, [], ap, append-nil, append_assoc, arith, err, false,
  if◌then◌else◌, inl, inr, length, ltb, nat_eq_iff, ok, refl, subst, suc, sym, zero, ℕ, ◌++◌, ◌+◌,
  ◌<◌, ◌==◌, ◌∙◌, ◌∷◌, ◌≡◌, ◌≤◌,
}
use inf_splitter.Sse.Buffer.{
  Ascending, Ascending-add_bytes, IsBuffer, bytes_of, bytes_of-above, bytes_of-add_bytes,
  total_bytes, total_bytes-add_bytes,
}
use inf_splitter.Sse.{
  MemSseBuffer, SseBufferError, add_bytes, drain, drain_pieces, len_bytes, overflow, push,
  with_limit,
}

pub data BufferRequest : Type 0 where
  appends : ℕ → List ℕ → BufferRequest
  asks_len : BufferRequest

pub data BufferReply : Type 0 where
  accepted : BufferReply
  refused : SseBufferError → BufferReply
  has_len : ℕ → BufferReply

abbrev pub History : Type 0
History = List (ℕ × List ℕ)

-- the pushes of an index, in their order
abbrev pub pushed : ℕ → History → List ℕ
pushed i [] = []
pushed i ((idx, bytes) ∷ h) = let rest = pushed i h in if idx == i then bytes ++ rest else rest

-- the index `lo` and the `n - 1` after it, one after the other
abbrev pub in_order : ℕ → ℕ → (ℕ → List ℕ) → List ℕ
in_order lo zero f = []
in_order lo (suc n) f = f lo ++ in_order (suc lo) n f

abbrev pub answer_by_history : ℕ → BufferRequest → History → BufferReply × History
answer_by_history limit (appends i bytes) h =
    if ltb limit (total_bytes h + length bytes)
    then (refused (overflow limit (total_bytes h)), h)
    else (accepted, h ++ (i, bytes) ∷ [])
answer_by_history limit asks_len h = (has_len (total_bytes h), h)

abbrev pub of_push : MemSseBuffer → Result SseBufferError MemSseBuffer → BufferReply × MemSseBuffer
of_push b (err e) = (refused e, b)
of_push b (ok b') = (accepted, b')

abbrev pub answer : BufferRequest → MemSseBuffer → BufferReply × MemSseBuffer
answer (appends i bytes) b = of_push b (push b i bytes)
answer asks_len b = (has_len (len_bytes b), b)

-- the answers to a list of requests, with what is left
abbrev pub run :
    {S : Type 0}
    → (BufferRequest → S → BufferReply × S)
    → List BufferRequest
    → S
    → List BufferReply × S
run step [] s = ([], s)
run step (r ∷ rs) s =
    let (reply, s1) = step r s in let (replies, s2) = run step rs s1 in (reply ∷ replies, s2)

abbrev pub BelowIndex : ℕ → BufferRequest → Type 0
BelowIndex n (appends i _) = i < n
BelowIndex n asks_len = Unit

record IsRefined (limit n : ℕ) (b : MemSseBuffer) (h : History) : Type 0 where
  is_buffer : IsBuffer b
  same_limit : b.limit_bytes ≡ limit
  same_len : b.current_bytes ≡ total_bytes h
  same_bytes : (i : ℕ) → bytes_of i b.pieces ≡ pushed i h
  below : All (λ (p : ℕ × List ℕ). p.0 < n) b.pieces

total_bytes-append :
    (h : History) (i : ℕ) (bytes : List ℕ)
    → total_bytes (h ++ (i, bytes) ∷ []) ≡ total_bytes h + length bytes
total_bytes-append [] i bytes = omega arith
total_bytes-append ((_, b) ∷ h) i bytes = omega (arith, total_bytes-append h i bytes)

pushed-append :
    (h : History) (i j : ℕ) (bytes : List ℕ)
    → pushed j (h ++ (i, bytes) ∷ []) ≡ pushed j h ++ (if i == j then bytes else [])
pushed-append [] i j bytes = ground (arith, append-nil bytes)
pushed-append ((idx, b) ∷ h) i j bytes = elim (Bool-cases (idx == j)) [
  | inl same ↦ rw same (
      ap (λ l. b ++ l) (pushed-append h i j bytes)
      ∙ sym (append_assoc b (pushed j h) (if i == j then bytes else [])))
  | inr differ ↦ rw differ (pushed-append h i j bytes)
]

in_order-same :
    (lo n : ℕ) (f g : ℕ → List ℕ)
    → ((j : ℕ) → lo ≤ j → f j ≡ g j)
    → in_order lo n f ≡ in_order lo n g
in_order-same lo zero f g e = refl
in_order-same lo (suc n) f g e =
    rw (e lo (omega arith))
      (ap (λ l. g lo ++ l) (in_order-same (suc lo) n f g (λ j le. e j (omega arith))))

in_order-nil : (lo n : ℕ) → in_order lo n (λ _. []) ≡ []
in_order-nil lo zero = refl
in_order-nil lo (suc n) = in_order-nil (suc lo) n

-- pieces in the order of their indices, drained
drain_pieces-in_order :
    (lo n end : ℕ) (pieces : List (ℕ × List ℕ))
    → lo + n ≡ end
    → Ascending lo pieces
    → All (λ (p : ℕ × List ℕ). p.0 < end) pieces
    → drain_pieces pieces ≡ in_order lo n (λ j. bytes_of j pieces)
unfolding drain_pieces
drain_pieces-in_order lo n end [] e a b = sym (in_order-nil lo n)
drain_pieces-in_order lo zero end ((idx, d) ∷ pieces) e (low, a) (high, b) = absurd (omega arith)
drain_pieces-in_order lo (suc n) end ((idx, d) ∷ pieces) e (low, a) (high, b) =
    elim (Bool-cases (idx == lo)) [
      | inl same ↦
          let at : idx ≡ lo = (nat_eq_iff idx lo).0 same in
          rw same (
            ap (λ l. d ++ l)
              (drain_pieces-in_order (suc lo) n end pieces (omega arith)
                  (subst (λ x. Ascending (suc x) pieces) at a) b
                ∙ in_order-same (suc lo) n _ _ (λ j le. ground arith)))
      | inr differ ↦
          rw (differ, bytes_of-above lo (suc idx) pieces (ground arith) a)
            (drain_pieces-in_order (suc lo) n end ((idx, d) ∷ pieces) (omega arith)
              (ground (arith, differ), a) (high, b))
    ]

BelowIndex-add_bytes :
    (i n : ℕ) (bytes : List ℕ) (pieces : List (ℕ × List ℕ))
    → i < n
    → All (λ (p : ℕ × List ℕ). p.0 < n) pieces
    → All (λ (p : ℕ × List ℕ). p.0 < n) (add_bytes i bytes pieces)
unfolding add_bytes
BelowIndex-add_bytes i n bytes [] h b = (h, tt)
BelowIndex-add_bytes i n bytes ((idx, d) ∷ pieces) h (high, b) = elim (Bool-cases (idx == i)) [
  | inl same ↦ rw (same, add_bytes) (high, b)
  | inr differ ↦ elim (Bool-cases (ltb i idx)) [
    | inl before ↦ rw (differ, before, add_bytes) (h, (high, b))
    | inr after ↦ rw (differ, after, add_bytes) (high, BelowIndex-add_bytes i n bytes pieces h b)
  ]
]

abbrev pushed_to : ℕ → List ℕ → MemSseBuffer → MemSseBuffer
pushed_to i bytes b = record b {
  pieces = add_bytes i bytes b.pieces;
  current_bytes = b.current_bytes + length bytes;
}

pair_eq : {a b c d : ℕ} → a ≡ c → b ≡ d → Path (ℕ × ℕ) (a, b) (c, d)
pair_eq e f = cc (e, f)

-- the test of a push, by the history
push-by_history :
    (limit n : ℕ) (i : ℕ) (bytes : List ℕ) (b : MemSseBuffer) (h : History)
    → IsRefined limit n b h
    → push b i bytes ≡ (
        if ltb limit (total_bytes h + length bytes)
        then err (overflow limit (total_bytes h))
        else ok (pushed_to i bytes b))
unfolding push
push-by_history limit n i bytes b h v =
    ap
      (λ (p : ℕ × ℕ).
        if ltb p.0 (p.1 + length bytes) then err (overflow p.0 p.1) else ok (pushed_to i bytes b))
      (pair_eq v.same_limit v.same_len)

pushed_to-IsRefined :
    (limit n : ℕ) (i : ℕ) (bytes : List ℕ) (b : MemSseBuffer) (h : History)
    → i < n
    → ltb limit (total_bytes h + length bytes) ≡ false
    → IsRefined limit n b h
    → IsRefined limit n (pushed_to i bytes b) (h ++ (i, bytes) ∷ [])
pushed_to-IsRefined limit n i bytes b h small fits v = record {
  is_buffer = record {
    ordered = Ascending-add_bytes i bytes 0 b.pieces (omega arith) v.is_buffer.ordered;
    counted = ground (arith, total_bytes-add_bytes i bytes b.pieces, v.is_buffer.counted);
    bounded = ground (arith, fits, v.same_limit, v.same_len);
  };
  same_limit = v.same_limit;
  same_len = ground (arith, v.same_len, total_bytes-append h i bytes);
  same_bytes = λ j.
      bytes_of-add_bytes i j 0 bytes b.pieces v.is_buffer.ordered
      ∙ ap (λ l. l ++ (if i == j then bytes else [])) (v.same_bytes j)
      ∙ sym (pushed-append h i j bytes);
  below = BelowIndex-add_bytes i n bytes b.pieces small v.below;
}

-- one request: the same answer, and the relation again
answer-IsRefined :
    (limit n : ℕ) (r : BufferRequest) (b : MemSseBuffer) (h : History)
    → BelowIndex n r
    → IsRefined limit n b h
    → ((answer r b).0 ≡ (answer_by_history limit r h).0)
      × IsRefined limit n (answer r b).1 (answer_by_history limit r h).1
unfolding len_bytes
answer-IsRefined limit n asks_len b h small v = (ap has_len v.same_len, v)
answer-IsRefined limit n (appends i bytes) b h small v =
    let e = push-by_history limit n i bytes b h v in
    subst
      (λ x.
        ((of_push b x).0 ≡ (answer_by_history limit (appends i bytes) h).0)
        × IsRefined limit n (of_push b x).1 (answer_by_history limit (appends i bytes) h).1)
      (sym e)
      (elim (Bool-cases (ltb limit (total_bytes h + length bytes))) [
        | inl over ↦ rw over (refl, v)
        | inr fits ↦ rw fits (refl, pushed_to-IsRefined limit n i bytes b h small fits v)
      ])

run-IsRefined :
    (limit n : ℕ) (rs : List BufferRequest) (b : MemSseBuffer) (h : History)
    → All (BelowIndex n) rs
    → IsRefined limit n b h
    → ((run answer rs b).0 ≡ (run (answer_by_history limit) rs h).0)
      × IsRefined limit n (run answer rs b).1 (run (answer_by_history limit) rs h).1
run-IsRefined limit n [] b h small v = (refl, v)
run-IsRefined limit n (r ∷ rs) b h (low, small) v =
    let (same, v1) = answer-IsRefined limit n r b h low v in
    let (rest, v2) = run-IsRefined limit n rs (answer r b).1 _ small v1 in
    (rw (same, rest) refl, v2)

-- A client of a new MemSseBuffer cannot tell it from the history of its pushes: whatever it pushes and asks, it gets the answers that the history gives by the total of its bytes and the limit, and the bytes that come out at the end are, for each piece index from 0 up to any bound above the indices pushed, the bytes pushed to it in the order of the pushes.
pub run-drain :
    (limit n : ℕ) (rs : List BufferRequest)
    → All (BelowIndex n) rs
    → let (replies, b) = run answer rs (with_limit limit) in
      let (expected, h) = run (answer_by_history limit) rs [] in
      (replies ≡ expected) × (drain b ≡ in_order 0 n (λ i. pushed i h))
unfolding drain with_limit
run-drain limit n rs small =
    let (same, v) = run-IsRefined limit n rs (with_limit limit) [] small (record {
      is_buffer = record { ordered = tt; counted = refl; bounded = omega arith };
      same_limit = refl;
      same_len = refl;
      same_bytes = λ i. refl;
      below = tt;
    }) in
    (
      same,
      drain_pieces-in_order 0 n n _ (omega arith) v.is_buffer.ordered v.below
          ∙ in_order-same 0 n _ _ (λ j le. v.same_bytes j),
    )
