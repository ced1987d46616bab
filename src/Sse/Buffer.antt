-- ===== src/Sse/Buffer.antt =====
-- src/sse.rs, `MemSseBuffer::push`: the order of the pieces, the count of the bytes and the limit.
use inf_splitter.Prelude.{
  ℕ_eq, Bool-cases, List, [], ap, append-nil, arith, err, if◌then◌else◌, inl, inr, length,
  length-append, ltb, ok, refl, suc, ℕ, ◌++◌, ◌+◌, ◌<◌, ◌==◌, ◌∷◌, ◌≡◌, ◌≤◌, ◌⊎◌,
}
use inf_splitter.Sse.{MemSseBuffer, add_bytes, overflow, push}

abbrev pub total_bytes : List (ℕ × List ℕ) → ℕ
total_bytes [] = 0
total_bytes ((_, data') ∷ pieces) = length data' + total_bytes pieces

-- every index is above the bound, and they ascend
abbrev pub Ascending : ℕ → List (ℕ × List ℕ) → Type 0
Ascending bound [] = Unit {0}
Ascending bound ((idx, _) ∷ pieces) = (bound ≤ idx) × Ascending (suc idx) pieces

pub record IsBuffer (b : MemSseBuffer) : Type 0 where
  pub ordered : Ascending 0 b.pieces
  pub counted : b.current_bytes ≡ total_bytes b.pieces
  pub bounded : b.current_bytes ≤ b.limit_bytes

-- the bytes of a piece, none where there is no such piece
abbrev pub bytes_of : ℕ → List (ℕ × List ℕ) → List ℕ
bytes_of i [] = []
bytes_of i ((idx, data') ∷ pieces) = if idx == i then data' else bytes_of i pieces

pub total_bytes-add_bytes :
    (i : ℕ) (bytes : List ℕ) (pieces : List (ℕ × List ℕ))
    → total_bytes (add_bytes i bytes pieces) ≡ total_bytes pieces + length bytes
unfolding add_bytes
total_bytes-add_bytes i bytes [] = omega arith
total_bytes-add_bytes i bytes ((idx, data') ∷ pieces) =
    ground (arith, total_bytes-add_bytes i bytes pieces, length-append data' bytes)

pub Ascending-add_bytes :
    (i : ℕ) (bytes : List ℕ) (bound : ℕ) (pieces : List (ℕ × List ℕ))
    → bound ≤ i
    → Ascending bound pieces
    → Ascending bound (add_bytes i bytes pieces)
unfolding add_bytes
Ascending-add_bytes i bytes bound [] h a = (h, tt)
Ascending-add_bytes i bytes bound ((idx, data') ∷ pieces) h (low, a) =
    elim (Bool-cases (idx == i)) [
      | inl same ↦ rw (same, add_bytes) (low, a)
      | inr differ ↦ elim (Bool-cases (ltb i idx)) [
        | inl before ↦ rw (differ, before, add_bytes) (h, (ground arith, a))
        | inr after ↦
            rw (differ, after, add_bytes)
              (low, Ascending-add_bytes i bytes (suc idx) pieces (ground arith) a)
      ]
    ]

pub bytes_of-above :
    (i bound : ℕ) (pieces : List (ℕ × List ℕ))
    → i < bound
    → Ascending bound pieces
    → bytes_of i pieces ≡ []
bytes_of-above i bound [] h a = refl
bytes_of-above i bound ((idx, data') ∷ pieces) h (low, a) =
    ground (arith, bytes_of-above i (suc idx) pieces (omega arith) a)

pub bytes_of-add_bytes :
    (i j bound : ℕ) (bytes : List ℕ) (pieces : List (ℕ × List ℕ))
    → Ascending bound pieces
    → bytes_of j (add_bytes i bytes pieces) ≡ bytes_of j pieces ++ (if i == j then bytes else [])
unfolding add_bytes
bytes_of-add_bytes i j bound bytes [] a = ground arith
bytes_of-add_bytes i j bound bytes ((idx, data') ∷ pieces) (low, a) = ground (
  arith,
  bytes_of-add_bytes i j (suc idx) bytes pieces a,
  append-nil data',
  append-nil (bytes_of j pieces),
  bytes_of-above j (suc idx) pieces,
)

-- A push on a well-formed buffer is refused exactly if the bytes would leave the limit, with the limit and the bytes there in the error; else the buffer is well-formed again (indices ascending, the count is the bytes there and within the limit) and the piece has the new bytes at its end, while every other piece is as before.
pub push-IsBuffer :
    (b : MemSseBuffer) (i : ℕ) (bytes : List ℕ)
    → IsBuffer b
    → ((b.limit_bytes < total_bytes b.pieces + length bytes)
        × (push b i bytes ≡ err (overflow b.limit_bytes (total_bytes b.pieces))))
      ⊎ ((b' : MemSseBuffer) × (push b i bytes ≡ ok b')
          × IsBuffer b'
          × ((j : ℕ)
              → bytes_of j b'.pieces ≡ bytes_of j b.pieces ++ (if i == j then bytes else [])))
unfolding push
push-IsBuffer b i bytes v = elim (Bool-cases (ltb b.limit_bytes (b.current_bytes + length bytes))) [
  | inl over ↦ inl (
    ground (arith, v.counted),
    rw (over, push) (ap (λ n. err (overflow b.limit_bytes n)) v.counted),
  )
  | inr fits ↦ inr (
    record b {
      pieces = add_bytes i bytes b.pieces;
      current_bytes = b.current_bytes + length bytes;
    },
    rw (fits, push) refl,
    record {
      ordered = Ascending-add_bytes i bytes 0 b.pieces (omega arith) v.ordered;
      counted = ground (arith, total_bytes-add_bytes i bytes b.pieces, v.counted);
      bounded = ground arith;
    },
    λ j. bytes_of-add_bytes i j 0 bytes b.pieces v.ordered,
  )
]
