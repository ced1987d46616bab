-- ===== src/Sse/Tests.antt =====
-- The theorems on the buffer at concrete inputs.
use inf_splitter.Prelude.{
  ℕ_eq, List, [], arith, err, if◌then◌else◌, ok, refl, some, ℕ, ◌++◌, ◌<◌, ◌==◌, ◌∷◌, ◌≡◌, ◌⊎◌,
}
use inf_splitter.Sse.Buffer.{IsBuffer, bytes_of, push-IsBuffer}
use inf_splitter.Sse.{
  MemSseBuffer, drain, drain_pieces, overflow, push, replace, substitute_id, with_limit,
}
use inf_splitter.Prelude.Bytes.{chars}
use inf_splitter.Prelude.Text.{starts_with}
use inf_splitter.Sse.Substitute.{Replaced, substitute_id-IsBuffer}
use inf_splitter.Sse.Refined.{
  BufferRequest, answer, answer_by_history, appends, asks_len, in_order, pushed, run, run-drain,
}

abbrev one_piece : MemSseBuffer
one_piece = record { pieces = (1, chars "id_7 x") ∷ []; limit_bytes = 10; current_bytes = 6 }

one_piece-IsBuffer : IsBuffer one_piece
one_piece-IsBuffer = record { ordered = (omega arith, tt); counted = refl; bounded = omega arith }

push-IsBuffer_example :
    ((10 < 9) × (push one_piece 0 (chars "abc") ≡ err (overflow 10 6)))
    ⊎ ((b' : MemSseBuffer) × (push one_piece 0 (chars "abc") ≡ ok b')
        × IsBuffer b'
        × ((j : ℕ)
            → bytes_of j b'.pieces
              ≡ bytes_of j one_piece.pieces ++ (if 0 == j then chars "abc" else [])))
push-IsBuffer_example = push-IsBuffer one_piece 0 (chars "abc") one_piece-IsBuffer

substitute_id-IsBuffer_example :
    (b' : MemSseBuffer) × (substitute_id (chars "id_7") (chars "id_9") one_piece ≡ some b')
    × IsBuffer b'
    × ((j : ℕ)
        → Replaced
            (chars "id_7")
            (chars "id_9")
            (bytes_of j one_piece.pieces)
            (bytes_of j b'.pieces))
substitute_id-IsBuffer_example =
    substitute_id-IsBuffer one_piece b'i' (chars "d_7") (chars "id_9") one_piece-IsBuffer refl

-- The pieces are drained in the order of their indices; a longer identifier leaves the count behind.
drained :
    (substitute_id (chars "id_7") (chars "long") one_piece
      ≡ some (record one_piece { pieces = (1, chars "long x") ∷ [] }))
    × (drain (record one_piece { pieces = (0, chars "a") ∷ (1, chars "b") ∷ [] }) ≡ chars "ab")
    × (substitute_id (chars "x") (chars "yyyyyyyyyy") one_piece
        ≡ some (record one_piece { pieces = (1, chars "id_7 yyyyyyyyyy") ∷ [] }))
unfolding substitute_id replace starts_with drain drain_pieces
drained = (refl, refl, refl)

abbrev requests : List BufferRequest
requests =
    appends 1 (chars "b") ∷ appends 0 (chars "a") ∷ asks_len ∷ appends 1 (chars "cdefghijkl") ∷ []

run-drain_example :
    let (replies, b) = run answer requests (with_limit 8) in
    let (expected, h) = run (answer_by_history 8) requests [] in
    (replies ≡ expected) × (drain b ≡ in_order 0 2 (λ i. pushed i h))
run-drain_example = run-drain 8 2 requests (omega arith, (omega arith, (tt, (omega arith, tt))))
