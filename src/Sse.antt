-- ===== src/Sse.antt =====
-- src/sse.rs: the buffer that holds the streams of the pieces until the last identifier is known,
-- and the parts of the event parsing that are not a library's. Bytes are numbers below 256; sums of
-- lengths stay below the 64 bits of `usize`, since every length is one of memory.
pub mod Buffer
pub mod Substitute
pub mod Refined
mod Tests
use inf_splitter.Prelude.{
  ℕ_eq, Bool, List, Option, Result, [], err, false, if◌then◌else◌, length, ltb, map, none, ok, some,
  suc, zero, ℕ, ◌*◌, ◌++◌, ◌+◌, ◌-◌, ◌==◌, ◌∷◌,
}
use inf_splitter.Prelude.Text.{Text_eq, Text, contains, starts_with}
use inf_splitter.Prelude.Bytes.{chars}

pub data SseBufferError : Type 0 where
  overflow : (limit current : ℕ) → SseBufferError

pub record MemSseBuffer : Type 0 where
  pub pieces : List (ℕ × List ℕ)
  pub limit_bytes : ℕ
  pub current_bytes : ℕ

abbrev pub default_sse_buffer_limit : ℕ
default_sse_buffer_limit = 100 * 1024 * 1024

unfoldable pub with_limit : ℕ → MemSseBuffer
with_limit limit_bytes = record { pieces = []; limit_bytes = limit_bytes; current_bytes = 0 }

unfoldable pub default_buffer : MemSseBuffer
unfolding with_limit
default_buffer = with_limit default_sse_buffer_limit

-- What the binary search and the two branches after it do on pieces in the order of their indices:
-- the place of the index is after every smaller one.
unfoldable pub add_bytes : ℕ → List ℕ → List (ℕ × List ℕ) → List (ℕ × List ℕ)
add_bytes piece_index bytes [] = (piece_index, bytes) ∷ []
add_bytes piece_index bytes ((idx, data') ∷ pieces) =
    let rest = add_bytes piece_index bytes pieces in
    if idx == piece_index
    then (idx, data' ++ bytes) ∷ pieces
    else if ltb piece_index idx
    then (piece_index, bytes) ∷ (idx, data') ∷ pieces
    else (idx, data') ∷ rest

unfoldable pub push : MemSseBuffer → ℕ → List ℕ → Result SseBufferError MemSseBuffer
push b piece_index bytes =
    if ltb b.limit_bytes (b.current_bytes + length bytes)
    then err (overflow b.limit_bytes b.current_bytes)
    else ok (record b {
      pieces = add_bytes piece_index bytes b.pieces;
      current_bytes = b.current_bytes + length bytes;
    })

-- The loop over the matches, from left to right. The number counts the bytes of a match that are
-- still to be passed over.
unfoldable pub replace : List ℕ → List ℕ → ℕ → List ℕ → List ℕ
replace from to skip [] = []
replace from to (suc skip) (c ∷ s) = replace from to skip s
replace from to zero (c ∷ s) =
    let passed = replace from to (length from - 1) s in
    let kept = replace from to 0 s in if starts_with from (c ∷ s) then to ++ passed else c ∷ kept

-- `none` is the panic of `windows(0)` on an empty identifier, where there is a piece
unfoldable pub substitute_id : List ℕ → List ℕ → MemSseBuffer → Option MemSseBuffer
substitute_id [] to b = elim b.pieces [ [] ↦ some b | _ ∷ _ ↦ none ]
substitute_id (c ∷ from) to b =
    some (record b { pieces = map (λ p. (p.0, replace (c ∷ from) to 0 p.1)) b.pieces })

unfoldable pub drain_pieces : List (ℕ × List ℕ) → List ℕ
drain_pieces [] = []
drain_pieces ((_, data') ∷ pieces) = data' ++ drain_pieces pieces

unfoldable pub drain : MemSseBuffer → List ℕ
drain b = drain_pieces b.pieces

unfoldable pub len_bytes : MemSseBuffer → ℕ
len_bytes b = b.current_bytes

-- the first value of the content type, as `to_str` gives it
unfoldable pub is_event_stream : Option Text → Bool
is_event_stream none = false
is_event_stream (some value) = contains (chars "text/event-stream") value
