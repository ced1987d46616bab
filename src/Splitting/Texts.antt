-- ===== src/Splitting/Texts.antt =====
-- src/interactions_handler.rs: `split_text_for_limit` and `split_by_best_delimiter`. A text is its
-- UTF-8 bytes, since the limits are in bytes; the delimiters are ASCII.
pub mod Kept
pub mod Parts
pub mod Stuck
pub mod Fitting
use inf_splitter.Prelude.{
  ℕ_eq, Bool, List, Result, [], any, err, false, if◌then◌else◌, leb, length, ltb, ok, suc, true,
  zero, ℕ, ◌++◌, ◌-◌, ◌==◌, ◌||◌, ◌∷◌,
}
use inf_splitter.Prelude.Text.{Text_eq, Text, starts_with}
use inf_splitter.Prelude.Bytes.{chars}

pub data SplitError : Type 0 where
  overhead_exceeds : (overhead limit : ℕ) → SplitError
  unable_to_split : (limit effective_limit overhead : ℕ) → SplitError

abbrev pub onto_first : ℕ → List Text → List Text
onto_first c [] = (c ∷ []) ∷ []
onto_first c (part ∷ parts) = (c ∷ part) ∷ parts

-- text.split(delim); the number counts the bytes of a match that are still to be passed over
unfoldable pub split_on : Text → ℕ → Text → List Text
split_on delim skip [] = [] ∷ []
split_on delim (suc skip) (c ∷ s) = split_on delim skip s
split_on delim zero (c ∷ s) =
    let passed = split_on delim (length delim - 1) s in
    let kept = split_on delim 0 s in
    if starts_with delim (c ∷ s) then [] ∷ passed else onto_first c kept

-- all but the last element, and the last one
abbrev pub front : List Text → List Text
front [] = []
front (s ∷ []) = []
front (s ∷ t ∷ parts) = s ∷ front (t ∷ parts)

abbrev pub last_of : List Text → Text
last_of [] = []
last_of (s ∷ []) = s
last_of (s ∷ t ∷ parts) = last_of (t ∷ parts)

-- what has been cut off, and `current`
abbrev pub Cut : Type 0
Cut = List Text × Text

-- a chunk that is not empty is pushed, or cut by the finer delimiters where it is too large
unfoldable pub push_chunk : (Text → List Text) → ℕ → List Text → Text → List Text
push_chunk finer limit result [] = result
push_chunk finer limit result (c ∷ current) =
    if ltb limit (length (c ∷ current))
    then result ++ finer (c ∷ current)
    else result ++ (c ∷ current) ∷ []

-- the pieces of one part that is too large
abbrev pub take_finer : List Text → Text → List Text → Cut
take_finer result part [] = (result ++ part ∷ [], [])
take_finer result part (s ∷ sub) = (result ++ front (s ∷ sub), last_of (s ∷ sub))

-- the start of a new chunk
unfoldable pub start_chunk : (Text → List Text) → ℕ → List Text → Text → Cut
start_chunk finer limit result part =
    if leb (length part) limit then (result, part) else take_finer result part (finer part)

abbrev pub candidate : Text → Text → Text → Text
candidate delim [] part = part
candidate delim (c ∷ current) part = (c ∷ current) ++ (delim ++ part)

-- one round of the loop over the parts
unfoldable pub add_part : (Text → List Text) → ℕ → Text → Cut → Text → Cut
add_part finer limit delim (result, current) part =
    if leb (length (candidate delim current part)) limit
    then (result, candidate delim current part)
    else start_chunk finer limit (push_chunk finer limit result current) part

unfoldable pub add_parts : (Text → List Text) → ℕ → Text → Cut → List Text → Cut
add_parts finer limit delim cut [] = cut
add_parts finer limit delim cut (part ∷ parts) =
    add_parts finer limit delim (add_part finer limit delim cut part) parts

-- the parts at a delimiter that occurs
unfoldable pub join_parts : (Text → List Text) → ℕ → Text → List Text → List Text
join_parts finer limit delim parts =
    let (result, current) = add_parts finer limit delim ([], []) parts in
    push_chunk finer limit result current

unfoldable pub split_by_best_delimiter : List Text → ℕ → Text → List Text
split_by_best_delimiter [] limit text = text ∷ []
split_by_best_delimiter (delim ∷ delimiters) limit text =
    let parts = split_on delim 0 text in
    let finer = split_by_best_delimiter delimiters limit in
    if length parts == 1
    then split_by_best_delimiter delimiters limit text
    else join_parts finer limit delim parts

abbrev pub delimiters : List Text
delimiters =
    chars "\n\n"
    ∷ chars "\n"
    ∷ chars ". "
    ∷ chars "! "
    ∷ chars "? "
    ∷ chars ", "
    ∷ chars "; "
    ∷ chars " "
    ∷ []

abbrev pub no_chunks : List Text → Bool
no_chunks [] = true
no_chunks (_ ∷ _) = false

unfoldable pub split_text_for_limit : Text → ℕ → ℕ → Result SplitError (List Text)
split_text_for_limit text limit overhead =
    let effective_limit = limit - overhead in
    if effective_limit == 0
    then err (overhead_exceeds overhead limit)
    else if leb (length text) effective_limit
    then ok (text ∷ [])
    else (let chunks = split_by_best_delimiter delimiters effective_limit text in
        if no_chunks chunks || any (λ c. ltb effective_limit (length c)) chunks
        then err (unable_to_split limit effective_limit overhead)
        else ok chunks)
