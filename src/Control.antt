-- ===== src/Control.antt =====
-- src/control.rs: the control messages in the messages of a client. `Json` is what the source reads
-- of a value of the JSON library, and `hash_str` is the hash of the standard library's map, of which
-- only that it is a function is used.
pub mod Once
mod Tests
use mathlib.Core.Option
use inf_splitter.Prelude.{
  ℕ_eq, Bool, List, Option, [], drop, false, if◌then◌else◌, length, none, some, ℕ, ◌++◌, ◌+◌, ◌∷◌,
}
use inf_splitter.Prelude.Dict
use inf_splitter.Prelude.Sets
use inf_splitter.Prelude.Text.{Text_eq, Text, contains, is_digit, parse_u64, starts_with}
use inf_splitter.Prelude.Bytes.{chars, decimal}
use inf_splitter.Splitting.Texts.{split_on}
use inf_splitter.Sse.{replace}
use inf_splitter.Prelude.Sets.{HashSet}

pub record Json (Value : Type 0) : Type 0 where
  pub as_str : Value → Option Text
  pub get : Value → Text → Option Value
  pub as_array : Value → Option (List Value)

pub data ControlAction : Type 0 where
  clean_all : ControlAction
  extend_lifetime : (utc : ℕ) → ControlAction

-- what the loop of the scan has so far
pub record ControlResult (Value : Type 0) : Type 0 where
  pub cleaned_messages : List Value
  pub stripped_count : ℕ
  pub action : Option ControlAction
  pub processed_hashes : HashSet ℕ

abbrev pub unix_utc : Text
unix_utc = chars "<unix_utc>"

-- parts.join(" ")
unfoldable pub join_spaced : List Text → Text
join_spaced [] = []
join_spaced (part ∷ []) = part
join_spaced (part ∷ next ∷ parts) = part ++ b' ' ∷ join_spaced (next ∷ parts)

-- the texts of the blocks that have one
unfoldable pub block_texts : {Value : Type 0} → Json Value → List Value → List Text
block_texts json [] = []
block_texts json (block ∷ blocks) = elim (json.get block (chars "text")) [
  | none ↦ block_texts json blocks
  | some t ↦ elim (json.as_str t) [
    | none ↦ block_texts json blocks
    | some s ↦ s ∷ block_texts json blocks
  ]
]

abbrev pub joined : List Text → Option Text
joined [] = none
joined (part ∷ parts) = some (join_spaced (part ∷ parts))

unfoldable pub content_text : {Value : Type 0} → Json Value → Value → Option Text
content_text json content = elim (json.as_str content) [
  | some s ↦ some s
  | none ↦ elim (json.as_array content) [ none ↦ none | some arr ↦ joined (block_texts json arr) ]
]

unfoldable pub message_text : {Value : Type 0} → Json Value → Value → Option Text
message_text json msg = elim (json.as_str msg) [
  | some s ↦ some s
  | none ↦ elim (json.get msg (chars "content")) [
    | none ↦ none
    | some content ↦ content_text json content
  ]
]

-- what follows the first occurrence of the prefix
unfoldable pub after_first : Text → Text → Option Text
after_first prefix [] = if starts_with prefix [] then some (drop (length prefix) []) else none
after_first prefix (c ∷ s) =
    let rest = after_first prefix s in
    if starts_with prefix (c ∷ s) then some (drop (length prefix) (c ∷ s)) else rest

unfoldable pub leading_digits : Text → Text
leading_digits [] = []
leading_digits (c ∷ s) = let rest = leading_digits s in if is_digit c then c ∷ rest else []

-- the timestamp after a prefix, where the suffix follows it
unfoldable pub timestamp_in : Text → Text → Option ℕ
timestamp_in suffix after_prefix =
    if starts_with suffix (drop (length (leading_digits after_prefix)) after_prefix)
    then parse_u64 (leading_digits after_prefix)
    else none

abbrev pub two_parts : List Text → Option (Text × Text)
two_parts (prefix ∷ suffix ∷ []) = some (prefix, suffix)
two_parts _ = none

unfoldable pub match_extend_lifetime : Text → Text → Option ℕ
match_extend_lifetime text constant = elim (two_parts (split_on unix_utc 0 constant)) [
  | none ↦ none
  | some parts ↦ elim (after_first parts.0 text) [
    | none ↦ none
    | some after_prefix ↦ timestamp_in parts.1 after_prefix
  ]
]

-- the constant twice in a row stands in the text
unfoldable pub asks_clean_all : Option Text → Text → Bool
asks_clean_all none t = false
asks_clean_all (some constant) t = contains (constant ++ constant) t

abbrev pub doubled_at : Text → ℕ → Text
doubled_at constant ts =
    replace unix_utc (chars (decimal ts)) 0 constant
    ++ replace unix_utc (chars (decimal ts)) 0 constant

unfoldable pub asks_extend : Option Text → Text → Option ℕ
asks_extend none t = none
asks_extend (some constant) t = elim (match_extend_lifetime t constant) [
  | none ↦ none
  | some ts ↦ if contains (doubled_at constant ts) t then some ts else none
]

-- the command in a text, the first of the two checks that fits
unfoldable pub command_in : Option Text → Option Text → Text → Option ControlAction
command_in clean_constant extend_constant t =
    if asks_clean_all clean_constant t
    then some clean_all
    else Option.map extend_lifetime (asks_extend extend_constant t)

-- the constants of a section, and the libraries
pub record Scanner (Value : Type 0) : Type 0 where
  pub json : Json Value
  pub hash_str : Text → ℕ
  pub clean_all_constant : Option Text
  pub extend_lifetime_constant : Option Text

-- the command of a message, with the hash of its text
unfoldable pub command_of : {Value : Type 0} → Scanner Value → Value → Option (ControlAction × ℕ)
command_of scan msg = elim (message_text scan.json msg) [
  | none ↦ none
  | some t ↦
      Option.map (λ act. (act, scan.hash_str t))
        (command_in scan.clean_all_constant scan.extend_lifetime_constant t)
]

-- a command that was processed before is stripped only
abbrev pub strip : {Value : Type 0} → ControlAction × ℕ → ControlResult Value → ControlResult Value
strip (act, hash) r =
    if Sets.holds r.processed_hashes hash
    then record r { stripped_count = r.stripped_count + 1 }
    else record r {
      stripped_count = r.stripped_count + 1;
      action = some act;
      processed_hashes = Dict.insert r.processed_hashes hash tt;
    }

unfoldable pub scan_message :
    {Value : Type 0} → Scanner Value → ControlResult Value → Value → ControlResult Value
scan_message scan r msg = elim (command_of scan msg) [
  | none ↦ record r { cleaned_messages = r.cleaned_messages ++ msg ∷ [] }
  | some found ↦ strip found r
]

unfoldable pub scan_messages :
    {Value : Type 0} → Scanner Value → ControlResult Value → List Value → ControlResult Value
scan_messages scan r [] = r
scan_messages scan r (msg ∷ messages) = scan_messages scan (scan_message scan r msg) messages

unfoldable pub scan_control_messages :
    {Value : Type 0} → Scanner Value → List Value → HashSet ℕ → ControlResult Value
scan_control_messages scan messages processed_hashes =
    scan_messages scan
      (record {
        cleaned_messages = [];
        stripped_count = 0;
        action = none;
        processed_hashes = processed_hashes;
      })
      messages
