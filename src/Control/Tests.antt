-- ===== src/Control/Tests.antt =====
-- The theorem on the scan at a concrete conversation.
use inf_splitter.Prelude.{List, [], length, none, refl, some, ◌∷◌, ◌≡◌}
use inf_splitter.Prelude.Dict
use inf_splitter.Control.{
  Json, Scanner, after_first, asks_clean_all, asks_extend, clean_all, command_in, command_of,
  extend_lifetime, leading_digits, match_extend_lifetime, message_text, scan_control_messages,
  timestamp_in,
}
use inf_splitter.Prelude.Text.{Text, contains, parse_u64, starts_with}
use inf_splitter.Splitting.Texts.{split_on}
use inf_splitter.Prelude.Bytes.{chars, decimal}
use inf_splitter.Control.Once.{commands, plain, scan_control_messages-once}
use inf_splitter.Sse.{replace}

-- messages that are their texts
abbrev texts : Json Text
texts = record { as_str = λ s. some s; get = λ s key. none; as_array = λ s. none }

abbrev scanner : Scanner Text
scanner = record {
  json = texts;
  hash_str = λ s. length s;
  clean_all_constant = some (chars "CLEAN");
  extend_lifetime_constant = some (chars "[<unix_utc>]");
}

abbrev conversation : List Text
conversation = chars "hi" ∷ chars "CLEANCLEAN" ∷ chars "CLEAN" ∷ []

scan_control_messages-once_example :
    let first = scan_control_messages scanner conversation Dict.empty in
    let second = scan_control_messages scanner conversation first.processed_hashes in
    (first.cleaned_messages ≡ plain scanner conversation)
    × (first.stripped_count ≡ commands scanner conversation)
    × (second.cleaned_messages ≡ plain scanner conversation)
    × (second.action ≡ none)
    × (second.processed_hashes ≡ first.processed_hashes)
scan_control_messages-once_example = scan_control_messages-once scanner conversation Dict.empty

-- A constant must stand twice, and a timestamp is read from its place.
commands_read :
    (command_of scanner (chars "CLEANCLEAN") ≡ some (clean_all, 10))
    × (command_of scanner (chars "CLEAN") ≡ none)
    × (command_of scanner (chars "[17][17]") ≡ some (extend_lifetime 17, 8))
    × (command_of scanner (chars "[17][18]") ≡ none)
unfolding command_of message_text command_in asks_clean_all asks_extend match_extend_lifetime
    contains starts_with split_on after_first timestamp_in leading_digits parse_u64 replace decimal
commands_read = (refl, refl, refl, refl)
