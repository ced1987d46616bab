-- ===== src/Diagnostics/Details.antt =====
-- src/diagnostics.rs: the detail of the messages of a request that the statistics carry, from a
-- parsed body. A `Text` is the code points of a string, and `as_bytes` gives its UTF-8.
use inf_splitter.Prelude.{
  Bool, List, Option, [], false, if◌then◌else◌, length, map, none, some, suc, true, ℕ, ◌==◌, ◌∷◌,
}
use inf_splitter.Prelude.Text.{Text_eq, Text, is_whitespace}
use inf_splitter.Prelude.Bytes.{chars}
use inf_splitter.Egress.{JsonObject}

-- what is read of values of the JSON library and how they are made
pub record JsonValues (Value : Type 0) : Type 0 where
  pub object : JsonObject Value
  pub as_str : Value → Option Text
  pub as_array : Value → Option (List Value)
  pub text : Text → Value
  pub array : List Value → Value
  pub fields : List (Text × Value) → Value
  pub to_text : Value → Text
  pub as_bytes : Text → List ℕ

-- split_whitespace().count(), the flag being set within a word
unfoldable pub count_words : Bool → Text → ℕ
count_words inside [] = 0
count_words inside (c ∷ s) =
    let blank = count_words false s in
    let word = count_words true s in
    if is_whitespace c then blank else if inside then word else suc word

-- unwrap_or
abbrev pub text_or : Text → Option Text → Text
text_or default none = default
text_or default (some s) = s

module _ {Value : Type 0} (json : JsonValues Value) where
  -- v.get(key).and_then(|x| x.as_str())
  unfoldable pub text_of : Value → Text → Option Text
  text_of v key = elim (json.object.get v key) [ none ↦ none | some x ↦ json.as_str x ]

  abbrev byte_len : Text → ℕ
  byte_len s = length (json.as_bytes s)

  unfoldable pub text_part_detail : Text → Value
  text_part_detail s = json.fields (
      (chars "type", json.text (chars "text"))
      ∷ (chars "chars", json.object.number (length s))
      ∷ (chars "words", json.object.number (count_words false s))
      ∷ [])

  abbrev len_or_zero : Option Text → ℕ
  len_or_zero none = 0
  len_or_zero (some s) = byte_len s

  unfoldable pub image_detail : Option Value → Value
  image_detail source =
      let bytes : Option Text = elim source [ none ↦ none | some s ↦ text_of s (chars "data") ] in
      let media : Option Text = elim source [
        | none ↦ none
        | some s ↦ text_of s (chars "media_type")
      ] in
      let p = json.fields (
        (chars "type", json.text (chars "image"))
        ∷ (chars "bytes", json.object.number (len_or_zero bytes))
        ∷ []) in
      elim media [ none ↦ p | some m ↦ json.object.set p (chars "media_type") (json.text m) ]

  unfoldable pub image_url_detail : Value → Value
  image_url_detail item =
      let url : Option Text = elim (json.object.get item (chars "image_url")) [
        | none ↦ none
        | some iu ↦ text_of iu (chars "url")
      ] in
      json.fields (
        (chars "type", json.text (chars "image_url"))
        ∷ (chars "url_chars", json.object.number (len_or_zero url))
        ∷ [])

  unfoldable pub tool_use_detail : Value → Value
  tool_use_detail item =
      let input : Option Text = elim (json.object.get item (chars "input")) [
        | none ↦ none
        | some i ↦ some (json.to_text i)
      ] in
      json.fields (
        (chars "type", json.text (chars "tool_use"))
        ∷ (chars "name", json.text (text_or (chars "?") (text_of item (chars "name"))))
        ∷ (chars "input_bytes", json.object.number (len_or_zero input))
        ∷ [])

  unfoldable pub item_detail : Value → Value
  item_detail item =
      let ty = text_or [] (text_of item (chars "type")) in
      if ty == chars "text"
      then text_part_detail (text_or [] (text_of item (chars "text")))
      else if ty == chars "image"
      then image_detail (json.object.get item (chars "source"))
      else if ty == chars "image_url"
      then image_url_detail item
      else if ty == chars "tool_use"
      then tool_use_detail item
      else json.fields ((chars "type", json.text ty) ∷ [])

  -- a text, an array, or none of them
  unfoldable pub content_parts : Value → List Value
  content_parts content = elim (json.as_str content) [
    | some s ↦ text_part_detail s ∷ []
    | none ↦ elim (json.as_array content) [ some items ↦ map item_detail items | none ↦ [] ]
  ]

  unfoldable pub message_detail : Value → Value
  message_detail msg =
      let parts : List Value = elim (json.object.get msg (chars "content")) [
        | none ↦ []
        | some c ↦ content_parts c
      ] in
      json.fields (
        (chars "role", json.text (text_or (chars "?") (text_of msg (chars "role"))))
        ∷ (chars "parts", json.array parts)
        ∷ [])

  unfoldable pub messages_detail_from_array : List Value → Value
  messages_detail_from_array arr = json.array (map message_detail arr)

  unfoldable pub messages_detail_from_value : Value → Option Value
  messages_detail_from_value body = elim (json.object.get body (chars "messages")) [
    | none ↦ none
    | some v ↦ elim (json.as_array v) [
      | none ↦ none
      | some arr ↦ some (messages_detail_from_array arr)
    ]
  ]
