-- ===== src/Control/Once.antt =====
-- src/control.rs: the messages that a scan strips, and the commands it acts on.
use inf_splitter.Prelude.{
  ℕ_eq, ==_refl, All, Bool-cases, List, Option-cases, [], ap, append-nil, append_assoc, arith, inl,
  inr, none, refl, some, subst, suc, sym, true, ℕ, ◌++◌, ◌+◌, ◌∙◌, ◌∷◌, ◌≡◌,
}
use inf_splitter.Prelude.Sets
use inf_splitter.Control.{
  ControlAction, ControlResult, Scanner, command_of, scan_control_messages, scan_message,
  scan_messages, strip,
}
use inf_splitter.Prelude.Sets.{HashSet}

module _ {Value : Type 0} (scan : Scanner Value) where
  -- the messages without a command
  abbrev pub plain : List Value → List Value
  plain [] = []
  plain (msg ∷ messages) = elim (command_of scan msg) [
    | none ↦ msg ∷ plain messages
    | some _ ↦ plain messages
  ]

  -- how many messages are commands
  abbrev pub commands : List Value → ℕ
  commands [] = 0
  commands (msg ∷ messages) = elim (command_of scan msg) [
    | none ↦ commands messages
    | some _ ↦ suc (commands messages)
  ]

  -- the hashes of all commands are in the set
  abbrev pub Processed : HashSet ℕ → List Value → Type 0
  Processed s messages =
      All
        (λ msg.
          (found : ControlAction × ℕ)
          → command_of scan msg ≡ some found
          → Sets.holds s found.1 ≡ true)
        messages

  scan_message-none :
      (r : ControlResult Value) (msg : Value)
      → command_of scan msg ≡ none
      → scan_message scan r msg ≡ record r { cleaned_messages = r.cleaned_messages ++ msg ∷ [] }
  unfolding scan_message
  scan_message-none r msg e = rw (e, scan_message) refl

  scan_message-some :
      (r : ControlResult Value) (msg : Value) (found : ControlAction × ℕ)
      → command_of scan msg ≡ some found
      → scan_message scan r msg ≡ strip found r
  unfolding scan_message
  scan_message-some r msg found e = rw (e, scan_message) refl

  -- what a strip leaves, and what it counts and remembers
  strip-at :
      (found : ControlAction × ℕ) (r : ControlResult Value)
      → ((strip found r).cleaned_messages ≡ r.cleaned_messages)
        × ((strip found r).stripped_count ≡ r.stripped_count + 1)
        × (Sets.holds (strip found r).processed_hashes found.1 ≡ true)
        × ((h : ℕ)
            → Sets.holds r.processed_hashes h ≡ true
            → Sets.holds (strip found r).processed_hashes h ≡ true)
  strip-at (act, hash) r = elim (Bool-cases (Sets.holds r.processed_hashes hash)) [
    | inl old ↦ rw old (refl, refl, old, λ h there. there)
    | inr new ↦ rw new (
      refl,
      refl,
      rw (Sets.holds-insert r.processed_hashes hash hash, ==_refl hash) refl,
      λ h there. rw (Sets.holds-insert r.processed_hashes hash h, there) (ground arith),
    )
  ]

  scan_messages-plain :
      (r : ControlResult Value) (messages : List Value)
      → ((scan_messages scan r messages).cleaned_messages ≡ r.cleaned_messages ++ plain messages)
        × ((scan_messages scan r messages).stripped_count ≡ r.stripped_count + commands messages)
  unfolding scan_messages
  scan_messages-plain r [] = (sym (append-nil r.cleaned_messages), omega arith)
  scan_messages-plain r (msg ∷ messages) =
      let (cleaned, count) = scan_messages-plain (scan_message scan r msg) messages in
      elim (Option-cases (command_of scan msg)) [
        | inl absent ↦
            rw (absent, plain, commands)
              (
                cleaned
                    ∙ ap (λ (x : ControlResult Value). x.cleaned_messages ++ plain messages)
                        (scan_message-none r msg absent)
                    ∙ append_assoc r.cleaned_messages (msg ∷ []) (plain messages),
                count
                    ∙ ap (λ (x : ControlResult Value). x.stripped_count + commands messages)
                        (scan_message-none r msg absent),
              )
        | inr (found, there) ↦
            let (same, one, _, _) = strip-at found r in
            rw (there, plain, commands)
              (
                cleaned
                    ∙ ap (λ (x : ControlResult Value). x.cleaned_messages ++ plain messages)
                        (scan_message-some r msg found there)
                    ∙ ap (λ l. l ++ plain messages) same,
                count
                    ∙ ap (λ (x : ControlResult Value). x.stripped_count + commands messages)
                        (scan_message-some r msg found there)
                    ∙ omega (arith, one),
              )
      ]

  scan_messages-remembers :
      (r : ControlResult Value) (messages : List Value) (h : ℕ)
      → Sets.holds r.processed_hashes h ≡ true
      → Sets.holds (scan_messages scan r messages).processed_hashes h ≡ true
  unfolding scan_messages
  scan_messages-remembers r [] h there = there
  scan_messages-remembers r (msg ∷ messages) h there =
      scan_messages-remembers (scan_message scan r msg) messages h
        (elim (Option-cases (command_of scan msg)) [
          | inl absent ↦ rw (scan_message-none r msg absent) there
          | inr (found, is) ↦
              let (_, _, _, kept) = strip-at found r in
              rw (scan_message-some r msg found is) (kept h there)
        ])

  -- After a scan the hashes of all its commands are remembered.
  scan_messages-Processed :
      (r : ControlResult Value) (messages : List Value)
      → Processed (scan_messages scan r messages).processed_hashes messages
  unfolding scan_messages
  scan_messages-Processed r [] = tt
  scan_messages-Processed r (msg ∷ messages) = (
    λ found there.
        let (_, _, now, _) = strip-at found r in
        scan_messages-remembers (scan_message scan r msg) messages found.1
          (rw (scan_message-some r msg found there) now),
    scan_messages-Processed (scan_message scan r msg) messages,
  )

  -- A scan of messages whose commands are remembered acts on none of them.
  scan_messages-again :
      (r : ControlResult Value) (messages : List Value)
      → Processed r.processed_hashes messages
      → ((scan_messages scan r messages).action ≡ r.action)
        × ((scan_messages scan r messages).processed_hashes ≡ r.processed_hashes)
  unfolding scan_messages
  scan_messages-again r [] done = (refl, refl)
  scan_messages-again r (msg ∷ messages) (head, done) =
      let (same_action, same_hashes) = one in
      let (action, hashes) =
        scan_messages-again (scan_message scan r msg) messages
          (subst (λ s. Processed s messages) (sym same_hashes) done) in
      (action ∙ same_action, hashes ∙ same_hashes)
    where
      one :
          ((scan_message scan r msg).action ≡ r.action)
          × ((scan_message scan r msg).processed_hashes ≡ r.processed_hashes)
      one = elim (Option-cases (command_of scan msg)) [
        | inl absent ↦ rw (scan_message-none r msg absent) (refl, refl)
        | inr (found, there) ↦
            rw (scan_message-some r msg found there, head found there) (refl, refl)
      ]

-- A scan hands on exactly the messages that carry no command, in order, and counts the others; a second scan of the same messages with the hashes that the first one remembered hands on the same and acts on nothing, so that a resent conversation does not repeat a command.
pub scan_control_messages-once :
    {Value : Type 0} (scan : Scanner Value) (messages : List Value) (processed : HashSet ℕ)
    → let first = scan_control_messages scan messages processed in
      let second = scan_control_messages scan messages first.processed_hashes in
      (first.cleaned_messages ≡ plain scan messages)
      × (first.stripped_count ≡ commands scan messages)
      × (second.cleaned_messages ≡ plain scan messages)
      × (second.action ≡ none)
      × (second.processed_hashes ≡ first.processed_hashes)
unfolding scan_control_messages
scan_control_messages-once scan messages processed =
    let first = scan_control_messages scan messages processed in
    let (cleaned, count) = scan_messages-plain scan _ messages in
    let (action, hashes) =
      scan_messages-again scan
        (record {
          cleaned_messages = [];
          stripped_count = 0;
          action = none;
          processed_hashes = first.processed_hashes;
        })
        messages (scan_messages-Processed scan _ messages) in
    (cleaned, count ∙ omega arith, (scan_messages-plain scan _ messages).0, action, hashes)
