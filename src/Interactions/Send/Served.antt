-- ===== src/Interactions/Send/Served.antt =====
-- src/interactions_handler.rs: a split send whose upstream serves it.
use inf_splitter.Prelude.{
  List, Option, Result, String, [], all, ap, false, ok, refl, some, subst, suc, true, ℕ, ◌∷◌, ◌≡◌,
}
use inf_splitter.Interactions.Send.{SplitSend, Step, chunk_body, split_send}
use inf_splitter.Interactions.Send.Conversation.{
  Stops, Why, conversation, leaves_no_room, oversizing, reply_in, reply_of, served, unserialising,
}
use inf_splitter.Upstream.{Answer, Response, is_success}
use inf_splitter.Interactions.Chunks.{Sending, Stopped, aborted, dumped_text}
use inf_splitter.Interactions.Send.Stored.{Key}
use inf_splitter.Interactions.Send.Batches.{
  Completed, SplitEnd, completes, fails, leaves, ok_response, split_send-SplitEnd, unanswered,
}
use inf_splitter.Diagnostics.{DumpBody}
use inf_splitter.Errors.{AppError}
use inf_splitter.Upstream.Passthrough.{validate_upstream_body}

module _ {M Value Reply Content Config : Type 0}
    (split : SplitSend M Value Reply Content Config) where
  -- the answer is one of success with a body that is this reply
  pub record IsServed (answer : Answer) (reply : Reply) : Type 0 where
    pub bytes : List ℕ
    pub dump : DumpBody
    pub success : is_success answer.status ≡ true
    pub read : answer.bytes ≡ ok bytes
    pub valid : validate_upstream_body split.lib.codec bytes ≡ ok dump
    pub parsed : split.calls.from_str (dumped_text dump) ≡ ok reply

  -- The bodies of these chunks are serialised, each with the identifier of the reply before, and
  -- answered by these replies in order; no chunk is too large with the identifier of the first.
  abbrev pub AreServed : ℕ → Option String → List (List Content) → List Reply → Type 0
  AreServed i prev [] [] = Unit
  AreServed i prev (chunk ∷ chunks) (reply ∷ replies) =
      ((body : List ℕ) × (answer : Answer) × (chunk_body split i prev chunk ≡ ok body)
        × (split.calls.send body ≡ ok answer)
        × IsServed answer reply)
      × (leaves_no_room split i reply chunks ≡ false)
      × AreServed (suc i) (some (split.calls.id reply)) chunks replies
  AreServed i prev _ _ = ⊥

  AreServed-conversation :
      (chunks : List (List Content)) (replies : List Reply) (i : ℕ) (prev : Option String)
      → AreServed i prev chunks replies
      → conversation split i prev chunks ≡ (replies, served)
  unfolding conversation reply_of
  AreServed-conversation [] [] i prev all = refl
  AreServed-conversation [] (_ ∷ _) i prev all = absurd all
  AreServed-conversation (_ ∷ _) [] i prev all = absurd all
  AreServed-conversation (chunk ∷ chunks) (reply ∷ replies) i prev
        ((body, answer, good, came, by), room, all) =
      rw
        (
          good,
          came,
          by.success,
          by.read,
          by.valid,
          by.parsed,
          room,
          AreServed-conversation chunks replies (suc i) (some (split.calls.id reply)) all,
          reply_in,
          reply_of,
          conversation,
        )
        refl

  never : {A : Type 0} (why : Why Value) (e : AppError) → Stops why (aborted e) → why ≡ served → A
  never _ _ (unserialising e) same = absurd (cc same)
  never _ _ (oversizing message) same = absurd (cc same)

  served_end :
      (key : Key) (before : List String) (said : List Reply × Why Value) (replies : List Reply)
      (x : Step split (Response Value))
      → said ≡ (replies, served)
      → ((id : String) → (value : Value) × (split.calls.build_response replies id ≡ ok value))
      → SplitEnd split key before said x
      → (value : Value) × (x.0 ≡ ok (ok_response split value))
        × (done : Completed split key before replies x.1) × (split.calls.build_response replies
              done.node.id
            ≡ ok value)
  served_end key before _ replies _ same builds (completes rs value st done responds) =
      subst
        (λ l.
          (v : Value) × Path (Result (Stopped Value) (Response Value))
            (ok (ok_response split value)) (ok (ok_response split v))
          × (d : Completed split key before l st) × (split.calls.build_response l d.node.id ≡ ok v))
        (ap (λ p. p.0) same) (value, refl, done, responds)
  served_end key before _ replies _ same builds (unanswered rs e st done bad) =
      let (value, good) = builds done.node.id in absurd (cc (ap (λ p. p.0) same, bad, good))
  served_end key before _ replies _ same builds (fails rs r st v) = absurd (cc (ap (λ p. p.1) same))
  served_end key before _ replies _ same builds (leaves rs why e st next n stops v kept) =
      never why e stops (ap (λ p. p.1) same)

  -- Where the bodies of the chunks of a split send are serialised, each with the identifier of the reply before, no later chunk is too large with the identifier of the first reply, and the upstream answers each with success and a reply, and the response to these replies can be built: the client gets that response with status 200, the batch was taken out, its client node is stored with the messages of the request and the identifiers of these replies in order, one for each chunk, and nothing was cancelled.
  pub split_send-Served :
      (session_id : String) (hashes : List ℕ) (system_hash : Option ℕ)
      (chunks : List (List Content)) (replies : List Reply) (st : Sending)
      → AreServed 0 split.params.previous_interaction_id chunks replies
      → ((id : String) → (value : Value) × (split.calls.build_response replies id ≡ ok value))
      → let key : Key = (split.params.previous_interaction_id, hashes, system_hash) in
        let end = split_send split session_id hashes system_hash chunks st in
        (value : Value) × (end.0 ≡ ok (ok_response split value))
        × (done : Completed split key st.cancelled replies end.1) × (split.calls.build_response
              replies done.node.id
            ≡ ok value)
  split_send-Served session_id hashes system_hash chunks replies st all builds =
      served_end (split.params.previous_interaction_id, hashes, system_hash) st.cancelled _ replies
        _ (AreServed-conversation chunks replies 0 split.params.previous_interaction_id all) builds
        (split_send-SplitEnd split session_id hashes system_hash chunks st)
