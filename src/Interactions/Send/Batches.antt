-- ===== src/Interactions/Send/Batches.antt =====
-- src/interactions_handler.rs: what handle_split_send leaves of its batch on the session store.
use inf_splitter.Prelude.{
  String_eq, ==_refl, List, Option, Option-cases, Result, Result-cases, String, [], ap, append-nil,
  append_assoc, arith, err, false, if◌then◌else◌, inl, inr, length, length-append, map, none, ok,
  refl, some, subst, suc, sym, true, ℕ, ◌++◌, ◌∙◌, ◌∷◌, ◌≡◌,
}
use inf_splitter.Prelude.Dict
use inf_splitter.Interactions.Send.{
  SplitSend, Step, after_reply, finish_batch, oversized, pending_pieces, respond, send_piece,
  send_pieces, split_send,
}
use inf_splitter.Interactions.Chunks.{
  Sending, aborted, ack_and_persist, complete_batch_and_persist, failed_batch,
}
use inf_splitter.Interactions.Send.Filled.{AreFilled-done, AreFilled-next, ArePending, InFlightWith}
use inf_splitter.Session.InFlight.{acked_ids, client_node_of, create_batch}
use inf_splitter.Session.{
  ClientInteractionNode, InFlightBatch, InFlightStatus, pending, response_started,
}
use inf_splitter.Errors.{AppError, internal}
use inf_splitter.Upstream.{Response, json_body, json_content}
use inf_splitter.Session.InFlight.Completion.{complete_batch-IsStored}
use inf_splitter.Diagnostics.Guard.{State}
use inf_splitter.Interactions.Send.Stored.{Cancelled, Key, ack-InFlightWith}
use inf_splitter.Interactions.Send.Pieces.{Goes, going, gone, halted, send_piece-Goes}
use inf_splitter.Diagnostics.Guard.Steps.{abort_bad_request, abort_internal, abort_with}
use inf_splitter.Interactions.Send.Conversation.{
  Same, Stops, Why, conversation, failing, leaves_no_room, oversized-leaves_no_room, oversizing,
  reply_of, same_err, same_ok, send_piece-reply_of, served, too_large, upstream_failed,
}
use inf_splitter.Prelude.Text.{Text}

-- the response with the session header
abbrev pub ok_response :
    {M Value Reply Content Config : Type 0}
    → SplitSend M Value Reply Content Config
    → Value
    → Response Value
ok_response split value = record {
  status = 200;
  headers = json_content ∷ split.session_header ∷ [];
  body = json_body value;
}

module _ {M Value Reply Content Config : Type 0} (split : SplitSend M Value Reply Content Config)
    (key : Key) (before : List String) where
  -- every piece was acked, the batch was failed, or it stays in flight, by the conversation
  pub data Looped : List Reply × Why Value → Step split (List Reply) → Type 0 where
    all_acked :
        (replies : List Reply) (st : Sending)
        → InFlightWith st.store split.batch_id key (map split.calls.id replies) none 0
        → st.cancelled ≡ before
        → Looped (replies, served) (ok replies, st)
    was_failed :
        (replies : List Reply) (r : Result AppError (Response Value)) (st : Sending)
        → Cancelled split.batch_id (map split.calls.id replies) before st
        → Looped (replies, upstream_failed r) (err (failed_batch r), st)
    stays :
        (replies : List Reply) (why : Why Value) (e : AppError) (st : Sending)
        (next : Option InFlightStatus) (n : ℕ)
        → Stops why (aborted e)
        → InFlightWith st.store split.batch_id key (map split.calls.id replies) next n
        → st.cancelled ≡ before
        → Looped (replies, why) (err (aborted e), st)

  Looped-nil :
      (replies : List Reply) (why : Why Value) (x : Step split (List Reply))
      → Looped (replies, why) x
      → Looped (replies ++ [], why) x
  Looped-nil replies why x looped = subst (λ l. Looped (l, why) x) (sym (append-nil replies)) looped

  Looped-from :
      (replies : List Reply) (n : ℕ) (x : Step split Reply) (w : Result (Why Value) Reply)
      (next : Reply → List Reply × Why Value) (k : Reply → Sending → Step split (List Reply))
      → Goes split key before (map split.calls.id replies) n x
      → Same x.0 w
      → ((reply : Reply) (st : Sending)
          → InFlightWith st.store split.batch_id key
              (map split.calls.id replies)
              (some response_started)
              n
          → st.cancelled ≡ before
          → Looped (replies ++ (next reply).0, (next reply).1) (k reply st))
      → let said : List Reply × Why Value = elim w [
        | err why ↦ ([], why)
        | ok reply ↦ next reply
      ] in
        let after : Step split (List Reply) = elim x.0 [
          | err stopped ↦ (err stopped, x.1)
          | ok reply ↦ k reply x.1
        ] in
        Looped (replies ++ said.0, said.1) after
  Looped-from replies n _ _ next k (going reply st v same) (same_ok _) rest = rest reply st v same
  Looped-from replies n _ _ next k (gone r st v) (same_err _ _ (failing _)) rest =
      Looped-nil replies _ _ (was_failed replies r st v)
  Looped-from replies n _ _ next k (halted e st v same) (same_err why _ stops) rest =
      Looped-nil replies _ _ (stays replies why e st (some pending) n stops v same)

  map-snoc :
      (replies : List Reply) (reply : Reply)
      → map split.calls.id (replies ++ reply ∷ [])
        ≡ map split.calls.id replies ++ split.calls.id reply ∷ []
  map-snoc [] reply = refl
  map-snoc (r ∷ replies) reply = ap (λ l. split.calls.id r ∷ l) (map-snoc replies reply)

  after_reply-Looped :
      (i : ℕ) (chunks : List (List Content)) (replies : List Reply) (reply : Reply) (st : Sending)
      (said : List Reply × Why Value) (rest : Step split (List Reply)) (n : ℕ)
      → InFlightWith st.store split.batch_id key (map split.calls.id (replies ++ reply ∷ [])) none n
      → st.cancelled ≡ before
      → Looped ((replies ++ reply ∷ []) ++ said.0, said.1) rest
      → let heard : List Reply × Why Value =
          if leaves_no_room split i reply chunks
          then (reply ∷ [], too_large)
          else (reply ∷ said.0, said.1) in
        Looped (replies ++ heard.0, heard.1) (after_reply split i chunks reply st rest)
  unfolding after_reply abort_bad_request abort_with
  after_reply-Looped i chunks replies reply st said rest n v same looped =
      let agree = oversized-leaves_no_room split i reply chunks in
      elim (Option-cases (oversized split i (split.calls.id reply) chunks)) [
        | inl fits ↦
            let room : leaves_no_room split i reply chunks ≡ false = sym agree ∙ (rw fits refl) in
            rw (fits, room, after_reply)
              (subst (λ l. Looped (l, said.1) rest) (append_assoc replies (reply ∷ []) said.0)
                looped)
        | inr (message, over) ↦
            let none_left : leaves_no_room split i reply chunks ≡ true =
              sym agree ∙ (rw over refl) in
            rw (over, none_left, after_reply)
              (stays (replies ++ reply ∷ []) too_large _ _ none n (oversizing message) v same)
      ]

  send_pieces-Looped :
      (chunks : List (List Content)) (i : ℕ) (prev : Option String) (replies : List Reply)
      (st : Sending)
      → i ≡ length (map split.calls.id replies)
      → InFlightWith st.store split.batch_id key (map split.calls.id replies) none (length chunks)
      → st.cancelled ≡ before
      → let said = conversation split i prev chunks in
        Looped (replies ++ said.0, said.1) (send_pieces split i prev replies chunks st)
  unfolding send_pieces ack_and_persist conversation
  send_pieces-Looped [] i prev replies st at v same =
      Looped-nil replies served _ (all_acked replies st v same)
  send_pieces-Looped (chunk ∷ chunks) i prev replies st at v same =
      let ids = map split.calls.id replies in
      let next : Reply → List Reply × Why Value = λ (reply : Reply).
        let rest = conversation split (suc (length ids)) (some (split.calls.id reply)) chunks in
        if leaves_no_room split (length ids) reply chunks
        then (reply ∷ [], too_large)
        else (reply ∷ rest.0, rest.1) in
      subst
        (λ j.
          let said = conversation split j prev (chunk ∷ chunks) in
          Looped (replies ++ said.0, said.1) (send_pieces split j prev replies (chunk ∷ chunks) st))
        (sym at)
        (Looped-from replies (length chunks) (send_piece split (length ids) prev chunk st)
          (reply_of split (length ids) prev chunk) next
          (λ reply st1.
            let id = split.calls.id reply in
            let st2 = ack_and_persist split.now split.batch_id (length ids) id st1 in
            after_reply split (length ids) chunks reply st2
              (send_pieces split (suc (length ids)) (some id) (replies ++ reply ∷ []) chunks st2))
          (send_piece-Goes split key before ids (length chunks) prev chunk st
            (record {
              batch = v.batch;
              there = v.there;
              same_key = v.same_key;
              filled = AreFilled-next ids (length chunks) v.batch.pieces v.filled;
            })
            same)
          (send_piece-reply_of split (length ids) prev chunk st)
          (λ reply st1 v1 same1.
            let id = split.calls.id reply in
            let st2 = ack_and_persist split.now split.batch_id (length ids) id st1 in
            let v2 =
              subst (λ l. InFlightWith st2.store split.batch_id key l none (length chunks))
                (sym (map-snoc replies reply))
                (ack-InFlightWith split.now split.batch_id key ids (length chunks) id st1 v1) in
            after_reply-Looped (length ids) chunks replies reply st2
              (conversation split (suc (length ids)) (some id) chunks) _ (length chunks) v2 same1
              (send_pieces-Looped chunks (suc (length ids)) (some id) (replies ++ reply ∷ []) st2
                (omega
                  (arith, length-append ids (id ∷ []), ap (λ l. length l) (map-snoc replies reply)))
                v2 same1)))

  -- the batch is gone, and its client node is stored with the identifiers of the replies
  pub record Completed (replies : List Reply) (st : Sending) : Type 0 where
    pub node : ClientInteractionNode
    pub taken_out : Dict.get st.store.in_flight split.batch_id ≡ none
    pub stored : Dict.get st.store.interactions.clients node.id ≡ some node
    pub its_key : (node.prev_id, node.message_hashes, node.system_instruction_hash) ≡ key
    pub its_ids : node.upstream_ids ≡ map split.calls.id replies
    pub cancelled : st.cancelled ≡ before

  -- what the client gets, with what is left on the store, by the conversation
  pub data SplitEnd : List Reply × Why Value → Step split (Response Value) → Type 0 where
    completes :
        (replies : List Reply) (value : Value) (st : Sending) (done : Completed replies st)
        → split.calls.build_response replies done.node.id ≡ ok value
        → SplitEnd (replies, served) (ok (ok_response split value), st)
    unanswered :
        (replies : List Reply) (e : Text) (st : Sending) (done : Completed replies st)
        → split.calls.build_response replies done.node.id ≡ err e
        → SplitEnd (replies, served) (err (aborted (internal e)), st)
    fails :
        (replies : List Reply) (r : Result AppError (Response Value)) (st : Sending)
        → Cancelled split.batch_id (map split.calls.id replies) before st
        → SplitEnd (replies, upstream_failed r) (err (failed_batch r), st)
    leaves :
        (replies : List Reply) (why : Why Value) (e : AppError) (st : Sending)
        (next : Option InFlightStatus) (n : ℕ)
        → Stops why (aborted e)
        → InFlightWith st.store split.batch_id key (map split.calls.id replies) next n
        → st.cancelled ≡ before
        → SplitEnd (replies, why) (err (aborted e), st)

  respond-SplitEnd :
      (replies : List Reply) (st : Sending) (done : Completed replies st)
      → SplitEnd (replies, served) (respond split replies done.node.id st)
  unfolding respond abort_internal abort_with
  respond-SplitEnd replies st v =
      let moved : (g : State) → Completed replies (record st { guard = g }) = λ g. record {
        node = v.node;
        taken_out = v.taken_out;
        stored = v.stored;
        its_key = v.its_key;
        its_ids = v.its_ids;
        cancelled = v.cancelled;
      } in
      elim (Result-cases (split.calls.build_response replies v.node.id)) [
        | inr (e, bad) ↦ rw (bad, respond) (unanswered replies e _ (moved _) bad)
        | inl (value, good) ↦ rw (good, respond) (completes replies value _ (moved _) good)
      ]

  complete-SplitEnd :
      (replies : List Reply) (st : Sending)
      → InFlightWith st.store split.batch_id key (map split.calls.id replies) none 0
      → st.cancelled ≡ before
      → SplitEnd (replies, served) (finish_batch split replies st)
  unfolding finish_batch complete_batch_and_persist
  complete-SplitEnd replies st v same =
      let (full, ids) = AreFilled-done (map split.calls.id replies) v.batch.pieces v.filled in
      let d = complete_batch-IsStored st.store split.now split.batch_id v.batch v.there full in
      rw (d.result, finish_batch)
        (respond-SplitEnd replies _ (record {
          node = client_node_of v.batch split.now (acked_ids v.batch.pieces);
          taken_out = d.taken_out;
          stored = d.stored;
          its_key = v.same_key;
          its_ids = ids;
          cancelled = same;
        }))

  Looped-SplitEnd :
      (said : List Reply × Why Value) (x : Step split (List Reply))
      → Looped said x
      → let after : Step split (Response Value) = elim x.0 [
        | err stopped ↦ (err stopped, x.1)
        | ok replies ↦ finish_batch split replies x.1
      ] in
        SplitEnd said after
  Looped-SplitEnd _ _ (all_acked replies st v same) = complete-SplitEnd replies st v same
  Looped-SplitEnd _ _ (was_failed replies r st v) = fails replies r st v
  Looped-SplitEnd _ _ (stays replies why e st next n stops v same) =
      leaves replies why e st next n stops v same

pending_pieces-ArePending :
    {M Value Reply Content Config : Type 0} (split : SplitSend M Value Reply Content Config) (i : ℕ)
    (chunks : List (List Content))
    → ArePending (length chunks) (pending_pieces split i chunks)
unfolding pending_pieces
pending_pieces-ArePending split i [] = tt
pending_pieces-ArePending split i (_ ∷ chunks) =
    (refl, pending_pieces-ArePending split (suc i) chunks)

pub created-Looped :
    {M Value Reply Content Config : Type 0} (split : SplitSend M Value Reply Content Config)
    (session_id : String) (hashes : List ℕ) (system_hash : Option ℕ) (chunks : List (List Content))
    (st : Sending)
    → let created : Sending = (record st {
      store =
          create_batch st.store split.now split.batch_id session_id
            split.params.previous_interaction_id hashes system_hash
            (pending_pieces split 0 chunks);
    }) in
      Looped split
        (split.params.previous_interaction_id, hashes, system_hash)
        st.cancelled
        (conversation split 0 split.params.previous_interaction_id chunks)
        (send_pieces split 0 split.params.previous_interaction_id [] chunks created)
unfolding create_batch
created-Looped split session_id hashes system_hash chunks st =
    let key : Key = (split.params.previous_interaction_id, hashes, system_hash) in
    let batch : InFlightBatch = record {
      id = split.batch_id;
      session_id = session_id;
      prev_interaction_id = split.params.previous_interaction_id;
      message_hashes = hashes;
      system_instruction_hash = system_hash;
      pieces = pending_pieces split 0 chunks;
      created_utc = split.now;
      updated_utc = split.now;
    } in
    send_pieces-Looped split key st.cancelled chunks 0 split.params.previous_interaction_id []
      (record st {
        store =
            create_batch st.store split.now split.batch_id session_id
              split.params.previous_interaction_id hashes system_hash
              (pending_pieces split 0 chunks);
      })
      refl
      (record {
        batch = batch;
        there =
            Dict.get-insert st.store.in_flight split.batch_id split.batch_id batch
            ∙ ground (arith, ==_refl split.batch_id);
        same_key = refl;
        filled = pending_pieces-ArePending split 0 chunks;
      })
      refl

pub split_send-SplitEnd :
    {M Value Reply Content Config : Type 0} (split : SplitSend M Value Reply Content Config)
    (session_id : String) (hashes : List ℕ) (system_hash : Option ℕ) (chunks : List (List Content))
    (st : Sending)
    → SplitEnd split
        (split.params.previous_interaction_id, hashes, system_hash)
        st.cancelled
        (conversation split 0 split.params.previous_interaction_id chunks)
        (split_send split session_id hashes system_hash chunks st)
unfolding split_send
split_send-SplitEnd split session_id hashes system_hash chunks st =
    Looped-SplitEnd split (split.params.previous_interaction_id, hashes, system_hash) st.cancelled _
      _ (created-Looped split session_id hashes system_hash chunks st)
