-- ===== src/Queue/Delivery.antt =====
-- Which messages of a round are handled, and which are acknowledged.
use mathlib.Core.List.{append-nil, append_assoc}
use moon_eye.Base.{
  ◌≡◌, refl, sym, subst, ◌∙◌, true, false, List, [], ◌∷◌, ◌++◌, Str, inl, inr, Bool-cases,
  if◌then◌else◌,
}
use moon_eye.Outcome.{Error, is_panic, Result, ok, err, Action}
use moon_eye.Queue.Stream.{
  Message, XMessage, RedisClient, RedisStreamConfig, decode_message, deliver_message,
  deliver_messages,
}

-- What is written down of a round: a message that the handler was given with what it said, and an
-- id that was acknowledged.
pub data Entry : Type 0 where
  handled : Message → Result (Unit {0}) → Entry
  acked : Str → Entry

-- The entries of a batch that ends with the result. Each message is given to the handler once, in the
-- order of the stream. If it succeeds, the message is acknowledged before the next one; if it fails,
-- it is not; and if it panics, nothing follows.
pub data Delivers : List XMessage → Result (Unit {0}) → List Entry → Type 0 where
  end_of_batch : Delivers [] (ok tt) []
  succeeded :
      (m : XMessage) (ms : List XMessage) (r : Result (Unit {0})) (log : List Entry)
      → Delivers ms r log
      → Delivers (m ∷ ms) r (handled (decode_message m) (ok tt) ∷ acked m.id ∷ log)
  failed :
      (m : XMessage) (ms : List XMessage) (r : Result (Unit {0})) (e : Error) (log : List Entry)
      → is_panic e ≡ false
      → Delivers ms r log
      → Delivers (m ∷ ms) r (handled (decode_message m) (err e) ∷ log)
  panicked :
      (m : XMessage) (ms : List XMessage) (e : Error)
      → is_panic e ≡ true
      → Delivers (m ∷ ms) (err e) (handled (decode_message m) (err e) ∷ [])

module _ {S : Type 0} (client : RedisClient S) (cfg : RedisStreamConfig)
    (handler : Message → Action S (Unit {0})) where
  -- A call that runs as it would, on a state with the entries so far.
  abbrev pub beside : {A : Type 0} → Action S A → Action (S × List Entry) A
  beside m (s, log) = let (r, s') = m s in (r, (s', log))

  -- The client and the handler, with each call of XACK and of the handler written down.
  abbrev pub written_client : RedisClient (S × List Entry)
  written_client = record {
    x_add = λ stream values. beside (client.x_add stream values);
    x_group_create_mk_stream =
        λ stream group from. beside (client.x_group_create_mk_stream stream group from);
    x_read_group = λ group name stream from count block.
        beside (client.x_read_group group name stream from count block);
    x_ack = λ stream group id (s, log).
        let (r, s') = client.x_ack stream group id s in (r, (s', log ++ (acked id ∷ [])));
  }

  abbrev pub written_handler : Message → Action (S × List Entry) (Unit {0})
  written_handler m (s, log) = let (r, s') = handler m s in (r, (s', log ++ (handled m r ∷ [])))

  abbrev delivered : List XMessage → Action (S × List Entry) (Unit {0})
  delivered = deliver_messages written_client cfg written_handler

  -- What was written down of a batch.
  pub record IsDelivered (ms : List XMessage) (before : List Entry)
      (p : Result (Unit {0}) × (S × List Entry)) : Type 0 where
    pub log : List Entry
    pub appended : p.1.1 ≡ before ++ log
    pub delivers : Delivers ms p.0 log

  more :
      (ms : List XMessage) (before : List Entry) (p : Result (Unit {0}) × (S × List Entry))
      (m : XMessage) (entries : List Entry)
      → IsDelivered ms (before ++ entries) p
      → ((log : List Entry) → Delivers ms p.0 log → Delivers (m ∷ ms) p.0 (entries ++ log))
      → IsDelivered (m ∷ ms) before p
  more ms before p m entries rest first = record {
    log = entries ++ rest.log;
    appended = rest.appended ∙ append_assoc before entries rest.log;
    delivers = first rest.log rest.delivers;
  }

  -- What follows the handler's answer to a message, with the entries that it leaves.
  abbrev settled :
      XMessage → List Entry → Result (Unit {0}) → S → Result (Unit {0}) × (S × List Entry)
  settled m before r after =
      let noted = before ++ (handled (decode_message m) r ∷ []) in
      elim r [
        | ok _ ↦
            (ok tt, ((client.x_ack cfg.stream cfg.group m.id after).1, noted ++ (acked m.id ∷ [])))
        | err e ↦ (if is_panic e then err e else ok tt, (after, noted))
      ]

  goes_on :
      (m : XMessage) (ms : List XMessage) (before : List Entry) (r : Result (Unit {0})) (after : S)
      → ((s : S) (log : List Entry) → IsDelivered ms log (delivered ms (s, log)))
      → let p = settled m before r after in
        IsDelivered (m ∷ ms) before (elim p.0 as (λ _. Result (Unit {0}) × (S × List Entry)) [
          | ok a ↦ delivered ms p.1
          | err e ↦ (err e, p.1)
        ])
  goes_on m ms before (ok u) after rest =
      let message = decode_message m in
      let gone = (client.x_ack cfg.stream cfg.group m.id after).1 in
      let noted = before ++ (handled message (ok tt) ∷ []) in
      more ms before _ m (handled message (ok tt) ∷ acked m.id ∷ [])
        (subst (λ log. IsDelivered ms log (delivered ms (gone, noted ++ (acked m.id ∷ []))))
          (append_assoc before (handled message (ok tt) ∷ []) (acked m.id ∷ []))
          (rest gone (noted ++ (acked m.id ∷ []))))
        (λ log. succeeded m ms _ log)
  goes_on m ms before (err x) after rest = elim (Bool-cases (is_panic x)) [
    | inl stops ↦ rw stops (record {
      log = handled (decode_message m) (err x) ∷ [];
      appended = refl;
      delivers = panicked m ms x stops;
    })
    | inr no_panic ↦ rw no_panic (
        more ms before _ m (handled (decode_message m) (err x) ∷ [])
          (rest after (before ++ (handled (decode_message m) (err x) ∷ [])))
          (λ log. failed m ms _ x log no_panic))
  ]

  -- A batch of messages, whatever the handler does and says: each message is given to it once, in
  -- the order of the stream, until it panics; a message is acknowledged exactly if the handler
  -- succeeds on it, and before the next one is handled; and the batch ends with a panic or well.
  pub deliver_messages-IsDelivered :
      (ms : List XMessage) (s : S) (before : List Entry)
      → IsDelivered ms before (deliver_messages written_client cfg written_handler ms (s, before))
  unfolding deliver_messages deliver_message
  deliver_messages-IsDelivered [] s before = record {
    log = [];
    appended = sym (append-nil before);
    delivers = end_of_batch;
  }
  deliver_messages-IsDelivered (m ∷ ms) s before =
      goes_on m ms before (handler (decode_message m) s).0 (handler (decode_message m) s).1
        (deliver_messages-IsDelivered ms)
